-- ===== src/Tests/OneMpsc.antt =====
-- A run of src/flavor/one_mpsc.rs with two senders and the receiver at work at the same time.
use crossfire_rs.Prelude.{ℕ, ◌≤◌, ◌≡◌, ◌≢◌, refl, Bool, true, false, none, some, [], ◌∷◌, length}
use crossfire_rs.One.{slot_at}
use crossfire_rs.One.Inv.{GotRight}
use crossfire_rs.OneMpsc.{push_round, start_read, read}
use crossfire_rs.OneMpsc.System.{
  Sending, reading, System, start, writers_at, after_push, after_write, receiver_step, Reach,
  pushes, writes, receives,
}
use crossfire_rs.OneMpsc.Safety.{one_receiver_safe}

abbrev first : Sending ℕ
first = record { item = 7; tail = 0 }

abbrev second : Sending ℕ
second = record { item = 8; tail = 1 }

-- 7 is pushed, and the receiver has freed the word before 7 is written.
abbrev freed : System ℕ
freed = receiver_step (receiver_step (after_push (push_round false 0 start.queue) 7 start))

-- The next sender claims the other slot and writes first; then 7 is written, and the receiver reads.
abbrev crossed : System ℕ
crossed = after_write true second [] (after_push (push_round false 65537 freed.queue) 8 freed)

abbrev done : System ℕ
done = receiver_step (after_write false first [] crossed)

done-Reach : Reach done
unfolding push_round start_read read
done-Reach =
    let taken =
      Reach.next (Reach.next (Reach.next Reach.begin (pushes false 0 7)) receives) receives in
    let both =
      Reach.next (Reach.next taken (pushes false 65537 8)) (writes true [] [] second refl) in
    Reach.next (Reach.next both (writes false [] [] first refl)) receives

got_first : done.got ≡ (0, some 7) ∷ []
unfolding push_round start_read read
got_first = refl

one_receiver_safe_example :
    GotRight done.pushed done.got
    × ((b : Bool) → length (writers_at b done) ≤ 1)
    × ((b : Bool) (h : ℕ)
        → done.receiver ≡ reading b h
        → read h (slot_at b done.queue) ≢ none
        → writers_at b done ≡ [])
one_receiver_safe_example = one_receiver_safe done done-Reach
