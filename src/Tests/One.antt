-- ===== src/Tests/One.antt =====
-- A run of src/flavor/one.rs with a sender and a receiver at work at the same time.
use crossfire_rs.Prelude.{
  ℕ, ◌+◌, ◌≡◌, ◌↔◌, refl, true, false, none, some, List, [], ◌∷◌, ◌++◌, length, arith,
}
use crossfire_rs.One.{refused, push_round, read_round, write, read, is_empty}
use crossfire_rs.One.System.{
  Sending, Receiving, System, start, after_push, after_pop, after_write, after_read, Reach, pushes,
  pops, writes, reads,
}
use crossfire_rs.One.Inv.{GotRight}
use crossfire_rs.One.Progress.{slot-GoesOn, GoesOn}
use crossfire_rs.One.Safety.{got_in_order, write_alone, rounds_observe}

abbrev first : Sending ℕ
first = record { item = 7; tail = 0; number = 0 }

abbrev second : Sending ℕ
second = record { item = 8; tail = 1; number = 1 }

abbrev taker : Receiving
taker = record { new_head = 1; number = 0 }

-- 7 is pushed and claimed by a receiver, and the next sender claims the other slot for 8.
abbrev sent : System ℕ
sent = after_write false first [] (after_push (push_round false 0 start.queue) 7 start)

abbrev both : System ℕ
both =
    let taken = after_pop (read_round false 1 sent.queue) sent in
    after_push (push_round false 65537 taken.queue) 8 taken

abbrev done : System ℕ
done = after_read false taker [] (after_write true second [] both)

both-Reach : Reach both
unfolding after_push after_pop push_round read_round write
both-Reach =
    Reach.next
      (Reach.next
        (Reach.next (Reach.next Reach.begin (pushes false 0 7 (omega arith)))
          (writes false [] [] first refl))
        (pops false 1 (omega arith)))
      (pushes false 65537 8 (omega arith))

done-Reach : Reach done
unfolding after_push after_pop push_round read_round write read
done-Reach =
    Reach.next (Reach.next both-Reach (writes true [] [] second refl))
      (reads false [] [] taker refl)

got_in_order_example : GotRight {A = ℕ} (7 ∷ 8 ∷ []) ((0, some 7) ∷ [])
unfolding after_push after_pop push_round read_round write read
got_in_order_example = got_in_order done done-Reach

write_alone_example :
    (◌≡◌ {A = List (Sending ℕ)} [] [])
    × ((ahead behind : List Receiving) (r : Receiving)
        → both.lane_1.readers ≡ ahead ++ (r ∷ behind)
        → read r.new_head both.queue.slot_1 ≡ none)
unfolding after_push after_pop push_round read_round write
write_alone_example = write_alone both both-Reach true [] [] second refl (λ e. cc)

slot-GoesOn_example : GoesOn both.queue.slot_0 both.lane_0
slot-GoesOn_example = slot-GoesOn both both-Reach false

rounds_observe_example :
    (is_empty done.queue ≡ true ↔ done.popped ≡ length done.pushed)
    × (is_empty done.queue ≡ false ↔ done.popped + 1 ≡ length done.pushed)
    × ((push_round false done.queue.pos done.queue ≡ (refused, done.queue))
        ↔ done.popped + 1 ≡ length done.pushed)
    × ((read_round false done.queue.pos done.queue ≡ (refused, done.queue))
        ↔ done.popped ≡ length done.pushed)
unfolding after_push after_pop push_round read_round write read
rounds_observe_example = rounds_observe done done-Reach
