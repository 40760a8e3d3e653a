-- ===== src/OneMpsc/Safety.antt =====
-- src/flavor/one_mpsc.rs: what the invariant says of the values that are read, and of who is at a slot.
use mathlib.Core.Path.{subst}
use crossfire_rs.Prelude.{
  ℕ, ◌≤◌, ◌≡◌, ◌≢◌, inl, inr, refl, ap, Bool, true, false, none, List, [], ◌∷◌, length, arith,
}
use crossfire_rs.One.{Slot, slot_at}
use crossfire_rs.One.Inv.{GotRight}
use crossfire_rs.OneMpsc.{read}
use crossfire_rs.OneMpsc.System.{
  Sending, reading, System, writers_at, Step, pushes, writes, receives, Reach, begin, next,
}
use crossfire_rs.OneMpsc.Inv.{LaneInv, At, Inv, Inv-start, read_here}
use crossfire_rs.OneMpsc.Send.{push-Inv, write-Inv}
use crossfire_rs.OneMpsc.Receive.{read-cases, receive-Inv}

module _ {A : Type 0} where
  Step-Inv : {s t : System A} → Step s t → Inv s → Inv t
  Step-Inv {s} (pushes sp loaded v) i = push-Inv sp loaded v s i
  Step-Inv {s} (writes b before behind w e) i = write-Inv b before behind w s e i
  Step-Inv {s} receives i = receive-Inv s.receiver s refl i

  pub Reach-Inv : {s : System A} → Reach s → Inv s
  Reach-Inv begin = Inv-start
  Reach-Inv (next r st) = Step-Inv st (Reach-Inv r)

  -- A slot of the queue of one value for one receiver has one writer at most.
  one_writer :
      (p : ℕ) (pushed : List A) (reads : ℕ) (k : Slot A) (ws : List (Sending A))
      → LaneInv p pushed reads k ws
      → length ws ≤ 1
  one_writer p pushed reads k [] i = omega arith
  one_writer p pushed reads k (w ∷ ws) i =
      let (n, _, _) = i.pending in let len = ap length n in omega arith

  -- No writer is at the slot of which the receiver sees the stamp it waits for.
  through_alone :
      (b : Bool) (h : ℕ) (s : System A)
      → s.receiver ≡ reading b h
      → Inv s
      → (slot_at b s.queue).stamp ≡ h
      → writers_at b s ≡ []
  through_alone false h s e i turn =
      let (one, par, head) = subst (λ r. At r (length s.pushed) s.popped s.reads) e i.at in
      let le = i.pushed_le in
      let (_, _, none_left, _) =
        read_here 0 s.pushed s.reads s.queue.slot_0 s.writers_0 i.lane_0 (omega arith)
          (ground arith) (omega arith) (omega arith) in
      none_left
  through_alone true h s e i turn =
      let (one, par, head) = subst (λ r. At r (length s.pushed) s.popped s.reads) e i.at in
      let le = i.pushed_le in
      let (_, _, none_left, _) =
        read_here 1 s.pushed s.reads s.queue.slot_1 s.writers_1 i.lane_1 (omega arith)
          (ground arith) (omega arith) (omega arith) in
      none_left

  reads_in_order : (s : System A) → Reach s → GotRight s.pushed s.got
  reads_in_order s r = (Reach-Inv r).got_right

  slot_one_writer : (b : Bool) (s : System A) → Reach s → length (writers_at b s) ≤ 1
  slot_one_writer false s r = one_writer 0 _ _ _ _ (Reach-Inv r).lane_0
  slot_one_writer true s r = one_writer 1 _ _ _ _ (Reach-Inv r).lane_1

  -- If the receiver reads a slot, no sender is about to write it.
  alone_at :
      (b : Bool) (h : ℕ) (s : System A)
      → Inv s
      → s.receiver ≡ reading b h
      → read h (slot_at b s.queue) ≢ none
      → writers_at b s ≡ []
  alone_at b h s i e ne = elim (read-cases h (slot_at b s.queue)) [
    | inl wait ↦ absurd (ne wait)
    | inr (turn, _) ↦ through_alone b h s e i turn
  ]

  -- In every state that the senders and the receiver of a queue of one value for one receiver
  -- reach, however many senders are at work and however they interleave, every pop that is
  -- through has got the value of the push of its number, past every wrap of the 16-bit stamps;
  -- each slot has at most one sender between its claim and its write, although no sender waits
  -- for a stamp; and if the stamp lets the receiver read a slot, no sender is about to write it.
  pub one_receiver_safe :
      (s : System A)
      → Reach s
      → GotRight s.pushed s.got
        × ((b : Bool) → length (writers_at b s) ≤ 1)
        × ((b : Bool) (h : ℕ)
            → s.receiver ≡ reading b h
            → read h (slot_at b s.queue) ≢ none
            → writers_at b s ≡ [])
  one_receiver_safe s r =
      (reads_in_order s r, λ b. slot_one_writer b s r, λ b h. alone_at b h s (Reach-Inv r))
