-- ===== src/One/Progress.antt =====
-- src/flavor/one.rs: somebody comes through.
use native.Mathlib.Decide.{ℕ_discrete}
use crossfire_rs.Prelude.{
  ℕ, ◌+◌, ◌≤◌, ◌<◌, ◌≡◌, ◌⊎◌, inl, inr, refl, Bool, true, false, none, some, List, [], ◌∷◌, length,
  arith, add16,
}
use crossfire_rs.One.{Slot, write, read, slot_at}
use crossfire_rs.One.System.{Sending, Receiving, Lane, System, lane_at, Reach}
use crossfire_rs.One.Inv.{LaneInv}
use crossfire_rs.One.Sound.{Reach-Inv}

module _ {A : Type 0} where
  -- Somebody at the slot has its turn, or nobody is there.
  abbrev pub GoesOn : Slot A → Lane A → Type 0
  GoesOn k l =
      ((l.writers ≡ []) × (l.readers ≡ []))
      ⊎ ((w : Sending A) × (after : List (Sending A)) × (l.writers ≡ w ∷ after)
          × (write w.tail w.item k ≡ some (record { value = some w.item; stamp = add16 w.tail 1 })))
      ⊎ ((r : Receiving) × (after : List Receiving) × (l.readers ≡ r ∷ after)
          × (read r.new_head k
              ≡ some (k.value, record { value = none; stamp = add16 r.new_head 1 })))

  write-goes :
      (w : Sending A) (k : Slot A)
      → k.stamp ≡ w.tail
      → write w.tail w.item k ≡ some (record { value = some w.item; stamp = add16 w.tail 1 })
  unfolding write
  write-goes w k e = ground arith

  read-goes :
      (r : Receiving) (k : Slot A)
      → k.stamp ≡ r.new_head
      → read r.new_head k ≡ some (k.value, record { value = none; stamp = add16 r.new_head 1 })
  unfolding read
  read-goes r k e = ground arith

  lane_goes :
      (p : ℕ) (pushed : List A) (popped : ℕ) (k : Slot A) (ws : List (Sending A))
      (rs : List Receiving)
      → (i : LaneInv p pushed popped k (record { writers = ws; readers = rs }))
      → popped ≤ length pushed
      → length pushed ≤ popped + 1
      → p < 2
      → GoesOn k (record { writers = ws; readers = rs })
  lane_goes p pushed popped k [] [] i le le' lt = inl (refl, refl)
  lane_goes p pushed popped k (w ∷ ws) [] i le le' lt =
      let (_, tail, _, _) = i.writers_from in inr (inl (w, ws, refl, write-goes w k (omega arith)))
  lane_goes p pushed popped k [] (r ∷ rs) i le le' lt =
      let (_, head, _) = i.readers_from in inr (inr (r, rs, refl, read-goes r k (omega arith)))
  lane_goes p pushed popped k (w ∷ ws) (r ∷ rs) i le le' lt =
      let (_, tail, _, _) = i.writers_from in
      let (_, head, _) = i.readers_from in
      elim (ℕ_discrete i.wrote i.took) [
        | yes same ↦ inr (inl (w, ws, refl, write-goes w k (omega arith)))
        | no other ↦ inr (inr (r, rs, refl, read-goes r k (omega arith)))
      ]

  -- In every state that the senders and receivers of a queue of one value reach, with fewer than
  -- 2¹⁵ of them at work, nobody waits at a slot, or the first sender or the first receiver there
  -- finds the stamp it waits for and comes through.
  pub slot-GoesOn : (s : System A) → Reach s → (b : Bool) → GoesOn (slot_at b s.queue) (lane_at b s)
  slot-GoesOn s reach false =
      let i = Reach-Inv reach in
      lane_goes 0 _ _ s.queue.slot_0 s.lane_0.writers s.lane_0.readers i.lane_0 i.popped_le
        i.pushed_le (omega arith)
  slot-GoesOn s reach true =
      let i = Reach-Inv reach in
      lane_goes 1 _ _ s.queue.slot_1 s.lane_1.writers s.lane_1.readers i.lane_1 i.popped_le
        i.pushed_le (omega arith)
