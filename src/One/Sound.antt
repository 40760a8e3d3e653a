-- ===== src/One/Sound.antt =====
-- src/flavor/one.rs: every step keeps the invariant.
use mathlib.Core.Path.{subst}
use crossfire_rs.Prelude.{
  ℕ, ◌≡◌, ◌⊎◌, inl, inr, sym, Bool, true, false, none, some, List, ◌∷◌, ◌++◌, ◌==◌, arith, add16,
  Bool-cases,
}
use crossfire_rs.One.{Slot, write, read, slot_at}
use crossfire_rs.One.System.{
  Sending, Receiving, System, lane_at, written, was_read, Step, pushes, pops, writes, reads, Reach,
  begin, next,
}
use crossfire_rs.One.Inv.{Inv, Inv-start}
use crossfire_rs.One.Rounds.{push-Inv, pop-Inv}
use crossfire_rs.One.Keep.{write_here, read_here}

module _ {A : Type 0} where
  pub write-cases :
      (tail : ℕ) (v : A) (k : Slot A)
      → (write tail v k ≡ none)
        ⊎ ((k.stamp ≡ tail)
            × (write tail v k ≡ some (record { value = some v; stamp = add16 tail 1 })))
  unfolding write
  write-cases tail v k = elim (Bool-cases (k.stamp == tail)) [
    | inl y ↦ inr (ground arith, ground arith)
    | inr n ↦ inl (ground arith)
  ]

  pub read-cases :
      (head : ℕ) (k : Slot A)
      → (read head k ≡ none)
        ⊎ ((k.stamp ≡ head)
            × (read head k ≡ some (k.value, record { value = none; stamp = add16 head 1 })))
  unfolding read
  read-cases head k = elim (Bool-cases (k.stamp == head)) [
    | inl y ↦ inr (ground arith, ground arith)
    | inr n ↦ inl (ground arith)
  ]

  written-Inv :
      (b : Bool) (before after : List (Sending A)) (w : Sending A) (s : System A)
      → (lane_at b s).writers ≡ before ++ (w ∷ after)
      → (slot_at b s.queue).stamp ≡ w.tail
      → Inv s
      → Inv (
          written b
            (before ++ after)
            s
            (some (record { value = some w.item; stamp = add16 w.tail 1 })))
  written-Inv false before after w s e turn i = record {
    popped_le = i.popped_le;
    pushed_le = i.pushed_le;
    word = i.word;
    lane_0 = write_here 0 s.pushed s.popped s.queue.slot_0 s.lane_0 i.lane_0 before after w e turn;
    lane_1 = i.lane_1;
    got_right = i.got_right;
  }
  written-Inv true before after w s e turn i = record {
    popped_le = i.popped_le;
    pushed_le = i.pushed_le;
    word = i.word;
    lane_0 = i.lane_0;
    lane_1 = write_here 1 s.pushed s.popped s.queue.slot_1 s.lane_1 i.lane_1 before after w e turn;
    got_right = i.got_right;
  }

  was_read-Inv :
      (b : Bool) (before after : List Receiving) (r : Receiving) (s : System A)
      → (lane_at b s).readers ≡ before ++ (r ∷ after)
      → (slot_at b s.queue).stamp ≡ r.new_head
      → Inv s
      → Inv (
          was_read b r
            (before ++ after)
            s
            (some ((slot_at b s.queue).value, record { value = none; stamp = add16 r.new_head 1 })))
  was_read-Inv false before after r s e turn i =
      let (kept, lt, v) =
        read_here 0 s.pushed s.popped s.queue.slot_0 s.lane_0 i.lane_0 before after r e turn
          i.popped_le in
      record {
        popped_le = i.popped_le;
        pushed_le = i.pushed_le;
        word = i.word;
        lane_0 = kept;
        lane_1 = i.lane_1;
        got_right = (lt, v, i.got_right);
      }
  was_read-Inv true before after r s e turn i =
      let (kept, lt, v) =
        read_here 1 s.pushed s.popped s.queue.slot_1 s.lane_1 i.lane_1 before after r e turn
          i.popped_le in
      record {
        popped_le = i.popped_le;
        pushed_le = i.pushed_le;
        word = i.word;
        lane_0 = i.lane_0;
        lane_1 = kept;
        got_right = (lt, v, i.got_right);
      }

  Step-Inv : {s t : System A} → Step s t → Inv s → Inv t
  Step-Inv {s} {t} (pushes sp loaded v few) i = push-Inv sp loaded v s few i
  Step-Inv {s} {t} (pops sp loaded few) i = pop-Inv sp loaded s few i
  Step-Inv {s} {t} (writes b before after w e) i =
      elim (write-cases w.tail w.item (slot_at b s.queue)) [
        | inl wait ↦ subst (λ x. Inv (written b (before ++ after) s x)) (sym wait) i
        | inr (turn, through) ↦
            subst (λ x. Inv (written b (before ++ after) s x)) (sym through)
              (written-Inv b before after w s e turn i)
      ]
  Step-Inv {s} {t} (reads b before after r e) i = elim (read-cases r.new_head (slot_at b s.queue)) [
    | inl wait ↦ subst (λ x. Inv (was_read b r (before ++ after) s x)) (sym wait) i
    | inr (turn, through) ↦
        subst (λ x. Inv (was_read b r (before ++ after) s x)) (sym through)
          (was_read-Inv b before after r s e turn i)
  ]

  pub Reach-Inv : {s : System A} → Reach s → Inv s
  Reach-Inv begin = Inv-start
  Reach-Inv (next r st) = Step-Inv st (Reach-Inv r)
