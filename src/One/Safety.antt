-- ===== src/One/Safety.antt =====
-- src/flavor/one.rs: what holds of the two slots in every state that is reached.
use native.Mathlib.Decide.{ℕ_discrete}
use crossfire_rs.Prelude.{
  ℕ, ◌+◌, ◌/◌, ◌%◌, ◌^◌, ◌≡◌, ◌≢◌, ◌↔◌, inl, inr, sym, ap, ◌∙◌, Bool, true, false, none, List, [],
  ◌∷◌, ◌++◌, length, ◌==◌, if◌then◌else◌, arith, Bool-cases,
}
use crossfire_rs.ArrayQueue.Rep.{nth, nth_past}
use crossfire_rs.One.{
  Slot, refused, is_odd, push_round, read_round, write, read, slot_at, is_empty, drop,
}
use crossfire_rs.One.System.{Sending, Receiving, Lane, System, lane_at, Reach}
use crossfire_rs.One.Inv.{LaneInv, Inv, GotRight}
use crossfire_rs.One.Keep.{first_writer, first_reader}
use crossfire_rs.One.Sound.{write-cases, read-cases, Reach-Inv}

-- The index of a slot.
abbrev pub index : Bool → ℕ
index false = 0
index true = 1

module _ {A : Type 0} where
  lane-Inv :
      (b : Bool) (s : System A)
      → Inv s
      → LaneInv (index b) s.pushed s.popped (slot_at b s.queue) (lane_at b s)
  lane-Inv false s i = i.lane_0
  lane-Inv true s i = i.lane_1

  -- However the senders and receivers of a queue of one value interleave, with fewer than 2¹⁵ of
  -- them between the claim of a slot and the end of their call, every pop that is through has got
  -- the value of the push of its number, both numbered in the order of their exchanges of the
  -- packed word, past every wrap of the 16-bit stamps.
  pub got_in_order : (s : System A) → Reach s → GotRight s.pushed s.got
  got_in_order s r = (Reach-Inv r).got_right

  -- In every state that the senders and receivers of a queue of one value reach, with fewer than
  -- 2¹⁵ of them at work, if the stamp of a slot lets a sender through, that sender is the first
  -- of those that have claimed the slot, and no receiver that has claimed it is let through.
  pub write_alone :
      (s : System A)
      → Reach s
      → (b : Bool) (before after : List (Sending A)) (w : Sending A)
      → (lane_at b s).writers ≡ before ++ (w ∷ after)
      → write w.tail w.item (slot_at b s.queue) ≢ none
      → (before ≡ [])
        × ((ahead behind : List Receiving) (r : Receiving)
            → (lane_at b s).readers ≡ ahead ++ (r ∷ behind)
            → read r.new_head (slot_at b s.queue) ≡ none)
  write_alone s reach b before after w e goes =
      let i = lane-Inv b s (Reach-Inv reach) in
      elim (write-cases w.tail w.item (slot_at b s.queue)) [
        | inl wait ↦ absurd (goes wait)
        | inr (turn, _) ↦
            let (nil, same) = first_writer _ s.pushed s.popped _ _ i before after w e turn in
            (
              nil,
              λ ahead behind r e'. elim (read-cases r.new_head (slot_at b s.queue)) [
                | inl wait ↦ wait
                | inr (turn', _) ↦
                    let (nil', other) =
                      first_reader _ s.pushed s.popped _ _ i ahead behind r e' turn' in
                    absurd (omega arith)
              ],
            )
      ]

  -- The receivers' side of the exclusion: one whose stamp has come is the first of its slot, and no
  -- sender is let through beside it.
  pub read_alone :
      (s : System A)
      → Reach s
      → (b : Bool) (before after : List Receiving) (r : Receiving)
      → (lane_at b s).readers ≡ before ++ (r ∷ after)
      → read r.new_head (slot_at b s.queue) ≢ none
      → (before ≡ [])
        × ((ahead behind : List (Sending A)) (w : Sending A)
            → (lane_at b s).writers ≡ ahead ++ (w ∷ behind)
            → write w.tail w.item (slot_at b s.queue) ≡ none)
  read_alone s reach b before after r e goes =
      let i = lane-Inv b s (Reach-Inv reach) in
      elim (read-cases r.new_head (slot_at b s.queue)) [
        | inl wait ↦ absurd (goes wait)
        | inr (turn, _) ↦
            let (nil, other) = first_reader _ s.pushed s.popped _ _ i before after r e turn in
            (
              nil,
              λ ahead behind w e'. elim (write-cases w.tail w.item (slot_at b s.queue)) [
                | inl wait ↦ wait
                | inr (turn', _) ↦
                    let (nil', same) =
                      first_writer _ s.pushed s.popped _ _ i ahead behind w e' turn' in
                    absurd (omega arith)
              ],
            )
      ]

  -- In every state that the senders and receivers of a queue of one value reach, with fewer than
  -- 2¹⁵ of them at work, it looks empty exactly when as many values are popped as are pushed, and
  -- otherwise just one more is pushed; a push that does not fail for no reason is refused exactly
  -- in the second case, and a pop exactly in the first.
  pub rounds_observe :
      (s : System A)
      → Reach s
      → (is_empty s.queue ≡ true ↔ s.popped ≡ length s.pushed)
        × (is_empty s.queue ≡ false ↔ s.popped + 1 ≡ length s.pushed)
        × ((push_round false s.queue.pos s.queue ≡ (refused, s.queue))
            ↔ (s.popped + 1 ≡ length s.pushed))
        × ((read_round false s.queue.pos s.queue ≡ (refused, s.queue))
            ↔ (s.popped ≡ length s.pushed))
  unfolding is_empty push_round read_round
  rounds_observe s reach =
      let i = Reach-Inv reach in
      let le = i.popped_le in
      let le' = i.pushed_le in
      let w = i.word in
      elim (Bool-cases (s.queue.pos / 2 ^ 16 % 2 ^ 16 == s.queue.pos % 2 ^ 16)) [
        | inl y ↦
            let e : s.popped ≡ length s.pushed = ground arith in
            (ground arith, ground arith, ground arith, ground arith)
        | inr n ↦
            let e : s.popped + 1 ≡ length s.pushed = ground arith in
            (ground arith, ground arith, ground arith, ground arith)
      ]

  lane_rest :
      (p : ℕ) (pushed : List A) (popped : ℕ) (k : Slot A) (l : Lane A)
      → LaneInv p pushed popped k l
      → l.writers ≡ []
      → l.readers ≡ []
      → popped % 2 ≡ p
      → popped + 1 ≡ length pushed
      → k.value ≡ nth pushed popped
  lane_rest p pushed popped k l i w r par more =
      let n = ap length w in
      let m = ap length r in i.holds (omega arith) ∙ ap (nth pushed) (omega arith)

  -- In every state that the senders and receivers of a queue of one value reach, with fewer than
  -- 2¹⁵ of them at work, and in which nobody is between the claim of a slot and the end of a
  -- call, `drop` drops the value that is pushed and not popped, and none if there is none.
  pub drop_rest :
      (s : System A)
      → Reach s
      → s.lane_0.writers ≡ []
      → s.lane_0.readers ≡ []
      → s.lane_1.writers ≡ []
      → s.lane_1.readers ≡ []
      → drop s.queue ≡ nth s.pushed s.popped
  unfolding drop
  drop_rest s reach w0 r0 w1 r1 =
      let i = Reach-Inv reach in
      let le = i.popped_le in
      let le' = i.pushed_le in
      let w = i.word in
      elim (ℕ_discrete s.popped (length s.pushed)) [
        | yes e ↦
            let same : (s.queue.pos / 2 ^ 16 % 2 ^ 16 == s.queue.pos % 2 ^ 16) ≡ true =
              ground arith in
            ap
              (λ c.
                if c
                then none
                else (slot_at (is_odd (s.queue.pos / 2 ^ 16 % 2 ^ 16)) s.queue).value)
              same
            ∙ sym (nth_past s.pushed)
            ∙ ap (nth s.pushed) (sym e)
        | no ne ↦
            let more : s.popped + 1 ≡ length s.pushed = grind arith in
            let differ : (s.queue.pos / 2 ^ 16 % 2 ^ 16 == s.queue.pos % 2 ^ 16) ≡ false =
              ground arith in
            ap
              (λ c.
                if c
                then none
                else (slot_at (is_odd (s.queue.pos / 2 ^ 16 % 2 ^ 16)) s.queue).value)
              differ
            ∙ elim (Bool-cases (is_odd (s.queue.pos / 2 ^ 16 % 2 ^ 16))) [
              | inl y ↦
                  ap (λ b. (slot_at b s.queue).value) y
                  ∙ lane_rest 1 _ _ s.queue.slot_1 s.lane_1 i.lane_1 w1 r1 (ground arith) more
              | inr n ↦
                  ap (λ b. (slot_at b s.queue).value) n
                  ∙ lane_rest 0 _ _ s.queue.slot_0 s.lane_0 i.lane_0 w0 r0 (ground arith) more
            ]
      ]
