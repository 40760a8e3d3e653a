-- ===== src/OneMpsc/Rest.antt =====
-- src/flavor/one_mpsc.rs: what the observers see, and what `drop` finds once nobody is at work.
use mathlib.Core.Path.{subst}
use native.Mathlib.Decide.{ℕ_discrete}
use crossfire_rs.Prelude.{
  ℕ, ◌+◌, ◌/◌, ◌%◌, ◌^◌, ◌<◌, ◌≡◌, refl, sym, ap, ◌∙◌, Bool, true, false, none, List, [], length,
  ◌==◌, if◌then◌else◌, arith,
}
use crossfire_rs.ArrayQueue.Rep.{nth, nth_past}
use crossfire_rs.One.{Slot, is_odd, slot_at}
use crossfire_rs.OneMpsc.{is_empty, len, drop}
use crossfire_rs.OneMpsc.System.{Sending, idle, System, Reach}
use crossfire_rs.OneMpsc.Inv.{LaneInv, At, Inv}
use crossfire_rs.OneMpsc.Safety.{Reach-Inv}

module _ {A : Type 0} where
  -- The slot of the next read, where all its writes are done, has the value of that number.
  value_left :
      (p : ℕ) (pushed : List A) (reads : ℕ) (k : Slot A) (ws : List (Sending A))
      → LaneInv p pushed reads k ws
      → p < 2
      → reads % 2 ≡ p
      → reads + 1 ≡ length pushed
      → ws ≡ []
      → k.value ≡ nth pushed reads
  value_left p pushed reads k ws i lt par more none_left =
      let c = i.claims in
      let len = ap length none_left in i.holds (omega arith) ∙ ap (nth pushed) (omega arith)

  rest_at :
      (b : Bool) (s : System A)
      → is_odd s.popped ≡ b
      → Inv s
      → s.reads ≡ s.popped
      → s.writers_0 ≡ []
      → s.writers_1 ≡ []
      → s.popped + 1 ≡ length s.pushed
      → (slot_at b s.queue).value ≡ nth s.pushed s.reads
  rest_at false s par i e w0 w1 more =
      value_left 0 s.pushed s.reads s.queue.slot_0 s.writers_0 i.lane_0 (omega arith) (ground arith)
        (omega arith) w0
  rest_at true s par i e w0 w1 more =
      value_left 1 s.pushed s.reads s.queue.slot_1 s.writers_1 i.lane_1 (omega arith) (ground arith)
        (omega arith) w1

  -- In every state that the senders and the receiver reach, once no sender and no receiver is at
  -- work, `drop` drops the value that is pushed and not popped, and none if there is none.
  drop_one_receiver :
      (s : System A)
      → Reach s
      → s.receiver ≡ idle
      → s.writers_0 ≡ []
      → s.writers_1 ≡ []
      → drop s.queue ≡ nth s.pushed s.popped
  unfolding drop
  drop_one_receiver s r e w0 w1 =
      let i = Reach-Inv r in
      let word = i.word in
      let le = i.popped_le in
      let le' = i.pushed_le in
      let same : s.reads ≡ s.popped = subst (λ x. At x (length s.pushed) s.popped s.reads) e i.at in
      elim (ℕ_discrete s.popped (length s.pushed)) [
        | yes eq ↦
            let empty : (s.queue.pos / 2 ^ 16 % 2 ^ 16 == s.queue.pos % 2 ^ 16) ≡ true =
              ground arith in
            let head : drop s.queue ≡ none =
              ap
                (λ c.
                  if c
                  then none
                  else (slot_at (is_odd (s.queue.pos / 2 ^ 16 % 2 ^ 16)) s.queue).value)
                empty in
            head ∙ sym (nth_past s.pushed) ∙ ap (nth s.pushed) (sym eq)
        | no ne ↦
            let more : s.popped + 1 ≡ length s.pushed = grind arith in
            let full : (s.queue.pos / 2 ^ 16 % 2 ^ 16 == s.queue.pos % 2 ^ 16) ≡ false =
              ground arith in
            let head : drop s.queue
                ≡ (slot_at (is_odd (s.queue.pos / 2 ^ 16 % 2 ^ 16)) s.queue).value =
              ap
                (λ c.
                  if c
                  then none
                  else (slot_at (is_odd (s.queue.pos / 2 ^ 16 % 2 ^ 16)) s.queue).value)
                full in
            let par : is_odd (s.queue.pos / 2 ^ 16 % 2 ^ 16) ≡ is_odd s.popped = ground arith in
            head
            ∙ ap (λ b. (slot_at b s.queue).value) par
            ∙ rest_at (is_odd s.popped) s refl i same w0 w1 more
            ∙ ap (nth s.pushed) same
      ]

  -- In every state that they reach, `len` is the number of values that are pushed and of which no
  -- pop has freed the word.
  len_lem : (s : System A) → Reach s → s.popped + len s.queue ≡ length s.pushed
  unfolding is_empty
  len_lem s r =
      let i = Reach-Inv r in
      let word = i.word in let le = i.popped_le in let le' = i.pushed_le in ground arith
