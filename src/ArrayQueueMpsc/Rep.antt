-- ===== src/ArrayQueueMpsc/Rep.antt =====
-- src/crossbeam/array_queue_mpsc.rs: a queue that no thread is working on holds the list `xs`.
use native.Mathlib.Nat.{mod-lt}
use crossfire_rs.Prelude.{
  ℕ, ◌+◌, ◌*◌, ◌%◌, ◌^◌, ◌≤◌, ◌<◌, ◌≡◌, sym, ap, ◌∙◌, List, length, get_or, add32, arith,
}
use crossfire_rs.ArrayQueue.{no_slot}
use crossfire_rs.ArrayQueue.Rep.{nth}
use crossfire_rs.ArrayQueueSpsc.{pack, high, low}
use crossfire_rs.ArrayQueueSpsc.Keep.{low-pack, high-pack}
use crossfire_rs.Laps.{AreLaps, posn, posn-index, posn-cap, step_of, step_of-posn}
use crossfire_rs.ArrayQueueMpsc.{ArrayQueueMpsc, capacity, index_of, advance}

-- `freed` values were received before; `kept_head` and `kept_tail` count what the cached positions
-- stand for.
module _ (cap lap laps : ℕ) {A : Type 0} (q : ArrayQueueMpsc A) (xs : List A) where
  pub record Rep : Type 0 where
    pub freed : ℕ
    pub kept_head : ℕ
    pub kept_tail : ℕ
    pub sized : capacity q ≡ cap
    pub lap_is : q.one_lap ≡ lap
    pub head_kept : kept_head ≤ freed
    pub tail_kept : freed ≤ kept_tail
    pub tail_sent : kept_tail ≤ freed + length xs
    pub fits : freed + length xs ≤ kept_head + cap
    pub sender_word :
        q.sender ≡ pack (posn cap lap laps kept_head) (posn cap lap laps (freed + length xs))
    pub recv_word : q.recv ≡ pack (posn cap lap laps kept_tail) (posn cap lap laps freed)
    pub stamped :
        (j : ℕ)
        → j < length xs
        → (get_or q.buffer ((freed + j) % cap) no_slot).stamp ≡ posn cap lap laps (freed + j) + 1
    pub written :
        (j : ℕ) → j < length xs → (get_or q.buffer ((freed + j) % cap) no_slot).value ≡ nth xs j

module _ {cap lap laps : ℕ} (l : AreLaps cap lap laps) (word : lap * laps ≡ 2 ^ 32) {A : Type 0}
    {q : ArrayQueueMpsc A} {xs : List A} (r : Rep cap lap laps q xs) where
  open r use {freed, kept_head, kept_tail, sized, lap_is, sender_word, recv_word}

  pub tail_is : low q.sender ≡ posn cap lap laps (freed + length xs)
  tail_is = ap low sender_word ∙ low-pack l word kept_head (freed + length xs)

  pub cached_head_is : high q.sender ≡ posn cap lap laps kept_head
  cached_head_is = ap high sender_word ∙ high-pack l word kept_head (freed + length xs)

  pub head_is : low q.recv ≡ posn cap lap laps freed
  head_is = ap low recv_word ∙ low-pack l word kept_tail freed

  pub cached_tail_is : high q.recv ≡ posn cap lap laps kept_tail
  cached_tail_is = ap high recv_word ∙ high-pack l word kept_tail freed

  pub advance_is : (n : ℕ) → advance q (posn cap lap laps n) ≡ posn cap lap laps (n + 1)
  unfolding advance step_of
  advance_is n =
      let at_word : step_of (2 ^ 32) cap lap (posn cap lap laps n) ≡ posn cap lap laps (n + 1) =
        ap (λ w. step_of w cap lap (posn cap lap laps n)) (sym word) ∙ step_of-posn l n in
      rw (lap_is, sized) at_word

  pub lap_after : add32 (high q.sender) q.one_lap ≡ posn cap lap laps (kept_head + cap)
  lap_after =
      ap (λ k. add32 k q.one_lap) cached_head_is
      ∙ ap (λ k. add32 (posn cap lap laps kept_head) k) lap_is
      ∙ ap (λ w. (posn cap lap laps kept_head + lap) % w) (sym word)
      ∙ sym (posn-cap l kept_head)

  pub index_is : (n : ℕ) → index_of q (posn cap lap laps n) ≡ n % cap
  index_is n = ap (λ k. posn cap lap laps n % k) lap_is ∙ posn-index l n

  pub in_range : (n : ℕ) → n % cap < length q.buffer
  in_range n = omega (arith, sized, mod-lt n l.used)
