-- ===== src/ArrayQueueSpsc/Observe.antt =====
-- src/crossbeam/array_queue_spsc.rs: what `is_empty`, `is_full` and `len` say of the numbers of values
-- sent and received.
use native.Mathlib.Nat.{div-add-mod, mod-lt}
use crossfire_rs.Prelude.{
  ℕ, ◌+◌, ◌-◌, ◌*◌, ◌%◌, ◌^◌, ◌≤◌, ◌≡◌, sym, ap, ◌∙◌, ◌⊎◌, inl, inr, ◌==◌, add32, arith,
}
use crossfire_rs.Laps.{AreLaps, posn, posn-index, posn-cap, posn_inj, near_quotient}
use crossfire_rs.ArrayQueueSpsc.{low, index_of, is_empty, is_full, len}
use crossfire_rs.ArrayQueueSpsc.System.{System, Reach}
use crossfire_rs.ArrayQueueSpsc.Inv.{Counts}
use crossfire_rs.ArrayQueueSpsc.Keep.{head_is, tail_is}
use crossfire_rs.ArrayQueueSpsc.Sound.{sound}

module _ {cap lap laps : ℕ} (l : AreLaps cap lap laps) (word : lap * laps ≡ 2 ^ 32) {A : Type 0}
    {s : System A} (c : Counts cap lap laps s) where
  apart : (s.freed ≤ s.sent) × (s.sent ≤ s.freed + cap)
  apart = omega (arith, c.tail_kept, c.tail_seen, c.tail_sent, c.fits, c.head_kept, c.head_seen)

  same_position : (low s.queue.sender ≡ low s.queue.recv) → s.freed ≡ s.sent
  same_position e =
      posn_inj l s.freed s.sent apart.0 apart.1 (sym (head_is l word c) ∙ sym e ∙ tail_is l word c)

  same_count : s.sent ≡ s.freed → low s.queue.sender ≡ low s.queue.recv
  same_count e = tail_is l word c ∙ ap (posn cap lap laps) e ∙ sym (head_is l word c)

  lap_after : add32 (low s.queue.recv) s.queue.one_lap ≡ posn cap lap laps (s.freed + cap)
  lap_after =
      ap (λ k. add32 k s.queue.one_lap) (head_is l word c)
      ∙ ap (λ k. add32 (posn cap lap laps s.freed) k) c.lap_is
      ∙ ap (λ w. (posn cap lap laps s.freed + lap) % w) (sym word)
      ∙ sym (posn-cap l s.freed)

  is_empty-exact : is_empty s.queue ≡ (s.sent == s.freed)
  unfolding is_empty
  is_empty-exact = ground (arith, same_position, same_count)

  is_full-exact : is_full s.queue ≡ (s.sent == s.freed + cap)
  unfolding is_full
  is_full-exact =
      ground (arith, lap_after, tail_is l word c, apart, posn_inj l s.sent (s.freed + cap))

  head_index : index_of s.queue (low s.queue.recv) ≡ s.freed % cap
  head_index =
      ap (λ p. p % s.queue.one_lap) (head_is l word c)
      ∙ ap (λ k. posn cap lap laps s.freed % k) c.lap_is
      ∙ posn-index l s.freed

  tail_index : index_of s.queue (low s.queue.sender) ≡ s.sent % cap
  tail_index =
      ap (λ p. p % s.queue.one_lap) (tail_is l word c)
      ∙ ap (λ k. posn cap lap laps s.sent % k) c.lap_is
      ∙ posn-index l s.sent

  -- The distance in terms of the two indices.
  distance :
      (s.sent ≡ s.freed + (s.sent % cap - s.freed % cap)) × (s.freed % cap ≤ s.sent % cap)
      ⊎ (s.sent + s.freed % cap ≡ s.freed + cap + s.sent % cap) × (s.sent % cap ≤ s.freed % cap)
  distance = elim (near_quotient l s.freed s.sent apart.0 apart.1) [
    | inl q ↦
        inl (
          omega
            (arith, apart, div-add-mod s.sent cap, div-add-mod s.freed cap, ap (λ k. cap * k) q))
    | inr q ↦
        inr (
          grind
            (arith, apart, div-add-mod s.sent cap, div-add-mod s.freed cap, ap (λ k. cap * k) q))
  ]

  len-exact : len s.queue + s.freed ≡ s.sent
  unfolding len
  len-exact = ground (
    arith,
    apart,
    distance,
    head_index,
    tail_index,
    same_position,
    same_count,
    c.sized,
    mod-lt s.freed l.used,
  )

module _ {A : Type 0} {cap : ℕ} {s : System A} (r : Reach cap s) where
  -- In every state that the sender and the receiver of an array queue of one sender and one
  -- receiver reach, `is_empty`, `is_full` and `len`, read at once, tell exactly the number of
  -- values published and not yet freed, past every wrap of the 32-bit positions.
  pub observers_exact :
      (is_empty s.queue ≡ (s.sent == s.freed))
      × (is_full s.queue ≡ (s.sent == s.freed + cap))
      × (len s.queue + s.freed ≡ s.sent)
  observers_exact =
      let (_, _, l, w, c, h) = sound r in
      (is_empty-exact l w c, is_full-exact l w c, len-exact l w c)
