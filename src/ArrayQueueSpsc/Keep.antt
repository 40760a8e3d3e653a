-- ===== src/ArrayQueueSpsc/Keep.antt =====
-- src/crossbeam/array_queue_spsc.rs: every step keeps the counts.
use crossfire_rs.Prelude.{
  ℕ, ◌+◌, ◌*◌, ◌%◌, ◌^◌, ◌<◌, ◌≡◌, sym, ap, ◌∙◌, Bool, Option, none, some, [], ◌∷◌, add32,
  length-append, length-set, arith,
}
use crossfire_rs.Laps.{AreLaps, posn, step_of, posn-lt, posn-cap, posn_inj, step_of-posn}
use crossfire_rs.ArrayQueueSpsc.{
  Tx, write, store, Rx, take, free, pack, high, low, index_of, advance, slot_at, push, tx_step, pop,
  rx_step,
}
use crossfire_rs.ArrayQueueSpsc.System.{System, after_push, after_tx, after_pop, after_rx}
use crossfire_rs.ArrayQueueSpsc.Inv.{Counts}

module _ {cap lap laps : ℕ} (l : AreLaps cap lap laps) (word : lap * laps ≡ 2 ^ 32) where
  pub small : (n : ℕ) → posn cap lap laps n < 2 ^ 32
  small n = omega (arith, posn-lt l n, word)

  pub low-pack :
      (a b : ℕ) → low (pack (posn cap lap laps a) (posn cap lap laps b)) ≡ posn cap lap laps b
  low-pack a b = omega (arith, small b)

  pub high-pack :
      (a b : ℕ) → high (pack (posn cap lap laps a) (posn cap lap laps b)) ≡ posn cap lap laps a
  high-pack a b = omega (arith, small b)

  module _ {A : Type 0} {s : System A} (c : Counts cap lap laps s) where
    open c use {sized, lap_is, sender_word, recv_word}

    pub tail_is : low s.queue.sender ≡ posn cap lap laps s.sent
    tail_is = ap low sender_word ∙ low-pack s.kept_head s.sent

    pub cached_head_is : high s.queue.sender ≡ posn cap lap laps s.kept_head
    cached_head_is = ap high sender_word ∙ high-pack s.kept_head s.sent

    pub head_is : low s.queue.recv ≡ posn cap lap laps s.freed
    head_is = ap low recv_word ∙ low-pack s.kept_tail s.freed

    pub cached_tail_is : high s.queue.recv ≡ posn cap lap laps s.kept_tail
    cached_tail_is = ap high recv_word ∙ high-pack s.kept_tail s.freed

    pub advance_is : (n : ℕ) → advance s.queue (posn cap lap laps n) ≡ posn cap lap laps (n + 1)
    unfolding advance step_of
    advance_is n =
        let at_word : step_of (2 ^ 32) cap lap (posn cap lap laps n) ≡ posn cap lap laps (n + 1) =
          ap (λ w. step_of w cap lap (posn cap lap laps n)) (sym word) ∙ step_of-posn l n in
        rw (lap_is, sized) at_word

    pub full_is :
        add32 (posn cap lap laps s.kept_head) s.queue.one_lap
        ≡ posn cap lap laps (s.kept_head + cap)
    full_is =
        ap (λ k. add32 (posn cap lap laps s.kept_head) k) lap_is
        ∙ ap (λ w. (posn cap lap laps s.kept_head + lap) % w) (sym word)
        ∙ sym (posn-cap l s.kept_head)

    pub push-Counts :
        (v : A) (answer : Option Bool)
        → s.tx ≡ Tx.idle answer
        → Counts cap lap laps (after_push v s)
    unfolding after_push push
    push-Counts v answer e =
        ground (arith, tail_is, cached_head_is, full_is, posn_inj l s.sent (s.kept_head + cap))

    pub tx_step-Counts : (tx : Tx A) → s.tx ≡ tx → Counts cap lap laps (after_tx s)
    unfolding after_tx tx_step
    tx_step-Counts (Tx.idle a) e = ground (arith, e)
    tx_step-Counts (Tx.check v tail hc) e = ground (arith, e, head_is)
    tx_step-Counts (write v tail hc) e = ground (
      arith,
      e,
      advance_is s.sent,
      length-append s.written (v ∷ []),
      length-set s.queue.buffer (index_of s.queue tail) (some v),
    )
    tx_step-Counts (store nt hc) e = ground (arith, e)

    pub rx_step-Counts : (rx : Rx A) → s.rx ≡ rx → Counts cap lap laps (after_rx s)
    unfolding after_rx rx_step
    rx_step-Counts (Rx.idle a) e = ground (arith, e)
    rx_step-Counts (Rx.check head) e = ground (arith, e, tail_is)
    rx_step-Counts (take head tc) e = ground (
      arith,
      e,
      advance_is s.freed,
      length-append s.taken (slot_at s.queue head ∷ []),
      length-set s.queue.buffer (index_of s.queue head) none,
    )
    rx_step-Counts (free m pr) e = ground (arith, e)

    pub pop-Counts :
        (spin : Bool) (answer : Option (Option A))
        → s.rx ≡ Rx.idle answer
        → Counts cap lap laps (after_pop spin s)
    unfolding after_pop pop
    pop-Counts spin answer e = ground (arith, tail_is, cached_tail_is, head_is)
