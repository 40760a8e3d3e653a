-- ===== src/ArrayQueueSpsc/Values.antt =====
-- src/crossbeam/array_queue_spsc.rs: every step keeps the values, written and taken in one order.
use native.Mathlib.Decide.{ℕ_discrete}
use native.Mathlib.Nat.{mod-lt}
use mathlib.Core.Path.{subst}
use crossfire_rs.Prelude.{
  ℕ, ◌+◌, ◌%◌, ◌≤◌, ◌<◌, ◌≡◌, sym, ap, ◌∙◌, Bool, true, false, if◌then◌else◌, ◌==◌, none, some, [],
  ◌∷◌, ◌++◌, length, get_or, set, length-append, get_or-set_self, get_or-set_ne, get_or-append_left,
  get_or-append_last, arith,
}
use crossfire_rs.ArrayQueue.Rep.{nth, nth-append, nth-append_last}
use crossfire_rs.Laps.{AreLaps, posn, posn-index, index_inj}
use crossfire_rs.ArrayQueueSpsc.{
  low, ArrayQueueSpsc, Tx, write, store, Rx, take, free, index_of, slot_at, tx_step, rx_step,
}
use crossfire_rs.ArrayQueueSpsc.System.{System, log_tx, log_rx, after_tx, after_rx}
use crossfire_rs.ArrayQueueSpsc.Inv.{unfreed, Counts, Values, Holds}

module _ {cap lap laps : ℕ} (l : AreLaps cap lap laps) {A : Type 0} {s : System A}
    (c : Counts cap lap laps s) (h : Holds cap s) where
  open c use {sized, lap_is}
  open h use {filled, ordered}

  -- The slot of the `n`-th item.
  index_is : (p n : ℕ) → p ≡ posn cap lap laps n → index_of s.queue p ≡ n % cap
  index_is p n e = ap (λ k. p % k) lap_is ∙ ap (λ k. k % lap) e ∙ posn-index l n

  pub in_range : (n : ℕ) → n % cap < length s.queue.buffer
  in_range n = omega (arith, sized, mod-lt n l.used)

  pub freeing_sent : s.freed + unfreed s.rx ≤ s.sent
  freeing_sent = ground (arith, c.rx_facts, c.tail_sent, c.tail_seen, c.tail_kept)

  taken_lt : (j : ℕ) → j < length s.taken → j < length s.written
  taken_lt j lt = omega (arith, c.taken_count, c.written_count, freeing_sent)

  within : (j : ℕ) → j < length s.written → j < s.freed + cap
  within j lt = ground (arith, c.written_count, c.tx_facts, c.fits, c.head_seen, c.head_kept)

  module _ (v : A) (tail hc : ℕ) (e : s.tx ≡ write v tail hc) where
    pub at_tail : index_of s.queue tail ≡ s.sent % cap
    at_tail = index_is tail s.sent (ground (arith, e, c.tx_facts))

    pub room : s.sent < s.saw_head + cap
    room = ground (arith, e, c.tx_facts)

    all_written : length s.written ≡ s.sent
    all_written = ground (arith, e, c.written_count)

    write-filled :
        (j : ℕ)
        → length s.taken ≤ j
        → j < length (s.written ++ (v ∷ []))
        → get_or (set s.queue.buffer (s.sent % cap) (some v)) (j % cap) none
          ≡ nth (s.written ++ (v ∷ [])) j
    write-filled j le lt = elim (ℕ_discrete j s.sent) [
      | yes last ↦ cc (
        ap (λ i. get_or (set s.queue.buffer (s.sent % cap) (some v)) (i % cap) none) last,
        get_or-set_self s.queue.buffer (s.sent % cap) (some v) none (in_range s.sent),
        ap (λ i. nth (s.written ++ (v ∷ [])) i) (last ∙ sym all_written),
        nth-append_last s.written v,
      )
      | no before ↦
          let lt' : j < length s.written =
            omega (arith, all_written, length-append s.written (v ∷ [])) in
          cc (
            get_or-set_ne s.queue.buffer (s.sent % cap) (j % cap) (some v) none (λ same. before (
                index_inj l j s.sent (omega (arith, all_written))
                  (omega (arith, room, c.head_seen, c.taken_count)) (sym same))),
            filled j le lt',
            nth-append s.written v j lt',
          )
    ]

    write-ordered :
        (j : ℕ) → j < length s.taken → get_or s.taken j none ≡ nth (s.written ++ (v ∷ [])) j
    write-ordered j lt = cc (ordered j lt, nth-append s.written v j (taken_lt j lt))

  module _ (head tc : ℕ) (e : s.rx ≡ take head tc) where
    pub at_head : index_of s.queue head ≡ s.freed % cap
    at_head = index_is head s.freed (ground (arith, e, c.rx_facts))

    all_taken : length s.taken ≡ s.freed
    all_taken = ground (arith, e, c.taken_count)

    pub sent_more : s.freed < s.sent
    sent_more = ground (arith, e, c.rx_facts, c.tail_sent)

    -- The receiver reads the value that was written first of those not taken.
    pub taken_value : slot_at s.queue head ≡ nth s.written s.freed
    taken_value =
        ap (λ i. get_or s.queue.buffer i none) at_head
        ∙ filled s.freed (omega (arith, all_taken)) (omega (arith, c.written_count, sent_more))

    take-filled :
        (j : ℕ)
        → length s.taken + 1 ≤ j
        → j < length s.written
        → get_or (set s.queue.buffer (s.freed % cap) none) (j % cap) none ≡ nth s.written j
    take-filled j le lt =
        get_or-set_ne s.queue.buffer (s.freed % cap) (j % cap) none none (λ same. absurd (
          omega (
            arith,
            le,
            all_taken,
            index_inj l s.freed j (omega (arith, all_taken)) (within j lt) same,
          )))
        ∙ filled j (omega arith) lt

    take-ordered :
        (j : ℕ)
        → j < length s.taken + 1
        → get_or (s.taken ++ (slot_at s.queue head ∷ [])) j none ≡ nth s.written j
    take-ordered j lt = elim (ℕ_discrete j s.freed) [
      | yes last ↦ cc (
        ap (λ i. get_or (s.taken ++ (slot_at s.queue head ∷ [])) i none) (last ∙ sym all_taken),
        get_or-append_last s.taken (slot_at s.queue head) none,
        taken_value,
        ap (λ i. nth s.written i) last,
      )
      | no before ↦
          let lt' : j < length s.taken = omega (arith, all_taken) in
          get_or-append_left s.taken (slot_at s.queue head ∷ []) j none lt' ∙ ordered j lt'
    ]

  take-Values :
      (head tc : ℕ)
      → s.rx ≡ take head tc
      → Values cap
          (set s.queue.buffer (s.freed % cap) none)
          (s.taken ++ (slot_at s.queue head ∷ []))
          s.written
  take-Values head tc e = record {
    filled = λ j le lt.
        take-filled head tc e j
          (omega (arith, le, length-append s.taken (slot_at s.queue head ∷ []))) lt;
    ordered = λ j lt.
        take-ordered head tc e j
          (omega (arith, lt, length-append s.taken (slot_at s.queue head ∷ [])));
  }

  kept :
      {T : Type 0} (b : Bool) (x y : T)
      → let p : T × ArrayQueueSpsc A = if b then (x, s.queue) else (y, s.queue) in
        Values cap p.1.buffer s.taken s.written
  kept true x y = h
  kept false x y = h

  abbrev AfterTx : Tx A → Type 0
  AfterTx tx = Values cap ((tx_step tx s.queue).1.buffer) (log_tx tx s).taken (log_tx tx s).written

  pub tx_step-Values : (tx : Tx A) → s.tx ≡ tx → Holds cap (after_tx s)
  unfolding after_tx tx_step
  tx_step-Values (Tx.idle a) e = subst AfterTx (sym e) h
  tx_step-Values (Tx.check v tail hc) e =
      subst AfterTx (sym e)
        (kept (low s.queue.recv == hc) (Tx.idle (some false)) (write v tail (low s.queue.recv)))
  tx_step-Values (write v tail hc) e = subst AfterTx (sym e) (
      rw (at_tail v tail hc e)
        (record { filled = write-filled v tail hc e; ordered = write-ordered v tail hc e }))
  tx_step-Values (store nt hc) e = subst AfterTx (sym e) h

  abbrev AfterRx : Rx A → Type 0
  AfterRx rx = Values cap ((rx_step rx s.queue).1.buffer) (log_rx rx s).taken (log_rx rx s).written

  pub rx_step-Values : (rx : Rx A) → s.rx ≡ rx → Holds cap (after_rx s)
  unfolding after_rx rx_step
  rx_step-Values (Rx.idle a) e = subst AfterRx (sym e) h
  rx_step-Values (Rx.check head) e =
      subst AfterRx (sym e)
        (kept (head == low s.queue.sender) (Rx.idle (some none)) (take head (low s.queue.sender)))
  rx_step-Values (take head tc) e = subst AfterRx (sym e) (
      subst
        (λ i.
          Values cap (set s.queue.buffer i none) (s.taken ++ (slot_at s.queue head ∷ [])) s.written)
        (sym (at_head head tc e)) (take-Values head tc e))
  rx_step-Values (free m pr) e = subst AfterRx (sym e) h
