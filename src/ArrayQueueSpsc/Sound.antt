-- ===== src/ArrayQueueSpsc/Sound.antt =====
-- src/crossbeam/array_queue_spsc.rs: the counts and the slots in every state that a sender and a receiver
-- reach, from a new queue on.
use mathlib.Core.Path.{subst}
use crossfire_rs.Prelude.{ℕ, zero, suc, ◌+◌, ◌*◌, ◌^◌, ◌<◌, ◌≡◌, refl, ap, some, length, arith}
use crossfire_rs.ArrayQueue.{next_power_of_two}
use crossfire_rs.ArrayQueue.Powers.{next_power_of_two-IsPower}
use crossfire_rs.Laps.{AreLaps, posn-zero}
use crossfire_rs.ArrayQueueSpsc.{ArrayQueueSpsc, no_values, new}
use crossfire_rs.ArrayQueueSpsc.System.{
  System, start, after_push, after_pop, Step, sender_calls, sender_moves, receiver_calls,
  receiver_moves, Reach, begin, next,
}
use crossfire_rs.ArrayQueueSpsc.Inv.{Counts, Holds}
use crossfire_rs.ArrayQueueSpsc.Keep.{push-Counts, pop-Counts, tx_step-Counts, rx_step-Counts}
use crossfire_rs.ArrayQueueSpsc.Values.{tx_step-Values, rx_step-Values}

abbrev fresh : (A : Type 0) → ℕ → ArrayQueueSpsc A
fresh A cap = record {
  sender = 0;
  recv = 0;
  buffer = no_values cap;
  one_lap = next_power_of_two (cap + 1);
}

length-no_values : (A : Type 0) (n : ℕ) → length (no_values {A = A} n) ≡ n
unfolding no_values
length-no_values A zero = refl
length-no_values A (suc n) = ap suc (length-no_values A n)

module _ {A : Type 0} where
  new_bounds : (cap : ℕ) (q : ArrayQueueSpsc A) → new cap ≡ some q → (0 < cap) × (cap < 2 ^ 31)
  unfolding new
  new_bounds cap q e = ground arith

  new_lem : (cap : ℕ) (q : ArrayQueueSpsc A) → new cap ≡ some q → fresh A cap ≡ q
  unfolding new
  new_lem cap q e = ground arith

  pub Reach-bounds : {cap : ℕ} {s : System A} → Reach cap s → (0 < cap) × (cap < 2 ^ 31)
  Reach-bounds {cap} (begin q e) = new_bounds cap q e
  Reach-bounds (next r st) = Reach-bounds r

module _ (cap : ℕ) (pos : 0 < cap) (bounded : cap < 2 ^ 31) where
  abbrev lap : ℕ
  lap = next_power_of_two (cap + 1)

  abbrev laps : ℕ
  laps = (next_power_of_two-IsPower 31 (cap + 1) (omega arith)).laps

  pub are_laps : AreLaps cap lap laps
  are_laps =
      let f = next_power_of_two-IsPower 31 (cap + 1) (omega arith) in
      record { used = pos; room = omega (arith, f.above); wraps = f.wraps }

  pub word : lap * laps ≡ 2 ^ 32
  word = (next_power_of_two-IsPower 31 (cap + 1) (omega arith)).word

  module _ {A : Type 0} where
    start-Counts : Counts cap lap laps (start (fresh A cap))
    start-Counts = ground (arith, posn-zero are_laps, length-no_values A cap)

    start-Holds : Holds cap (start (fresh A cap))
    start-Holds = record {
      filled = λ j le lt. absurd (omega arith);
      ordered = λ j lt. absurd (omega arith);
    }

    abbrev Sound : System A → Type 0
    Sound s = Counts cap lap laps s × Holds cap s

    Step-Sound : {s t : System A} → Step s t → Sound s → Sound t
    unfolding after_push after_pop
    Step-Sound {s} (sender_calls answer v e) (c, h) = (push-Counts are_laps word c v answer e, h)
    Step-Sound {s} sender_moves (c, h) =
        (tx_step-Counts are_laps word c s.tx refl, tx_step-Values are_laps c h s.tx refl)
    Step-Sound {s} (receiver_calls answer spin e) (c, h) =
        (pop-Counts are_laps word c spin answer e, h)
    Step-Sound {s} receiver_moves (c, h) =
        (rx_step-Counts are_laps word c s.rx refl, rx_step-Values are_laps c h s.rx refl)

    pub Reach-Sound : {s : System A} → Reach cap s → Sound s
    Reach-Sound (begin q e) =
        subst (λ k. Sound (start k)) (new_lem cap q e) (start-Counts, start-Holds)
    Reach-Sound (next r st) = Step-Sound st (Reach-Sound r)

module _ {A : Type 0} {cap : ℕ} {s : System A} (r : Reach cap s) where
  pub sound :
      (lap : ℕ) × (laps : ℕ) × AreLaps cap lap laps
      × (lap * laps ≡ 2 ^ 32)
      × Counts cap lap laps s
      × Holds cap s
  sound =
      let (pos, bounded) = Reach-bounds r in
      let (c, h) = Reach-Sound cap pos bounded r in
      (
        lap cap pos bounded,
        laps cap pos bounded,
        are_laps cap pos bounded,
        word cap pos bounded,
        c,
        h,
      )
