-- ===== src/ArrayQueue/Fresh.antt =====
-- src/crossbeam/array_queue.rs: a new queue is empty, and its `one_lap` is a power of two.
use native.Mathlib.Nat.{mod-eq_of_lt}
use crossfire_rs.Prelude.{
  ℕ, zero, suc, ◌+◌, ◌^◌, ◌<◌, ◌≡◌, refl, sym, ◌∙◌, ap, none, some, [], length, get_or, arith,
}
use crossfire_rs.ArrayQueue.{Slot, ArrayQueue, slot_at, no_slot, next_power_of_two, init_slots, new}
use crossfire_rs.ArrayQueue.Positions.{IsLap, IsPos, pos_at, pos_at-zero}
use crossfire_rs.ArrayQueue.Powers.{next_power_of_two-IsPower}
use crossfire_rs.ArrayQueue.Rep.{Rep}

pub length-init_slots : (A : Type 0) (n i : ℕ) → length (init_slots {A = A} n i) ≡ n
unfolding init_slots
length-init_slots A zero i = refl
length-init_slots A (suc n) i = ap suc (length-init_slots A n (i + 1))

get_or-init_slots :
    {A : Type 0} (n i j : ℕ) (d : Slot A)
    → j < n
    → get_or (init_slots n i) j d ≡ record { stamp = i + j; value = none }
unfolding init_slots
get_or-init_slots zero i j d h = absurd (omega arith)
get_or-init_slots (suc n) i zero d h = ap (λ k. record { stamp = k; value = none }) (omega arith)
get_or-init_slots (suc n) i (suc j) d h =
    get_or-init_slots n (i + 1) j d (omega arith)
    ∙ ap (λ k. record { stamp = k; value = none }) (omega arith)

-- `new cap`, for a capacity that is not 0.
abbrev pub fresh : (A : Type 0) → ℕ → ArrayQueue A
fresh A cap = record {
  head = 0;
  tail = 0;
  buffer = init_slots cap 0;
  one_lap = next_power_of_two (cap + 1);
}

module _ (A : Type 0) (cap : ℕ) (pos : 0 < cap) (small : cap < 2 ^ 63) where
  lap : IsLap cap (next_power_of_two (cap + 1))
  lap =
      let f = next_power_of_two-IsPower 63 (cap + 1) (omega arith) in
      record { laps = f.laps; word = f.word; wraps = f.wraps; room = omega (arith, f.above) }

  start : IsPos cap (next_power_of_two (cap + 1)) 0
  start = record { small = omega arith; used = omega arith }

  place : (j : ℕ) → j < cap → pos_at cap (next_power_of_two (cap + 1)) 0 j ≡ j
  unfolding pos_at
  place j h = ground arith

  free_slot : (j : ℕ) → j < cap → (slot_at (fresh A cap) j).stamp ≡ j
  free_slot j h =
      ap (λ i. (get_or (init_slots {A = A} cap 0) i no_slot).stamp)
        (mod-eq_of_lt (omega (arith, lap.room)))
      ∙ ap (λ (s : Slot A). s.stamp) (get_or-init_slots cap 0 j no_slot h)
      ∙ omega arith

  fresh-Rep : Rep cap (fresh A cap) []
  fresh-Rep = record {
    sized = length-init_slots A cap 0;
    lap = lap;
    start = start;
    fits = omega arith;
    tail_at = sym (pos_at-zero lap start);
    written = λ j h. absurd (omega arith);
    values = λ j h. absurd (omega arith);
    free = λ j le h.
        ap (λ t. (slot_at (fresh A cap) t).stamp) (place j h) ∙ free_slot j h ∙ sym (place j h);
  }

  -- A new queue is empty, for every capacity from 1 to 2⁶³ - 1: `one_lap` is a power of two above
  -- the capacity, and the word holds at least two laps.
  pub new-Rep : (new {A = A} cap ≡ some (fresh A cap)) × Rep cap (fresh A cap) []
  unfolding new
  new-Rep = (ground arith, fresh-Rep)
