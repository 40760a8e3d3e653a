-- ===== src/ArrayQueue/Positions.antt =====
-- src/crossbeam/array_queue.rs: the positions that follow a position `p`, laps and the wrap of a
-- 64-bit word included. A lap has `lap` positions, of which the first `cap` are used.
use Prim.Native.Nat.{◌/◌}
use native.Mathlib.Nat.{div-add-mod, mod-eq_of_lt, mul-mod_right, add-mul-mod_self_left}
use native.Mathlib.Decide.{dec_lt}
use crossfire_rs.Prelude.{
  ℕ, ◌+◌, ◌-◌, ◌*◌, ◌%◌, ◌^◌, ◌≤◌, ◌<◌, ◌≡◌, ◌∙◌, sym, ap, refl, if◌then◌else◌, ltb, add64, arith,
}

-- Index 0 of the lap after that of `p`.
unfoldable pub turn : ℕ → ℕ → ℕ
turn lap p = add64 (p - p % lap) lap

-- The position `j` places after `p`, for `j` up to the capacity.
unfoldable pub pos_at : ℕ → ℕ → ℕ → ℕ → ℕ
unfolding turn
pos_at cap lap p j = if ltb (p % lap + j) cap then p + j else turn lap p + (p % lap + j - cap)

-- The lap divides the word, and has room for the capacity.
pub record IsLap (cap lap : ℕ) : Type 0 where
  pub laps : ℕ
  pub word : lap * laps ≡ 2 ^ 64
  pub room : cap < lap
  pub wraps : 1 < laps

pub record IsPos (cap lap p : ℕ) : Type 0 where
  pub small : p < 2 ^ 64
  pub used : p % lap < cap

residue : (lap t k j : ℕ) → j < lap → t ≡ lap * k → (t + j) % lap ≡ j
residue lap t k j lt e =
    ap (λ (x : ℕ). x % lap) (omega arith) ∙ add-mul-mod_self_left j lap k ∙ mod-eq_of_lt lt

module _ {cap lap : ℕ} (l : IsLap cap lap) {p : ℕ} (h : IsPos cap lap p) where
  open l use {laps, word, room, wraps}

  lap_pos : 0 < lap
  lap_pos = omega arith

  split : lap * (p / lap) + p % lap ≡ p
  split = div-add-mod p lap

  lap_lt : p / lap < laps
  lap_lt = grind (arith, split, word, h.small)

  lap_step : (k : ℕ) → k < laps → lap * k + lap ≤ 2 ^ 64
  lap_step k lt = grind (arith, word)

  multiple :
      (k : ℕ) → k ≤ laps → ((lap * k) % 2 ^ 64 % lap ≡ 0) × ((lap * k) % 2 ^ 64 + lap ≤ 2 ^ 64)
  multiple k le = elim (dec_lt k laps) [
    | yes lt ↦
        let small : lap * k < 2 ^ 64 = omega (arith, lap_step k lt) in
        (rw (mod-eq_of_lt small) (mul-mod_right lap k), rw (mod-eq_of_lt small) (lap_step k lt))
    | no ge ↦
        let whole : lap * k ≡ 2 ^ 64 = ap (λ (t : ℕ). lap * t) (omega arith) ∙ word in
        (rw whole (omega arith), rw whole (omega (arith, lap_step (p / lap) lap_lt)))
  ]

  turn_start : p - p % lap + lap ≡ lap * (p / lap + 1)
  turn_start = grind (arith, split)

  -- The next lap starts at index 0, and has room before the end of the word.
  turn_lem : (turn lap p % lap ≡ 0) × (turn lap p + lap ≤ 2 ^ 64)
  unfolding turn
  turn_lem = rw turn_start (multiple (p / lap + 1) (omega (arith, lap_lt)))

  index_in_turn : (j : ℕ) → j < lap → (turn lap p + j) % lap ≡ j
  index_in_turn j lt =
      residue lap (turn lap p) (turn lap p / lap) j lt
        (omega (arith, div-add-mod (turn lap p) lap, turn_lem))

  index_before : (j : ℕ) → p % lap + j < lap → (p + j) % lap ≡ p % lap + j
  index_before j lt =
      ap (λ t. t % lap) (omega (arith, split))
      ∙ residue lap (lap * (p / lap)) (p / lap) (p % lap + j) lt refl

  -- The index of a later position goes round at the capacity.
  pub index-pos_at :
      (j : ℕ)
      → j ≤ cap
      → pos_at cap lap p j % lap
        ≡ (if ltb (p % lap + j) cap then p % lap + j else p % lap + j - cap)
  unfolding pos_at
  index-pos_at j le = ground (arith, index_in_turn (p % lap + j - cap), index_before j, h.used)

  pub pos_at-IsPos : (j : ℕ) → j ≤ cap → IsPos cap lap (pos_at cap lap p j)
  unfolding pos_at
  pos_at-IsPos j le = record {
    small = ground (arith, h.used, turn_lem, split, lap_step (p / lap) lap_lt);
    used = rw (index-pos_at j le) (ground (arith, h.used));
  }

  -- Positions that follow a position are those that follow its successor.
  pub pos_at-suc :
      (j : ℕ) → j < cap → pos_at cap lap (pos_at cap lap p 1) j ≡ pos_at cap lap p (j + 1)
  unfolding pos_at
  pos_at-suc j lt = ground (arith, index-pos_at 1 (omega arith), h.used, turn_lem)

  -- The position `cap` places on is the same index of the next lap.
  pub pos_at-cap : pos_at cap lap p cap ≡ add64 p lap
  unfolding pos_at
  pos_at-cap = ground (arith, h.used, turn_lem)

  -- No position in use is the last of the word, so that adding 1 to it does not wrap.
  pub pos_at-no_wrap : (j : ℕ) → j ≤ cap → pos_at cap lap p j + 1 < 2 ^ 64
  unfolding pos_at
  pos_at-no_wrap j le = ground (arith, h.used, turn_lem, split, lap_step (p / lap) lap_lt)

  pub lap_le : lap ≤ 2 ^ 63
  lap_le = omega (arith, lap_step 1 wraps)

  -- One lap on is the same index.
  pub index-lap : add64 p lap % lap ≡ p % lap
  index-lap = ap (λ (t : ℕ). t % lap) (sym pos_at-cap) ∙ ground (arith, index-pos_at cap, h.used)

  pub pos_at-zero : pos_at cap lap p 0 ≡ p
  unfolding pos_at
  pos_at-zero = ground (arith, h.used)
