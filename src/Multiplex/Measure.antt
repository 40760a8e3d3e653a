-- ===== src/Multiplex/Measure.antt =====
-- src/select/multiplex.rs: how long a channel may wait for its turn.
use native.Mathlib.Decide.{ℕ_discrete}
use crossfire_rs.Prelude.{
  ℕ, ◌+◌, ◌-◌, ◌*◌, ◌≤◌, ◌<◌, ◌≡◌, ◌≢◌, ap, ◌&&◌, if◌then◌else◌, ltb, ◌==◌, arith,
}
use crossfire_rs.Multiplex.Turns.{dist}

-- How many receives may come before one from the channel `j`, where weights are at most `W`.
abbrev pub measure : ℕ → ℕ → ℕ → ℕ → ℕ → ℕ
measure W len j last count =
    if (last == j) && ltb 0 count then 0 else dist len last j * (W + 1) + count

closer_less : (d e W c c' : ℕ) → c' ≤ W → d * (W + 1) + c' < (d + 1 + e) * (W + 1) + c
closer_less d e W c c' le = omega arith

pub measure_ne :
    (W len j last count : ℕ)
    → (last ≡ j → count ≡ 0)
    → measure W len j last count ≡ dist len last j * (W + 1) + count
measure_ne W len j last count fresh = elim (ℕ_discrete last j) [
  | yes e ↦ let z = fresh e in ground arith
  | no ne ↦ ground arith
]

-- A distance is a part of the whole round.
product_le : (d e W : ℕ) → d * (W + 1) ≤ (d + e) * (W + 1)
product_le d e W = omega arith

pub measure_le :
    (W len j last count : ℕ) → j < len → count ≤ W → measure W len j last count ≤ len * (W + 1) + W
measure_le W len j last count lt le =
    let part = product_le (dist len last j) (len - dist len last j) W in
    let d : dist len last j + (len - dist len last j) ≡ len = ground arith in
    let up = ap (λ k. k * (W + 1)) d in
    let most : dist len last j * (W + 1) + count ≤ len * (W + 1) + W = omega arith in ground arith

pub measure_less :
    (W len j last count last' count' : ℕ)
    → (last ≡ j → count ≡ 0)
    → last' ≢ j
    → dist len last' j < dist len last j
    → count' ≤ W
    → measure W len j last' count' < measure W len j last count
measure_less W len j last count last' count' fresh ne closer le =
    let a = measure_ne W len j last count fresh in
    let b = measure_ne W len j last' count' (λ e. absurd (ne e)) in
    let d : dist len last j ≡ dist len last' j + 1 + (dist len last j - dist len last' j - 1) =
      omega arith in
    let less =
      closer_less (dist len last' j) (dist len last j - dist len last' j - 1) W count count' le in
    let up = ap (λ k. k * (W + 1) + count) d in omega arith
