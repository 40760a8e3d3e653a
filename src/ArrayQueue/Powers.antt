-- ===== src/ArrayQueue/Powers.antt =====
-- src/crossbeam/array_queue.rs: `next_power_of_two` of a number up to half of the word is a power of
-- two that divides the word at least twice.
use native.Mathlib.Nat.{pow-suc, pow-succ', mul_assoc}
use crossfire_rs.Prelude.{
  ℕ, zero, suc, ◌+◌, ◌*◌, ◌^◌, ◌≤◌, ◌<◌, ◌≡◌, sym, ◌∙◌, ap, true, Bool-cases, inl, inr, leb, arith,
}
use crossfire_rs.ArrayQueue.{double_until, next_power_of_two}

-- A power of two from `n` to half of the word, which has `suc top` bits.
pub record IsPower (top n r : ℕ) : Type 0 where
  pub laps : ℕ
  pub word : r * laps ≡ 2 ^ suc top
  pub wraps : 1 < laps
  pub above : n ≤ r

one-lt-pow : (e : ℕ) → 1 < 2 ^ suc e
one-lt-pow zero = omega arith
one-lt-pow (suc e) = grind (arith, pow-suc, one-lt-pow e)

le→leb : (n p : ℕ) → n ≤ p → leb n p ≡ true
le→leb n p h = ground arith

double_until-IsPower :
    (top fuel p n e : ℕ)
    → 0 < p
    → n ≤ p + fuel
    → n ≤ 2 ^ top
    → p * 2 ^ suc e ≡ 2 ^ suc top
    → IsPower top n (double_until fuel p n)
unfolding double_until
double_until-IsPower top zero p n e pos enough small word = record {
  laps = 2 ^ suc e;
  word = word;
  wraps = one-lt-pow e;
  above = omega arith;
}
double_until-IsPower top (suc fuel) p n zero pos enough small word =
    let half : p ≡ 2 ^ top = omega (arith, word, pow-suc 2 top) in
    rw (le→leb n p (omega arith), double_until)
      (record { laps = 2; word = omega (arith, word); wraps = omega arith; above = omega arith })
double_until-IsPower top (suc fuel) p n (suc e) pos enough small word =
    elim (Bool-cases (leb n p)) [
      | inl stop ↦
          rw (stop, double_until)
            (record {
              laps = 2 ^ suc (suc e);
              word = word;
              wraps = one-lt-pow (suc e);
              above = ground arith;
            })
      | inr go ↦
          rw (go, double_until)
            (double_until-IsPower top fuel (p * 2) n e (omega arith) (ground arith) small
              (mul_assoc p 2 (2 ^ suc e) ∙ (ap (λ k. p * k) (sym (pow-succ' 2 (suc e))) ∙ word)))
    ]

pub next_power_of_two-IsPower : (top n : ℕ) → n ≤ 2 ^ top → IsPower top n (next_power_of_two n)
unfolding next_power_of_two
next_power_of_two-IsPower top n small =
    double_until-IsPower top n 1 n top (omega arith) (omega arith) small (omega arith)
