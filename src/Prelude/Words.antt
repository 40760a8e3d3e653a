-- ===== src/Prelude/Words.antt =====
-- Tests on numbers, the conditional, and the arithmetic of machine words.
use Prim.Native.Nat.{ℕ, ◌+◌, ◌-◌, ◌%◌, ◌^◌, compare, Ordering}
use mathlib.Core.Path.{◌≡◌, refl}
use mathlib.Core.Logic.{◌↔◌, ◌⊎◌, inl, inr}
use mathlib.Core.Bool.{Bool, true, false}
use native.Mathlib.Omega.{arith}

-- The tests compute to `compare`, which the tactics read.
infix 50 ◌==◌
abbrev pub ◌==◌ : ℕ → ℕ → Bool
m == n = elim (compare m n) [ Ordering.eq ↦ true | _ ↦ false ]

abbrev pub ltb : ℕ → ℕ → Bool
ltb m n = elim (compare m n) [ Ordering.lt ↦ true | _ ↦ false ]

abbrev pub leb : ℕ → ℕ → Bool
leb m n = elim (compare m n) [ Ordering.gt ↦ false | _ ↦ true ]

infix 1 if◌then◌else◌
abbrev pub if◌then◌else◌ {ℓ} : {A : Type ℓ} → Bool → A → A → A
if true then x else y = x
if false then x else y = y

-- `wrapping_add` of a `u16`, a `u32` and a 64-bit `usize`.
abbrev pub add16 : ℕ → ℕ → ℕ
add16 m n = (m + n) % 2 ^ 16

abbrev pub add32 : ℕ → ℕ → ℕ
add32 m n = (m + n) % 2 ^ 32

abbrev pub add64 : ℕ → ℕ → ℕ
add64 m n = (m + n) % 2 ^ 64

-- `wrapping_sub` of a `u32` and a 64-bit `usize`: the truncated `-` of ℕ needs the modulus first.
abbrev pub sub32 : ℕ → ℕ → ℕ
sub32 m n = (m + 2 ^ 32 - n) % 2 ^ 32

abbrev pub sub64 : ℕ → ℕ → ℕ
sub64 m n = (m + 2 ^ 64 - n) % 2 ^ 64

pub Bool-cases : (b : Bool) → (b ≡ true) ⊎ (b ≡ false)
Bool-cases true = inl refl
Bool-cases false = inr refl

pub ==_iff : (m n : ℕ) → ((m == n) ≡ true) ↔ (m ≡ n)
==_iff m n = ground arith
