-- ===== src/Laps.antt =====
-- src/crossbeam/array_queue_spsc.rs and array_queue_mpsc.rs: the position of the `n`-th item of a
-- queue, counted from its beginning. A lap has `lap` positions, of which the first `cap` are used,
-- and a word has `laps` laps.
use native.Mathlib.Nat.{
  div-add-mod, mod-eq_of_lt, mul-add-mod_self_left, mod-lt, mod-add-mod, mod_self, zero-div,
  zero-mod, mul-add-div, div-eq_of_lt,
}
use crossfire_rs.Prelude.{
  ℕ, ◌+◌, ◌-◌, ◌*◌, ◌/◌, ◌%◌, ◌≤◌, ◌<◌, ◌≡◌, ◌≢◌, ◌⊎◌, inl, inr, ◌∙◌, sym, ap, if◌then◌else◌,
  Bool-cases, ltb, arith,
}

-- The position that follows `p`: the next index of the lap, or index 0 of the next lap.
unfoldable pub step_of : ℕ → ℕ → ℕ → ℕ → ℕ
step_of word cap lap p = if ltb (p % lap + 1) cap then p + 1 else (p - p % lap + lap) % word

module _ (cap lap laps : ℕ) where
  unfoldable pub posn : ℕ → ℕ
  posn n = lap * (n / cap % laps) + n % cap

  pub record AreLaps : Type 0 where
    pub used : 0 < cap
    pub room : cap < lap
    pub wraps : 1 < laps

module _ {cap lap laps : ℕ} (l : AreLaps cap lap laps) where
  open l use {used, room, wraps}

  below : (x r : ℕ) → x < laps → r < lap → lap * x + r < lap * laps
  below x r lt small = grind arith

  mul_mod : (x r : ℕ) → r < lap → (lap * x + r) % (lap * laps) ≡ lap * (x % laps) + r
  mul_mod x r small =
      ap (λ (t : ℕ). t % (lap * laps)) (grind (arith, div-add-mod x laps))
      ∙ mul-add-mod_self_left (lap * laps) (x / laps) (lap * (x % laps) + r)
      ∙ mod-eq_of_lt (below (x % laps) r (mod-lt x (omega arith)) small)

  divided : (n q r : ℕ) → n ≡ cap * q + r → r < cap → (n / cap ≡ q) × (n % cap ≡ r)
  divided n q r e small = (
    ap (λ (t : ℕ). t / cap) e ∙ mul-add-div used q r ∙ omega (arith, div-eq_of_lt small),
    ap (λ (t : ℕ). t % cap) e ∙ mul-add-mod_self_left cap q r ∙ mod-eq_of_lt small,
  )

  next_index :
      (n : ℕ)
      → ((n + 1) % cap ≡ (if ltb (n % cap + 1) cap then n % cap + 1 else 0))
        × ((n + 1) / cap ≡ (if ltb (n % cap + 1) cap then n / cap else n / cap + 1))
  next_index n = elim (Bool-cases (ltb (n % cap + 1) cap)) [
    | inl more ↦
        let (q, r) =
          divided (n + 1) (n / cap) (n % cap + 1) (omega (arith, div-add-mod n cap))
            (ground arith) in
        rw more (r, q)
    | inr last ↦
        let (q, r) =
          divided (n + 1) (n / cap + 1) 0 (grind (arith, div-add-mod n cap, mod-lt n used)) used in
        rw last (r, q)
  ]

  pub posn-zero : posn cap lap laps 0 ≡ 0
  unfolding posn
  posn-zero = rw (zero-div cap, zero-mod cap, zero-mod laps) (omega arith)

  pub posn-index : (n : ℕ) → posn cap lap laps n % lap ≡ n % cap
  unfolding posn
  posn-index n =
      mul-add-mod_self_left lap (n / cap % laps) (n % cap)
      ∙ mod-eq_of_lt (omega (arith, mod-lt n used))

  pub posn-lt : (n : ℕ) → posn cap lap laps n < lap * laps
  unfolding posn
  posn-lt n =
      below (n / cap % laps) (n % cap) (mod-lt (n / cap) (omega arith))
        (omega (arith, mod-lt n used))

  turns :
      (k r : ℕ) → r < lap → (lap * (k % laps) + r + lap) % (lap * laps) ≡ lap * ((k + 1) % laps) + r
  turns k r small =
      ap (λ (t : ℕ). t % (lap * laps)) (grind arith)
      ∙ mul_mod (k % laps + 1) r small
      ∙ ap (λ (t : ℕ). lap * t + r) (mod-add-mod k laps 1)

  pub step_of-posn :
      (n : ℕ) → step_of (lap * laps) cap lap (posn cap lap laps n) ≡ posn cap lap laps (n + 1)
  unfolding step_of posn
  step_of-posn n = ground (arith, posn-index n, next_index n, turns (n / cap) 0 (omega arith))

  next_turn : (q : ℕ) → (q + 1) % laps ≢ q % laps
  next_turn q e = elim (Bool-cases (ltb (q % laps + 1) laps)) [
    | inl more ↦
        omega (
          arith,
          e,
          mod-add-mod q laps 1,
          mod-eq_of_lt {n = q % laps + 1} {m = laps} (ground arith),
        )
    | inr last ↦
        let whole : q % laps + 1 ≡ laps = ground (arith, mod-lt q {m = laps} (omega arith)) in
        omega (arith, e, mod-add-mod q laps 1, ap (λ (t : ℕ). t % laps) whole, mod_self laps)
  ]

  product_le : (q q' : ℕ) → q < q' → cap * q + cap ≤ cap * q'
  product_le q q' lt = grind arith

  product_far : (q q' : ℕ) → q + 1 < q' → cap * q + cap + cap ≤ cap * q'
  product_far q q' lt = omega (arith, product_le q (q + 1) (omega arith), product_le (q + 1) q' lt)

  pub near_quotient :
      (a b : ℕ) → a ≤ b → b ≤ a + cap → (b / cap ≡ a / cap) ⊎ (b / cap ≡ a / cap + 1)
  near_quotient a b le near = ground (
    arith,
    div-add-mod a cap,
    div-add-mod b cap,
    mod-lt a used,
    product_le (b / cap) (a / cap),
    product_far (a / cap) (b / cap),
  )

  product_inj : (x y : ℕ) → lap * x ≡ lap * y → x ≡ y
  product_inj x y e = grind arith

  same_turn :
      (a b : ℕ)
      → a % cap ≡ b % cap
      → posn cap lap laps a ≡ posn cap lap laps b
      → a / cap % laps ≡ b / cap % laps
  unfolding posn
  same_turn a b same e = product_inj (a / cap % laps) (b / cap % laps) (omega (arith, same, e))

  -- Within a capacity of each other, two items have the same position only if they are the same.
  pub posn_inj : (a b : ℕ) → a ≤ b → b ≤ a + cap → posn cap lap laps a ≡ posn cap lap laps b → a ≡ b
  posn_inj a b le near e =
      let same : a % cap ≡ b % cap =
        sym (posn-index a) ∙ ap (λ (t : ℕ). t % lap) e ∙ posn-index b in
      elim (near_quotient a b le near) [
        | inl q ↦ omega (arith, div-add-mod a cap, div-add-mod b cap, ap (λ (t : ℕ). cap * t) q)
        | inr q ↦
            absurd
              (next_turn (a / cap) (ap (λ (t : ℕ). t % laps) (sym q) ∙ sym (same_turn a b same e)))
      ]

  -- The position of the item `cap` later is one lap on.
  pub posn-cap : (n : ℕ) → posn cap lap laps (n + cap) ≡ (posn cap lap laps n + lap) % (lap * laps)
  unfolding posn
  posn-cap n =
      let (q, r) =
        divided (n + cap) (n / cap + 1) (n % cap) (grind (arith, div-add-mod n cap))
          (mod-lt n used) in
      rw (q, r) (sym (turns (n / cap) (n % cap) (omega (arith, mod-lt n used))))

  -- Fewer than a capacity apart, two items have the same index only if they are the same.
  pub index_inj : (a b : ℕ) → a ≤ b → b < a + cap → a % cap ≡ b % cap → a ≡ b
  index_inj a b le near e = elim (near_quotient a b le (omega arith)) [
    | inl q ↦ omega (arith, div-add-mod a cap, div-add-mod b cap, ap (λ (t : ℕ). cap * t) q)
    | inr q ↦
        absurd (grind (arith, div-add-mod a cap, div-add-mod b cap, ap (λ (t : ℕ). cap * t) q))
  ]

  -- Within a capacity, the position one lap on is that of the item `cap` later, and of no other.
  pub posn_lap :
      (a b : ℕ)
      → a ≤ b
      → b ≤ a + cap
      → (posn cap lap laps a + lap) % (lap * laps) ≡ posn cap lap laps b
      → b ≡ a + cap
  posn_lap a b le near e = posn_inj b (a + cap) near (omega arith) (sym (posn-cap a ∙ e))
