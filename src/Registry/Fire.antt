-- ===== src/Registry/Fire.antt =====
-- src/waker_registry.rs: which waiter a fire wakes.
use crossfire_rs.Prelude.{
  ℕ, zero, suc, ◌≡◌, ◌⊎◌, inl, inr, ◌≤◌, ◌<◌, refl, ◌∙◌, ap, Bool, true, false, Option, none, some,
  List, [], ◌∷◌, ◌++◌, if◌then◌else◌, ◌==◌, length, length-append, sub32, arith,
}
use mathlib.Core.Path.{fun_ext}
use crossfire_rs.Waker.{WakerInner, WakeResult, wake_by_ref}
use crossfire_rs.Waker.Laws.{settle, set_state, wake_total}
use crossfire_rs.Registry.{
  has_select, has_waker, wake_selectors, Registry, World, is_nil, check_select, popped, put,
  fire_loop, fire,
}

put_at :
    (i : ℕ) (x : WakerInner) (w : World) (j : ℕ)
    → w.wakers i ≡ some x
    → (if j == i then some x else w.wakers j) ≡ w.wakers j
put_at i x w j e = grind (arith, e)

-- Storing what a name already has changes nothing.
put-same : (i : ℕ) (x : WakerInner) (w : World) → w.wakers i ≡ some x → put i x w ≡ w
put-same i x w e =
    ap (λ (f : ℕ → Option WakerInner). record w { wakers = f }) (fun_ext (λ j. put_at i x w j e))

-- The wakers of a list are dropped, or woken or closed before, with sequence numbers below `last`.
abbrev pub IsPassed : World → ℕ → List ℕ → Type 0
IsPassed w last [] = Unit
IsPassed w last (i ∷ q) =
    ((w.wakers i ≡ none)
      ⊎ ((x : WakerInner) × (w.wakers i ≡ some x) × (3 ≤ x.state) × (x.seq < last)))
    × IsPassed w last q

snoc-is_nil : (xs ys : List ℕ) (j : ℕ) → is_nil (xs ++ (j ∷ ys)) ≡ false
snoc-is_nil [] ys j = refl
snoc-is_nil (_ ∷ xs) ys j = refl

module _ (flags : ℕ → List Bool) (w : World) (r : Registry) (last : ℕ) (pos : 0 < r.state) where
  abbrev pub settled : ℕ → List Bool
  settled i = settle (flags i)

  abbrev at : List ℕ → Registry
  at q = record r { queue = q }

  loop_dead :
      (fuel i : ℕ) (q : List ℕ)
      → w.wakers i ≡ none
      → is_nil q ≡ false
      → fire_loop (suc fuel) settled last w (at (i ∷ q))
        ≡ fire_loop (suc fuel) settled last w (at q)
  unfolding fire_loop
  loop_dead fuel i q e ne = ground arith

  loop_pass :
      (fuel i : ℕ) (x : WakerInner) (q : List ℕ)
      → w.wakers i ≡ some x
      → 3 ≤ x.state
      → x.seq < last
      → is_nil q ≡ false
      → fire_loop (suc fuel) settled last w (at (i ∷ q)) ≡ fire_loop fuel settled last w (at q)
  unfolding fire_loop
  loop_pass fuel i x q e done lt ne = ground (arith, wake_total (flags i) x, put-same i x w e)

  loop_wake :
      (fuel j : ℕ) (x : WakerInner) (q : List ℕ)
      → w.wakers j ≡ some x
      → x.state ≡ 1
      → fire_loop (suc fuel) settled last w (at (j ∷ q))
        ≡ some (WakeResult.woken, put j (wake_by_ref (set_state 3 x)) w, popped q (at (j ∷ q)))
  unfolding fire_loop
  loop_wake fuel j x q e waits = ground (arith, wake_total (flags j) x)

  module _ (j : ℕ) (x : WakerInner) (ys : List ℕ) (there : w.wakers j ≡ some x)
      (waits : x.state ≡ 1) where
    -- The waiter is woken, and stands in the queue no longer.
    abbrev pub woken_one : Option (WakeResult × World × Registry)
    woken_one =
        some (WakeResult.woken, put j (wake_by_ref (set_state 3 x)) w, popped ys (at (j ∷ ys)))

    loop_passes :
        (xs : List ℕ) (fuel : ℕ)
        → length xs < fuel
        → IsPassed w last xs
        → fire_loop fuel settled last w (at (xs ++ (j ∷ ys))) ≡ woken_one
    loop_passes xs zero lt p = absurd (omega arith)
    loop_passes [] (suc fuel) lt p = loop_wake fuel j x ys there waits
    loop_passes (i ∷ xs) (suc fuel) lt (inl e, p) =
        loop_dead fuel i (xs ++ (j ∷ ys)) e (snoc-is_nil xs ys j)
        ∙ loop_passes xs (suc fuel) (omega arith) p
    loop_passes (i ∷ xs) (suc fuel) lt (inr (y, e, done, low), p) =
        loop_pass fuel i y (xs ++ (j ∷ ys)) e done low (snoc-is_nil xs ys j)
        ∙ loop_passes xs fuel (omega arith) p

-- The selectors are woken first, which makes `w` of `w₀`.
module _ (flags : ℕ → List Bool) (w₀ w : World) (r : Registry)
    (selected : (if has_select r.state
        then wake_selectors (λ k. settle (flags k)) r.selectors w₀
        else some w₀)
      ≡ some w)
    (flag : has_waker r.state ≡ true) where
  first_dead :
      (i : ℕ) (q : List ℕ)
      → w.wakers i ≡ none
      → is_nil q ≡ false
      → fire (λ k. settle (flags k)) w₀ (record r { queue = i ∷ q })
        ≡ fire (λ k. settle (flags k)) w₀ (record r { queue = q })
  unfolding fire
  first_dead i q e ne = ground (arith, selected)

  first_pass :
      (i : ℕ) (x : WakerInner) (q : List ℕ)
      → w.wakers i ≡ some x
      → 3 ≤ x.state
      → is_nil q ≡ false
      → fire (λ k. settle (flags k)) w₀ (record r { queue = i ∷ q })
        ≡ fire_loop
            (suc (length q))
            (λ k. settle (flags k))
            (sub32 r.seq 1)
            w
            (record r { queue = q })
  unfolding fire
  first_pass i x q e done ne = ground (arith, selected, wake_total (flags i) x, put-same i x w e)

  first_wake :
      (j : ℕ) (x : WakerInner) (q : List ℕ)
      → w.wakers j ≡ some x
      → x.state ≡ 1
      → fire (λ k. settle (flags k)) w₀ (record r { queue = j ∷ q })
        ≡ some (
          WakeResult.woken,
          put j (wake_by_ref (set_state 3 x)) w,
          popped q (record r { queue = j ∷ q }),
        )
  unfolding fire
  first_wake j x q e waits = ground (arith, selected, wake_total (flags j) x)

  -- A fire on a multi registry whose state announces a waker, with no other call meanwhile, wakes
  -- the waiter that stands first of those that still wait, once its selectors have been woken:
  -- the wakers before it, which are dropped by their owners, or were woken or closed and have a
  -- sequence number below that of the registry less one, are taken from the queue and left alone,
  -- and those behind it stay.
  pub first_waiter_woken :
      (xs ys : List ℕ) (j : ℕ) (x : WakerInner)
      → IsPassed w (sub32 r.seq 1) xs
      → w.wakers j ≡ some x
      → x.state ≡ 1
      → fire (λ k. settle (flags k)) w₀ (record r { queue = xs ++ (j ∷ ys) })
        ≡ some (
          WakeResult.woken,
          put j (wake_by_ref (set_state 3 x)) w,
          record r { queue = ys; state = if is_nil ys then check_select r else r.state },
        )
  first_waiter_woken [] ys j x p there waits = first_wake j x ys there waits
  first_waiter_woken (i ∷ xs) ys j x (inl e, p) there waits =
      first_dead i (xs ++ (j ∷ ys)) e (snoc-is_nil xs ys j)
      ∙ first_waiter_woken xs ys j x p there waits
  first_waiter_woken (i ∷ xs) ys j x (inr (y, e, done, low), p) there waits =
      first_pass i y (xs ++ (j ∷ ys)) e done (snoc-is_nil xs ys j)
      ∙ loop_passes flags w r (sub32 r.seq 1) (ground arith) j x ys there waits xs
          (suc (length (xs ++ (j ∷ ys)))) (omega (arith, length-append xs (j ∷ ys))) p
