-- ===== src/Registry/Close.antt =====
-- src/waker_registry.rs: closing one side of a channel leaves no waiter of that side asleep.
use mathlib.Core.Path.{subst}
use crossfire_rs.Prelude.{
  ℕ, ◌≡◌, ◌⊎◌, inl, inr, ◌≤◌, refl, sym, ◌∙◌, ap, Bool, true, false, Option, none, some, List, [],
  ◌∷◌, if◌then◌else◌, ◌==◌, ltb, arith,
}
use crossfire_rs.Waker.{WakerInner, wake_by_ref}
use crossfire_rs.Waker.Laws.{settle, set_state, close_outcome, close_wake_total}
use crossfire_rs.Registry.{Registry, World, put, close_queue, close, wake_selectors}

-- The waiter is gone, or was woken or closed.
abbrev pub IsReleased : Option WakerInner → Type 0
IsReleased none = Unit
IsReleased (some x) = 2 ≤ x.state

abbrev pub IsIn : ℕ → List ℕ → Type 0
IsIn j [] = ⊥
IsIn j (i ∷ q) = (j ≡ i) ⊎ IsIn j q

found : (o : Option WakerInner) → (o ≡ none) ⊎ ((x : WakerInner) × (o ≡ some x))
found none = inl refl
found (some x) = inr (x, refl)

if-IsReleased :
    (b : Bool) (o p : Option WakerInner)
    → IsReleased o
    → (b ≡ false → IsReleased p)
    → IsReleased (if b then o else p)
if-IsReleased true o p h k = h
if-IsReleased false o p h k = k refl

outcome_late :
    (b : Bool) (x : WakerInner)
    → ltb 1 x.state ≡ b
    → let c : Bool × WakerInner = if b then (false, x) else (true, wake_by_ref (set_state 4 x)) in
      2 ≤ c.1.state
unfolding wake_by_ref
outcome_late true x e = ground arith
outcome_late false x e = omega arith

put-IsReleased :
    (i j : ℕ) (x : WakerInner) (w : World)
    → ((j == i) ≡ false → IsReleased (w.wakers j))
    → IsReleased ((put i (close_outcome x).1 w).wakers j)
put-IsReleased i j x w h =
    if-IsReleased (j == i) (some (close_outcome x).1) (w.wakers j)
      (outcome_late (ltb 1 x.state) x refl) h

put-IsReleased_own :
    (i : ℕ) (x : WakerInner) (w : World) → IsReleased ((put i (close_outcome x).1 w).wakers i)
put-IsReleased_own i x w = put-IsReleased i i x w (λ e. absurd (ground (arith, e)))

module _ (flags : ℕ → List Bool) where
  abbrev settled : ℕ → List Bool
  settled i = settle (flags i)

  -- The queue is closed, its wakers are released, and those that were stay so.
  abbrev Closes : List ℕ → World → Type 0
  Closes q w =
      (w' : World) × (close_queue settled q w ≡ some w')
      × ((j : ℕ) → IsIn j q → IsReleased (w'.wakers j))
      × ((j : ℕ) → IsReleased (w.wakers j) → IsReleased (w'.wakers j))

  queue_skips :
      (i : ℕ) (q : List ℕ) (w : World)
      → w.wakers i ≡ none
      → close_queue settled (i ∷ q) w ≡ close_queue settled q w
  unfolding close_queue
  queue_skips i q w e = ground arith

  queue_closes :
      (i : ℕ) (x : WakerInner) (q : List ℕ) (w : World)
      → w.wakers i ≡ some x
      → close_queue settled (i ∷ q) w ≡ close_queue settled q (put i (close_outcome x).1 w)
  unfolding close_queue
  queue_closes i x q w e = ground (arith, close_wake_total (flags i) x)

  close_queue-Closes : (q : List ℕ) (w : World) → Closes q w
  unfolding close_queue
  close_queue-Closes [] w = (w, refl, λ j h. absurd h, λ j h. h)
  close_queue-Closes (i ∷ q) w = elim (found (w.wakers i)) [
    | inl e ↦
        (let (w', ends, inside, kept) = close_queue-Closes q w in
          (
            w',
            queue_skips i q w e ∙ ends,
            λ j h. elim h [
              | inl here ↦ kept j (subst IsReleased (sym (ap w.wakers here ∙ e)) tt)
              | inr there ↦ inside j there
            ],
            kept,
          ))
    | inr (x, e) ↦
        (let w₁ = put i (close_outcome x).1 w in
          let (w', ends, inside, kept) = close_queue-Closes q w₁ in
          (
            w',
            queue_closes i x q w e ∙ ends,
            λ j h. elim h [
              | inl here ↦
                  kept j
                    (subst (λ k. IsReleased (w₁.wakers k)) (sym here) (put-IsReleased_own i x w))
              | inr there ↦ inside j there
            ],
            λ j h. kept j (put-IsReleased i j x w (λ _. h)),
          ))
  ]

  -- Once its selectors are woken, `close` of a multi registry ends, empties the queue, and leaves
  -- every waiter of the queue gone, or in a state above `Waiting`.
  pub close_releases :
      (w₀ w : World) (r : Registry)
      → wake_selectors (λ i. settle (flags i)) r.selectors w₀ ≡ some w
      → (w' : World) × (close (λ i. settle (flags i)) w₀ r
          ≡ some (w', record r { queue = []; state = 0 }))
        × ((j : ℕ) → IsIn j r.queue → IsReleased (w'.wakers j))
  unfolding close
  close_releases w₀ w r woke =
      let (w', ends, inside, kept) = close_queue-Closes r.queue w in
      (w', ground (arith, woke, ends), inside)
