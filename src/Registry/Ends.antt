-- ===== src/Registry/Ends.antt =====
-- src/waker_registry.rs: what a wake in a fire, and its first pop, come to.
use crossfire_rs.Prelude.{
  ℕ, ◌≡◌, ◌≢◌, Bool, true, false, Option, none, some, List, if◌then◌else◌, ◌==◌, arith,
}
use crossfire_rs.Waker.{WakerInner, WakeResult, wake_by_ref}
use crossfire_rs.Waker.Laws.{settle, wake_outcome}
use crossfire_rs.Registry.{
  Registry, World, put, pop_queue, pop_first, after_wake, has_select, wake_selectors,
}
use crossfire_rs.Registry.Popped.{IsEnded, AreStates, FirstOk, pop_queue-FirstOk}

module _ (flags : ℕ → List Bool) where
  abbrev pub settled : ℕ → List Bool
  settled i = settle (flags i)

  pub outcome_state : (x : WakerInner) → x.state ≢ 2 → ((wake_outcome x).1).state ≢ 2
  unfolding wake_by_ref
  outcome_state x h = ground (arith, h)

  pub woken-ends :
      (i : ℕ) (w : World) (r : Registry)
      (again : ℕ → World → Option (WakeResult × World × Registry)) (p : WakeResult × WakerInner)
      → IsEnded (again (p.1).seq (put i (p.1) w))
      → IsEnded (after_wake i w r again (some p))
  unfolding after_wake
  woken-ends i w r again (res, x) k = ground (arith, k)

  module _ (w₀ w : World) (r : Registry)
      (selected : (if has_select r.state then wake_selectors settled r.selectors w₀ else some w₀)
        ≡ some w)
      (ok : AreStates w) where
    abbrev pub first : Bool → Option (ℕ × WakerInner × Option ℕ) × World × Registry
    first true = (none, w₀, r)
    first false = pop_queue w r

    pub first_is : (b : Bool) → (r.state == 0) ≡ b → pop_first settled w₀ r ≡ some (first b)
    unfolding pop_first
    first_is true e = ground arith
    first_is false e = ground (arith, selected)

    pub first_ok : (b : Bool) → FirstOk (first b)
    first_ok true = tt
    first_ok false = pop_queue-FirstOk w r ok
