-- ===== src/Tests/Registry.antt =====
-- Runs of src/waker_registry.rs.
use crossfire_rs.Prelude.{
  ℕ, ◌+◌, ◌≡◌, inl, inr, refl, Bool, Option, some, none, List, [], ◌∷◌, if◌then◌else◌, ◌==◌, arith,
}
use crossfire_rs.Waker.{WakerInner, async, blocking, WakeResult, next, wake_by_ref}
use crossfire_rs.Waker.Laws.{set_state, settle}
use crossfire_rs.Registry.{
  Registry, World, new, reg_waker, check_select, check_waker, put, fire, close, wake_selectors,
  reg_select_waker,
}
use crossfire_rs.Registry.Flag.{Reach, begin, registers, selects, state_exact}
use crossfire_rs.Registry.Fire.{first_waiter_woken}
use crossfire_rs.Registry.Close.{IsReleased, IsIn, close_releases}
use crossfire_rs.Registry.Busy.{fire_busy}
use crossfire_rs.Registry.Busy.Fire.{fire_busy_ends}
use crossfire_rs.Registry.Popped.{IsEnded, AreStates}
use crossfire_rs.Registry.Early.{fire_stops}

abbrev waiter : ℕ → ℕ → WakerInner
waiter state seq = record { state = state; seq = seq; waker = blocking 0; wakes = 0 }

abbrev prompt : ℕ → List Bool
prompt _ = []

-- Waker 1 is dropped, 2 was woken, 3 and 4 wait, 5 and 6 are in `Init`.
abbrev names : ℕ → Option WakerInner
names j =
    if j == 2
    then some (waiter 3 2)
    else if j == 3
    then some (waiter 1 3)
    else if j == 4
    then some (waiter 1 9)
    else if j == 5
    then some (waiter 0 7)
    else if j == 6
    then some (waiter 0 8)
    else none

abbrev world : World
world = record {
  wakers = names;
  selects = λ _. record { cell = none; hint = 0; opened_channels = 0 };
}

abbrev queued : List ℕ → Registry
queued q = record { state = 2; queue = q; selectors = []; seq = 9 }

abbrev two_sides : Registry
two_sides =
    (reg_waker 4 (waiter 0 0) world (reg_waker 3 (waiter 0 0) world (reg_select_waker 0 1 new)).1).1

two_sides-Reach : Reach two_sides
two_sides-Reach =
    registers 4 (waiter 0 0) world (registers 3 (waiter 0 0) world (selects 0 1 begin))

state_exact_example : two_sides.state ≡ check_select two_sides + check_waker two_sides
state_exact_example = state_exact two_sides-Reach

two_sides_state : two_sides.state ≡ 3
unfolding reg_waker reg_select_waker
two_sides_state = refl

first_waiter_woken_example :
    fire (λ k. settle (prompt k)) world (queued (1 ∷ 2 ∷ 3 ∷ 4 ∷ []))
    ≡ some (WakeResult.woken, put 3 (wake_by_ref (set_state 3 (waiter 1 3))) world, queued (4 ∷ []))
first_waiter_woken_example =
    first_waiter_woken prompt world world (queued []) refl refl (1 ∷ 2 ∷ []) (4 ∷ []) 3 (waiter 1 3)
      (inl refl, (inr (waiter 3 2, refl, omega arith, omega arith), tt)) refl refl

close_releases_example :
    (w' : World) × (close (λ i. settle (prompt i)) world (queued (1 ∷ 3 ∷ []))
      ≡ some (w', record { state = 0; queue = []; selectors = []; seq = 9 }))
    × ((j : ℕ) → IsIn j (1 ∷ 3 ∷ []) → IsReleased (w'.wakers j))
unfolding wake_selectors
close_releases_example = close_releases prompt world world (queued (1 ∷ 3 ∷ [])) refl

-- Waiter 4, behind, waits and is not woken.
fire_stops_example :
    fire (λ k. settle (prompt k)) world (queued (5 ∷ 6 ∷ 4 ∷ []))
    ≡ some (
      next,
      put 6
          (wake_by_ref (set_state 3 (waiter 0 8)))
          (put 5 (wake_by_ref (set_state 3 (waiter 0 7))) world),
      queued (4 ∷ []),
    )
fire_stops_example =
    fire_stops prompt world (queued []) refl 5 6 (waiter 0 7) (waiter 0 8) (4 ∷ []) refl refl refl
      (omega arith) refl refl (omega arith)

-- A task that was woken registers again with the waker that it holds.
abbrev task_waker : WakerInner
task_waker = record (waiter 3 2) { waker = async 5 }

abbrev few : World
few = record world { wakers = λ j. if j == 5 then some (waiter 0 7) else none }

few-AreStates : AreStates few
few-AreStates i x e h = ground (arith, e, h)

-- After each wake the waiters 5 and 6 register again, so that the queue never gets empty.
abbrev again : ℕ → List ℕ
again fuel = 5 ∷ 6 ∷ []

fire_busy_ends_example :
    IsEnded (fire_busy (λ k. settle (prompt k)) again few (queued (5 ∷ 6 ∷ 5 ∷ [])))
fire_busy_ends_example =
    fire_busy_ends prompt again few few (queued (5 ∷ 6 ∷ 5 ∷ [])) refl few-AreStates (omega arith)
      (omega arith)
