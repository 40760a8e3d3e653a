-- ===== src/Waker/Laws.antt =====
-- src/waker.rs: what the loops of `WakerInner` return, however often an exchange fails spuriously.
use crossfire_rs.Prelude.{
  ℕ, ◌≤◌, ◌≡◌, ◌≢◌, Bool, true, false, some, List, [], ◌∷◌, ◌++◌, if◌then◌else◌, leb, ◌==◌, ltb,
  arith,
}
use crossfire_rs.Waker.{
  waiting, closed, WakeResult, next, skip, WakerInner, wake_by_ref, Changed, ok, err, change_loop,
  abandon, close_wake, wake_loop, wake,
}

-- The flags of a loop whose exchanges fail spuriously as `flags` says, and then no more.
abbrev pub settle : List Bool → List Bool
settle flags = flags ++ (false ∷ false ∷ [])

abbrev pub set_state : ℕ → WakerInner → WakerInner
set_state s w = record w { state = s }

-- What a call of `wake` that nothing interrupts does.
abbrev pub wake_outcome : WakerInner → WakeResult × WakerInner
wake_outcome w =
    if leb 3 w.state
    then (skip, w)
    else (if w.state == 1 then WakeResult.woken else next, wake_by_ref (set_state 3 w))

wake_loop_total :
    (flags : List Bool) (w : WakerInner)
    → w.state ≢ 2
    → wake_loop (settle flags) w.state w ≡ some (wake_outcome w)
unfolding wake_loop
wake_loop_total [] w h = ground arith
wake_loop_total (spurious ∷ flags) w h = ground (arith, wake_loop_total flags w h)

-- A call of `wake` that nothing interrupts ends, however often its exchange fails spuriously: it
-- passes over a waiter in `Woken` or above, and any other it sets to `Woken` and resumes once,
-- with `Woken` for `Waiting` and `Next` for `Init`.
pub wake_total :
    (flags : List Bool) (w : WakerInner)
    → w.state ≢ 2
    → wake (settle flags) w ≡ some (wake_outcome w)
unfolding wake
wake_total flags w h = wake_loop_total flags w h

abbrev pub change_outcome : WakerInner → Changed × WakerInner
change_outcome w = if ltb 1 w.state then (err w.state, w) else (ok w.state, set_state 4 w)

change_loop_own :
    (flags rest : List Bool) (w : WakerInner)
    → w.state ≤ 1
    → change_loop (flags ++ (false ∷ rest)) w.state waiting closed w ≡ some (change_outcome w)
unfolding change_loop
change_loop_own [] rest w h = ground arith
change_loop_own (spurious ∷ flags) rest w h = ground (arith, change_loop_own flags rest w h)

change_loop_total :
    (flags : List Bool) (w : WakerInner)
    → change_loop (settle flags) 1 waiting closed w ≡ some (change_outcome w)
unfolding change_loop
change_loop_total [] w = ground arith
change_loop_total (spurious ∷ flags) w =
    ground (
      arith,
      change_loop_own flags (false ∷ []) w,
      change_loop_own (spurious ∷ flags) (false ∷ []) w,
    )

-- A call of `abandon` that nothing interrupts ends: it closes a waiter in `Init` or `Waiting`,
-- and reports the state of any other and leaves it alone.
pub abandon_total :
    (flags : List Bool) (w : WakerInner) → abandon (settle flags) w ≡ some (change_outcome w)
unfolding abandon
abandon_total flags w = change_loop_total flags w

abbrev pub close_outcome : WakerInner → Bool × WakerInner
close_outcome w = if ltb 1 w.state then (false, w) else (true, wake_by_ref (set_state 4 w))

-- A call of `close_wake` that nothing interrupts ends: it closes and resumes a waiter in `Init` or
-- `Waiting`, and leaves any other alone.
pub close_wake_total :
    (flags : List Bool) (w : WakerInner) → close_wake (settle flags) w ≡ some (close_outcome w)
unfolding close_wake
close_wake_total flags w = ground (arith, change_loop_total flags w)
