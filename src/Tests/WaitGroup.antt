-- ===== src/Tests/WaitGroup.antt =====
-- Runs of src/waitgroup.rs: one guard, an owner that waits for it, in `park` or with a future, and
-- then drops the group. The waker of its thread is 0.
use crossfire_rs.Prelude.{ℕ, ◌≡◌, refl, true, false, some}
use crossfire_rs.WaitGroup.{done_round, set_waker_round}
use crossfire_rs.WaitGroup.System.{
  System, taken_apart, taking, Choice, waits, polled_by, drops, start, add_guard, guard_step,
  unlock_step, wake_step, free_step, owner_step, apply_done, set_waker_step, apply_decision,
  destroy_step, idle_step, pending_step, poll_check_step, try_into_inner,
}

abbrev waiting : Choice
waiting = record { call = waits; snooze = false; expired = false; spurious = false }

abbrev dropping_it : Choice
dropping_it = record waiting { call = drops }

abbrev polling : ℕ → Choice
polling w = record waiting { call = polled_by w }

abbrev owner_waits : System → System
owner_waits s = owner_step 1 0 waiting s

-- The owner registers its waker and parks.
abbrev parked : System
parked = owner_waits (owner_waits (owner_waits (owner_waits (owner_waits (add_guard 1 0 start)))))

-- The guard is dropped, takes the lock, and has not yet taken the waker.
abbrev unlocking : System
unlocking = guard_step 1 0 false parked.word parked

-- The guard wakes the owner, which finds the count met.
abbrev awake : System
awake = owner_waits (owner_waits (wake_step 1 0 0 (unlock_step 1 0 (unlock_step 1 0 unlocking))))

-- The owner drops the group.
abbrev over : System
over = free_step 1 0 (owner_step 1 0 dropping_it (owner_step 1 0 dropping_it awake))

-- A future is polled with the waker 3 and then with the waker 4, which replaces it.
abbrev polled : System
polled =
    let first = owner_waits (
      owner_waits (owner_waits (owner_waits (owner_step 1 0 (polling 3) (add_guard 1 0 start))))) in
    owner_waits (owner_waits (owner_waits (owner_waits (owner_step 1 0 (polling 4) first))))

-- The guard is dropped and takes the lock.
abbrev met : System
met = guard_step 1 0 false polled.word polled

-- While the guard that brought the count down still holds the lock, and is going to take the waker
-- out of the box, the owner finds the count met, and `try_into_inner` frees the box.
abbrev returned : System
returned = owner_waits (owner_step 1 0 (record waiting { spurious = true }) unlocking)

frees_too_early :
    try_into_inner 1 0 returned ≡ some (record returned { owner = taken_apart; freeing = 1 })
unfolding add_guard owner_step guard_step unlock_step wake_step free_step apply_done set_waker_step
    apply_decision destroy_step done_round set_waker_round idle_step pending_step poll_check_step
    try_into_inner
frees_too_early = refl

frees_too_early_busy : returned.unlocker ≡ taking
unfolding add_guard owner_step guard_step unlock_step wake_step free_step apply_done set_waker_step
    apply_decision destroy_step done_round set_waker_round idle_step pending_step poll_check_step
    try_into_inner
frees_too_early_busy = refl
