-- ===== src/Backoff/Bounds.antt =====
-- utils/src/backoff.rs: the waits end, and how much they spin.
use crossfire_rs.Prelude.{◌||◌, ◌≡◌, leb, arith}
use crossfire_rs.Backoff.{Backoff, spin, yield_now, is_completed}

-- `spin` and `yield_now` answer true exactly when the step that they leave has come to the limit, or
-- when it was at the largest step of `spin` before.
spin_lem :
    (b : Backoff)
    → ((spin b).0 ≡ (is_completed (spin b).2 || leb 10 b.step))
      × ((yield_now b).0 ≡ is_completed (yield_now b).2)
unfolding spin yield_now is_completed
spin_lem b = (ground arith, ground arith)
