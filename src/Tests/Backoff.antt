-- ===== src/Tests/Backoff.antt =====
-- Runs of utils/src/backoff.rs.
use crossfire_rs.Prelude.{◌≡◌, some, refl}
use crossfire_rs.Backoff.{BackoffConfig, Backoff, snooze_until}

abbrev config : BackoffConfig
config = record { spin_limit = 6; limit = 10 }

abbrev early : Backoff
early = record { step = 2; config = config }

spins_of_wait : snooze_until 9 early ≡ some (8, 56, record { step = 10; config = config })
unfolding snooze_until
spins_of_wait = refl
