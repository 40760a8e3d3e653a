-- ===== src/Backoff.antt =====
-- utils/src/backoff.rs: how long a waiter spins and yields before it parks.
--
-- The fields are 16-bit words. The feature `std` is on. A call answers also what it did on the way.
pub mod Bounds
use crossfire_rs.Prelude.{
  ℕ, zero, suc, ◌+◌, ◌*◌, ◌/◌, ◌%◌, ◌^◌, Bool, true, false, Option, none, some, if◌then◌else◌, ltb,
  leb,
}

pub record BackoffConfig : Type 0 where
  pub spin_limit : ℕ
  pub limit : ℕ

pub record Backoff : Type 0 where
  pub step : ℕ
  pub config : BackoffConfig

abbrev pub spin_limit_max : ℕ
spin_limit_max = 6

abbrev pub max_limit : ℕ
max_limit = 10

unfoldable pub async_limit : BackoffConfig → ℕ → BackoffConfig
async_limit c l = record { spin_limit = l; limit = if ltb l c.limit then l else c.limit }

unfoldable pub from : BackoffConfig → Backoff
from c = record { step = 0; config = c }

-- What a call does to the processor: so many times `spin_loop`, and `yield_now` or not.
pub record Work : Type 0 where
  pub spins : ℕ
  pub yields : Bool

unfoldable pub spin : Backoff → Bool × Work × Backoff
spin b =
    let work : Work = record {
      spins = 2 ^ (if ltb b.step spin_limit_max then b.step else spin_limit_max);
      yields = false;
    } in
    if ltb b.step max_limit
    then (leb b.config.limit (b.step + 1), work, record b { step = b.step + 1 })
    else (true, work, b)

unfoldable pub snooze : Backoff → Bool × Work × Backoff
snooze b =
    if ltb b.step b.config.limit
    then (
      false,
      if ltb (b.step + 1) b.config.spin_limit
          then record { spins = 2 ^ (b.step + 1); yields = false }
          else record { spins = 0; yields = true },
      record b { step = b.step + 1 },
    )
    else (true, record { spins = 0; yields = false }, b)

unfoldable pub yield_now : Backoff → Bool × Work × Backoff
yield_now b =
    if ltb b.step b.config.limit
    then (
      leb b.config.limit (b.step + 1),
      record { spins = 0; yields = true },
      record b { step = b.step + 1 },
    )
    else (true, record { spins = 0; yields = true }, b)

unfoldable pub is_completed : Backoff → Bool
is_completed b = leb b.config.limit b.step

unfoldable pub reset : Backoff → Backoff
reset b = record b { step = 0 }

-- A wait that calls `snooze` until it answers true, as the waiting loops of the channels do while
-- nothing happens: the calls that answered false, the calls of `spin_loop`, and the backoff behind.
unfoldable pub snooze_until : ℕ → Backoff → Option (ℕ × ℕ × Backoff)
unfolding snooze
snooze_until zero b = none
snooze_until (suc fuel) b =
    let (done, work, b') = snooze b in
    elim done [
      | true ↦ some (0, 0, b')
      | false ↦ elim (snooze_until fuel b') [
        | none ↦ none
        | some (calls, spins, b'') ↦ some (calls + 1, spins + work.spins, b'')
      ]
    ]
