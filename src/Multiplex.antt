-- ===== src/Multiplex.antt =====
-- src/select/multiplex.rs: one receiver that owns many channels and goes around them, with weights.
--
-- The queue of a channel is any flavor, known by its tries to receive. `on_recvs` counts the calls of
-- `on_recv`, which wake a sender of the channel. An index out of range, which the code does not check,
-- receives nothing here.
pub mod Turns
pub mod Measure
pub mod Served
pub mod Fair
pub mod System
pub mod Inv
pub mod Park
use crossfire_rs.Prelude.{
  ℕ, zero, suc, ◌+◌, ◌-◌, ◌*◌, ◌%◌, ◌^◌, Bool, true, false, Option, none, some, List, [], ◌∷◌, ◌++◌,
  if◌then◌else◌, ltb, leb, length, set,
}
use crossfire_rs.ArrayQueue.Rep.{nth}

abbrev pub default_weight : ℕ
default_weight = 128

pub record MultiplexHandle (Q : Type 0) : Type 0 where
  pub queue : Q
  pub weight : ℕ
  pub on_recvs : ℕ

pub record Multiplex (Q : Type 0) : Type 0 where
  pub handlers : List (MultiplexHandle Q)
  pub last_idx : ℕ
  pub count : ℕ
  pub opened : ℕ

abbrev pub new : {Q : Type 0} → Multiplex Q
new = record { handlers = []; last_idx = 0; count = 0; opened = 0 }

-- `weight - 1` of a `u32` wraps in a release build.
unfoldable pub add_item : {Q : Type 0} → Q → ℕ → Multiplex Q → Multiplex Q
add_item q weight m = record m {
  opened = m.opened + 1;
  handlers =
      m.handlers
      ++ (record { queue = q; weight = (weight + 2 ^ 32 - 1) % 2 ^ 32; on_recvs = 0 } ∷ []);
  last_idx = length m.handlers;
}

-- The three tries of a flavor.
pub record Tries (Q A : Type 0) : Type 0 where
  pub try_recv : Q → Option A × Q
  pub try_recv_final : Q → Option A × Q
  pub try_recv_cached : Q → Option A × Q

abbrev pub next_idx : ℕ → ℕ → ℕ
next_idx len idx = if leb len (idx + 1) then 0 else idx + 1

module _ {Q A : Type 0} (tries : Tries Q A) where
  abbrev pub try_of : Bool → Q → Option A × Q
  try_of true q = tries.try_recv_final q
  try_of false q = tries.try_recv q

  abbrev pub put_handle : ℕ → MultiplexHandle Q → Multiplex Q → Multiplex Q
  put_handle i h m = record m { handlers = set m.handlers i h }

  -- The loop of `_try_select_all`, one channel after another; what it does with a channel, and with
  -- what the try of it gave.
  abbrev pub look_result :
      ℕ → MultiplexHandle Q → Option A × Q → Multiplex Q → Option A × Multiplex Q
  look_result i h (none, q) m = (none, put_handle i (record h { queue = q }) m)
  look_result i h (some x, q) m = (
    some x,
    record (put_handle i (record h { queue = q; on_recvs = h.on_recvs + 1 }) m) {
      count = h.weight;
      last_idx = i;
    },
  )

  abbrev pub look_at : Bool → ℕ → Option (MultiplexHandle Q) → Multiplex Q → Option A × Multiplex Q
  look_at final i none m = (none, m)
  look_at final i (some h) m = look_result i h (try_of final h.queue) m

  unfoldable pub try_select_all : Bool → ℕ → ℕ → Multiplex Q → Option A × Multiplex Q
  try_select_all final zero idx m = (none, m)
  try_select_all final (suc n) idx m =
      let i = next_idx (length m.handlers) idx in
      let (o, m') = look_at final i (nth m.handlers i) m in
      elim o [ some x ↦ (some x, m') | none ↦ try_select_all final n i m' ]

  -- What `_try_select_cached` does after its try of the last channel.
  abbrev pub cached_result :
      Bool → MultiplexHandle Q → Option A × Q → Multiplex Q → Option A × Multiplex Q
  cached_result final h (some x, q) m = (
    some x,
    record (put_handle m.last_idx (record h { queue = q; on_recvs = h.on_recvs + 1 }) m) {
      count = m.count - 1;
    },
  )
  cached_result final h (none, q) m =
      let m' = put_handle m.last_idx (record h { queue = q }) m in
      try_select_all final (length m.handlers - 1) m.last_idx m'

  abbrev pub cached_at : Bool → Option (MultiplexHandle Q) → Multiplex Q → Option A × Multiplex Q
  cached_at final none m = (none, m)
  cached_at final (some h) m = cached_result final h (tries.try_recv_cached h.queue) m

  unfoldable pub try_select_cached : Bool → Multiplex Q → Option A × Multiplex Q
  try_select_cached final m =
      if ltb 0 m.count
      then cached_at final (nth m.handlers m.last_idx) m
      else try_select_all final (length m.handlers) m.last_idx m

  -- What `try_recv` answers: an item, `Empty` or `Disconnected`.
  pub data TryRecv : Type 0 where
    received : A → TryRecv
    empty : TryRecv
    disconnected : TryRecv

  abbrev pub answer : TryRecv → Option A × Multiplex Q → TryRecv × Multiplex Q
  answer e (none, m) = (e, m)
  answer e (some x, m) = (received x, m)

  unfoldable pub try_recv : Multiplex Q → TryRecv × Multiplex Q
  try_recv m =
      if ltb 0 m.opened
      then answer empty (try_select_all false (length m.handlers) m.last_idx m)
      else answer disconnected (try_select_all true (length m.handlers) m.last_idx m)
