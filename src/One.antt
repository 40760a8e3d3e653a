-- ===== src/One.antt =====
-- src/flavor/one.rs: the queue of one value, with two slots that senders and receivers use in turn.
--
-- The word packs a head and a tail of 16 bits. A sender claims a tail by an exchange of the word, and
-- then waits until the stamp of its slot is that tail; a receiver claims the value behind the head,
-- and waits for the stamp that its writer leaves. `x & 1` is `x % 2`.
pub mod System
pub mod Inv
pub mod Keep
pub mod Rounds
pub mod Sound
pub mod Safety
pub mod Progress
use crossfire_rs.Prelude.{
  ℕ, ◌+◌, ◌*◌, ◌/◌, ◌%◌, ◌^◌, Bool, true, false, not, ◌&&◌, Option, none, some, if◌then◌else◌, ◌==◌,
  add16,
}

abbrev pub pack : ℕ → ℕ → ℕ
pack head tail = head * 2 ^ 16 + tail

-- `unpack`, to the head and the tail.
abbrev pub unpack : ℕ → ℕ × ℕ
unpack pos = (pos / 2 ^ 16 % 2 ^ 16, pos % 2 ^ 16)

-- A value is `none` before the first write, and once it is read.
pub record Slot (A : Type 0) : Type 0 where
  pub value : Option A
  pub stamp : ℕ

pub record One (A : Type 0) : Type 0 where
  pub pos : ℕ
  pub slot_0 : Slot A
  pub slot_1 : Slot A

-- `x & 1`, as whether it is 1.
abbrev pub is_odd : ℕ → Bool
is_odd n = n % 2 == 1

-- What a round of a loop comes to: the exchange failed, and found a word; there is no room, or no
-- value; or the exchange claimed the slot of an index (whether it is 1), with the stamp to wait for.
pub data Round : Type 0 where
  retry : ℕ → Round
  refused : Round
  claimed : Bool → ℕ → Round

module _ {A : Type 0} where
  abbrev pub init : ℕ → Slot A
  init i = record { value = none; stamp = i }

  abbrev pub new : One A
  new = record { pos = 0; slot_0 = init 0; slot_1 = init 1 }

  abbrev pub slot_at : Bool → One A → Slot A
  slot_at false q = q.slot_0
  slot_at true q = q.slot_1

  abbrev pub set_slot : Bool → Slot A → One A → One A
  set_slot false k q = record q { slot_0 = k }
  set_slot true k q = record q { slot_1 = k }

  -- One round of `_try_push`, at the word `loaded`: it claims the tail.
  unfoldable pub push_round : Bool → ℕ → One A → Round × One A
  push_round spurious loaded q =
      let (head, tail) = unpack loaded in
      if head == tail
      then (if q.pos == loaded && not spurious
          then (claimed (is_odd tail) tail, record q { pos = pack head (add16 tail 1) })
          else (retry q.pos, q))
      else (refused, q)

  -- One round of `_start_read`: it claims the value behind the head, and the tail is the new head.
  unfoldable pub read_round : Bool → ℕ → One A → Round × One A
  read_round spurious loaded q =
      let (head, tail) = unpack loaded in
      if head == tail
      then (refused, q)
      else (if q.pos == loaded && not spurious
          then (claimed (is_odd head) tail, record q { pos = pack tail tail })
          else (retry q.pos, q))

  -- `Slot::write`, at one load of the stamp; `none` if it has to wait.
  unfoldable pub write : ℕ → A → Slot A → Option (Slot A)
  write tail v k =
      if k.stamp == tail then some (record { value = some v; stamp = add16 tail 1 }) else none

  -- `Slot::read`, at one load of the stamp: the value is moved out.
  unfoldable pub read : ℕ → Slot A → Option (Option A × Slot A)
  read head k =
      if k.stamp == head
      then some (k.value, record { value = none; stamp = add16 head 1 })
      else none

  unfoldable pub is_empty : One A → Bool
  is_empty q = let (head, tail) = unpack q.pos in head == tail

  abbrev pub is_full : One A → Bool
  is_full q = not (is_empty q)

  abbrev pub len : One A → ℕ
  len q = if is_full q then 1 else 0

  -- The value that `drop` drops.
  unfoldable pub drop : One A → Option A
  drop q =
      let (head, tail) = unpack q.pos in
      if head == tail then none else (slot_at (is_odd head) q).value
