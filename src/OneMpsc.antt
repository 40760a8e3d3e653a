-- ===== src/OneMpsc.antt =====
-- src/flavor/one_mpsc.rs: the queue of one value for one receiver, which needs no turns to write.
--
-- The word and the slots are those of One. A sender writes as soon as it has claimed a tail; the
-- receiver frees the word before it waits for the stamp of the writer and reads.
pub mod System
pub mod Inv
pub mod Send
pub mod Receive
pub mod Safety
pub mod Rest
use crossfire_rs.Prelude.{
  ℕ, ◌+◌, Bool, true, false, not, ◌&&◌, Option, none, some, if◌then◌else◌, ◌==◌, add16,
}
use crossfire_rs.One.{
  One, Slot, Round, retry, refused, claimed, pack, unpack, is_odd, init, slot_at,
}

module _ {A : Type 0} where
  abbrev pub new : One A
  new = record { pos = 0; slot_0 = init 0; slot_1 = init 1 }

  -- One round of `_try_push`, at the word `loaded`.
  unfoldable pub push_round : Bool → ℕ → One A → Round × One A
  push_round spurious loaded q =
      let (head, tail) = unpack loaded in
      if head == tail
      then (if q.pos == loaded && not spurious
          then (claimed (is_odd tail) tail, record q { pos = pack head (add16 tail 1) })
          else (retry q.pos, q))
      else (refused, q)

  -- `_start_read`, to the index and the new head.
  unfoldable pub start_read : One A → Option (Bool × ℕ)
  start_read q =
      let (head, tail) = unpack q.pos in if head == tail then none else some (is_odd head, tail)

  -- The store of `_read`.
  abbrev pub free : ℕ → One A → One A
  free next_head q = record q { pos = pack next_head next_head }

  -- `Slot::write`.
  abbrev pub write : ℕ → A → Slot A → Slot A
  write tail v k = record { value = some v; stamp = add16 tail 1 }

  -- `Slot::read`, at one load of the stamp: the value, or `none` if it has to wait.
  unfoldable pub read : ℕ → Slot A → Option (Option A)
  read head k = if k.stamp == head then some k.value else none

  unfoldable pub is_empty : One A → Bool
  is_empty q = let (head, tail) = unpack q.pos in head == tail

  abbrev pub is_full : One A → Bool
  is_full q = not (is_empty q)

  abbrev pub len : One A → ℕ
  len q = if is_full q then 1 else 0

  -- The value that `drop` drops.
  unfoldable pub drop : One A → Option A
  drop q =
      let (head, tail) = unpack q.pos in
      if head == tail then none else (slot_at (is_odd head) q).value
