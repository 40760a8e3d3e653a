-- ===== src/ArrayQueueMpsc.antt =====
-- src/crossbeam/array_queue_mpsc.rs: the bounded queue of many senders and one receiver.
--
-- As in the queue of one sender, two words of 64 bits hold two positions of 32 bits each. A sender
-- claims its slot by an exchange of `sender`, then writes the value and the stamp that the receiver
-- waits for. The calls are made one after another; a word that was loaded is an argument, and a weak
-- exchange may fail although the words agree, as the flag `spurious` says.
pub mod Rep
pub mod Push
pub mod Pop
pub mod Refine
use crossfire_rs.Prelude.{
  ℕ, zero, suc, ◌+◌, ◌-◌, ◌*◌, ◌/◌, ◌%◌, ◌^◌, Bool, true, false, not, ◌&&◌, ◌||◌, Option, none,
  some, List, [], ◌∷◌, if◌then◌else◌, ◌==◌, ltb, leb, add32, add64, length, get_or, set,
}
use crossfire_rs.ArrayQueue.{Slot, no_slot, init_slots, next_power_of_two}
use crossfire_rs.ArrayQueueSpsc.{pack, high, low}

pub record ArrayQueueMpsc (A : Type 0) : Type 0 where
  pub sender : ℕ
  pub recv : ℕ
  pub buffer : List (Slot A)
  pub one_lap : ℕ

module _ {A : Type 0} where
  -- `none` is a panic: on capacity 0, or on one of 2³¹ and more.
  unfoldable pub new : ℕ → Option (ArrayQueueMpsc A)
  new cap =
      if cap == 0
      then none
      else if leb (2 ^ 31) cap
      then none
      else some (record {
        sender = pack 0 0;
        recv = pack 0 0;
        buffer = init_slots cap 0;
        one_lap = next_power_of_two (cap + 1);
      })

  abbrev pub capacity : ArrayQueueMpsc A → ℕ
  capacity q = length q.buffer

  abbrev pub index_of : ArrayQueueMpsc A → ℕ → ℕ
  index_of q p = p % q.one_lap

  abbrev pub slot_at : ArrayQueueMpsc A → ℕ → Slot A
  slot_at q p = get_or q.buffer (index_of q p) no_slot

  -- The position after `p`: the next index of the lap, or index 0 of the next lap.
  unfoldable pub advance : ArrayQueueMpsc A → ℕ → ℕ
  advance q p =
      if ltb (index_of q p + 1) (capacity q) then p + 1 else add32 (p - index_of q p) q.one_lap

  -- `_try_push`, at the word that was loaded and its two halves, the head perhaps a later one.
  unfoldable pub try_push : Bool → ArrayQueueMpsc A → ℕ → ℕ → ℕ → A → Bool × ArrayQueueMpsc A
  unfolding advance
  try_push spurious q sender_val tail head_cached v =
      if q.sender == sender_val && not spurious
      then (
        true,
        record q {
          sender = pack head_cached (advance q tail);
          buffer = set q.buffer (index_of q tail) (record { stamp = add64 tail 1; value = some v });
        },
      )
      else (false, q)

  -- The head that a sender goes on with, or `none` if the queue is full.
  unfoldable pub head_for : ArrayQueueMpsc A → ℕ → Option ℕ
  head_for q sender_val =
      if add32 (high sender_val) q.one_lap == low sender_val
      then (if low q.recv == high sender_val then none else some (low q.recv))
      else some (high sender_val)

  -- The loop of `push_with_ptr`, at the word loaded last; `none` if the flags end before the loop.
  unfoldable pub push_loop : List Bool → ArrayQueueMpsc A → ℕ → A → Option (Bool × ArrayQueueMpsc A)
  unfolding try_push head_for
  push_loop [] q sender_val v = none
  push_loop (spurious ∷ flags) q sender_val v =
      let again = push_loop flags q q.sender v in
      elim (head_for q sender_val) [
        | none ↦ some (false, q)
        | some head ↦
            (let (done, q') = try_push spurious q sender_val (low sender_val) head v in
              if done then some (true, q') else again)
      ]

  unfoldable pub push_with_ptr : List Bool → ArrayQueueMpsc A → A → Option (Bool × ArrayQueueMpsc A)
  unfolding push_loop
  push_with_ptr flags q v = push_loop flags q q.sender v

  unfoldable pub try_push_oneshot : Bool → ArrayQueueMpsc A → A → Option Bool × ArrayQueueMpsc A
  unfolding try_push head_for
  try_push_oneshot spurious q v = elim (head_for q q.sender) [
    | none ↦ (some false, q)
    | some head ↦
        (let (done, q') = try_push spurious q q.sender (low q.sender) head v in
          ((if done then some true else none), q'))
  ]

  -- `_start_read` with its spin, or without it (`pop_cached`): the head and the tail seen.
  unfoldable pub start_read : Bool → ArrayQueueMpsc A → Option (ℕ × ℕ)
  start_read spin q =
      if high q.recv == low q.recv
      then (if not spin || low q.recv == low q.sender
          then none
          else some (low q.recv, low q.sender))
      else some (low q.recv, high q.recv)

  -- `_read` and the rest of `pop`, at the head and the tail seen; `none` if the stamp is not there,
  -- for which the code waits.
  unfoldable pub read_at : ArrayQueueMpsc A → ℕ → ℕ → Option (Option A × ArrayQueueMpsc A)
  unfolding advance
  read_at q head tail_cached =
      if (slot_at q head).stamp == add64 head 1
      then some (
        (slot_at q head).value,
        record q {
          recv = pack tail_cached (advance q head);
          buffer =
              set q.buffer (index_of q head)
                (record { stamp = (slot_at q head).stamp; value = none });
        },
      )
      else none

  unfoldable pub pop : Bool → ArrayQueueMpsc A → Option (Option A × ArrayQueueMpsc A)
  unfolding start_read read_at
  pop spin q = elim (start_read spin q) [
    | none ↦ some (none, q)
    | some (head, tail) ↦ read_at q head tail
  ]
