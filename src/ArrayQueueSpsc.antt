-- ===== src/ArrayQueueSpsc.antt =====
-- src/crossbeam/array_queue_spsc.rs: the bounded queue of one sender and one receiver, which has no
-- stamps.
--
-- Two words of 64 bits hold two positions of 32 bits each: `sender` the head that the sender saw and
-- the tail, `recv` the tail that the receiver saw and the head. Each side writes only its own. A
-- position has an index of the buffer as its remainder by `one_lap`, a power of two.
pub mod System
pub mod Inv
pub mod Keep
pub mod Values
pub mod Sound
pub mod Observe
pub mod Safety
use crossfire_rs.Prelude.{
  ℕ, zero, suc, ◌+◌, ◌-◌, ◌*◌, ◌/◌, ◌%◌, ◌^◌, Bool, true, false, Option, none, some, List, [], ◌∷◌,
  if◌then◌else◌, ◌==◌, ltb, leb, add32, length, get_or, set,
}
use crossfire_rs.ArrayQueue.{next_power_of_two}

-- `((high as u64) << 32) | (low as u64)`, and the two halves.
abbrev pub pack : ℕ → ℕ → ℕ
pack high low = high * 2 ^ 32 + low

abbrev pub high : ℕ → ℕ
high v = v / 2 ^ 32

abbrev pub low : ℕ → ℕ
low v = v % 2 ^ 32

-- A slot is `none` while it holds no value: at first, and once the value is read.
pub record ArrayQueueSpsc (A : Type 0) : Type 0 where
  pub sender : ℕ
  pub recv : ℕ
  pub buffer : List (Option A)
  pub one_lap : ℕ

module _ {A : Type 0} where
  unfoldable pub no_values : ℕ → List (Option A)
  no_values zero = []
  no_values (suc n) = none ∷ no_values n

  -- `none` is a panic: on capacity 0, or on one of 2³¹ and more.
  unfoldable pub new : ℕ → Option (ArrayQueueSpsc A)
  unfolding no_values next_power_of_two
  new cap =
      if cap == 0
      then none
      else if leb (2 ^ 31) cap
      then none
      else some (record {
        sender = pack 0 0;
        recv = pack 0 0;
        buffer = no_values cap;
        one_lap = next_power_of_two (cap + 1);
      })

  abbrev pub capacity : ArrayQueueSpsc A → ℕ
  capacity q = length q.buffer

  abbrev pub index_of : ArrayQueueSpsc A → ℕ → ℕ
  index_of q p = p % q.one_lap

  abbrev pub slot_at : ArrayQueueSpsc A → ℕ → Option A
  slot_at q p = get_or q.buffer (index_of q p) none

  -- The position after `p`: the next index of the lap, or index 0 of the next lap.
  unfoldable pub advance : ArrayQueueSpsc A → ℕ → ℕ
  advance q p =
      if ltb (index_of q p + 1) (capacity q) then p + 1 else add32 (p - index_of q p) q.one_lap

-- The sender: between two calls, with the answer of the last; in `_try_push`, before it loads the
-- word of the receiver, with the value, the tail and the head that it saw; before it writes the slot;
-- and before it stores its word, with the new tail.
pub data Tx (A : Type 0) : Type 0 where
  idle : Option Bool → Tx A
  check : A → ℕ → ℕ → Tx A
  write : A → ℕ → ℕ → Tx A
  store : ℕ → ℕ → Tx A

-- The receiver: between two calls, with the answer of the last; in `_start_read`, before it loads the
-- word of the sender, with the head; before it reads the slot, with the head and the tail that it
-- saw; and before it stores its word. A token of `start_read` is `take`, and `read` goes on from there.
pub data Rx (A : Type 0) : Type 0 where
  idle : Option (Option A) → Rx A
  check : ℕ → Rx A
  take : ℕ → ℕ → Rx A
  free : Option A → ℕ → Rx A

module _ {A : Type 0} where
  -- `push_with_ptr` and `push_with_ptr_final` of `v`, up to the first decision.
  unfoldable pub push : A → ArrayQueueSpsc A → Tx A
  push v q =
      if add32 (high q.sender) q.one_lap == low q.sender
      then Tx.check v (low q.sender) (high q.sender)
      else write v (low q.sender) (high q.sender)

  -- One more access of the sender.
  unfoldable pub tx_step : Tx A → ArrayQueueSpsc A → Tx A × ArrayQueueSpsc A
  unfolding advance
  tx_step (Tx.idle answer) q = (Tx.idle answer, q)
  tx_step (Tx.check v tail head_cached) q =
      if low q.recv == head_cached
      then (Tx.idle (some false), q)
      else (write v tail (low q.recv), q)
  tx_step (write v tail head_cached) q = (
    store (advance q tail) head_cached,
    record q { buffer = set q.buffer (index_of q tail) (some v) },
  )
  tx_step (store new_tail head_cached) q =
      (Tx.idle (some true), record q { sender = pack head_cached new_tail })

  -- `pop` and `start_read`, or `pop_cached` where `spin` is false, up to the first decision.
  unfoldable pub pop : Bool → ArrayQueueSpsc A → Rx A
  pop spin q =
      if high q.recv == low q.recv
      then (if spin then Rx.check (low q.recv) else Rx.idle (some none))
      else take (low q.recv) (high q.recv)

  -- One more access of the receiver.
  unfoldable pub rx_step : Rx A → ArrayQueueSpsc A → Rx A × ArrayQueueSpsc A
  unfolding advance
  rx_step (Rx.idle answer) q = (Rx.idle answer, q)
  rx_step (Rx.check head) q =
      if head == low q.sender then (Rx.idle (some none), q) else (take head (low q.sender), q)
  rx_step (take head tail_cached) q = (
    free (slot_at q head) (pack tail_cached (advance q head)),
    record q { buffer = set q.buffer (index_of q head) none },
  )
  rx_step (free msg packed_recv) q = (Rx.idle (some msg), record q { recv = packed_recv })

  unfoldable pub is_empty : ArrayQueueSpsc A → Bool
  is_empty q = low q.sender == low q.recv

  unfoldable pub is_full : ArrayQueueSpsc A → Bool
  is_full q = add32 (low q.recv) q.one_lap == low q.sender

  -- The body of `len`, at a tail that did not change while the head was loaded.
  unfoldable pub len : ArrayQueueSpsc A → ℕ
  len q =
      let hix = index_of q (low q.recv) in
      let tix = index_of q (low q.sender) in
      if ltb hix tix
      then tix - hix
      else if ltb tix hix
      then capacity q - (hix - tix)
      else if low q.sender == low q.recv
      then 0
      else capacity q
