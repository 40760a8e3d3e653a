-- ===== src/ArrayQueue.antt =====
-- src/crossbeam/array_queue.rs: the bounded queue of stamped slots.
--
-- A stamp is a 64-bit word: its remainder by `one_lap` is an index of the buffer, and the rest a
-- lap; `x & (one_lap - 1)` is `x % one_lap`, and `x & !(one_lap - 1)` is `x - x % one_lap`, since
-- `one_lap` is a power of two. The functions take the position that was loaded, which may be stale.
-- A weak exchange may fail although the values agree, as the flag `spurious` says; a loop takes the
-- flags of its rounds as a list, and answers `none` if the list ends before the loop.
pub mod Positions
pub mod Rep
pub mod Push
pub mod Pop
pub mod Refine
pub mod Powers
pub mod Fresh
pub mod Count
use crossfire_rs.Prelude.{
  ℕ, zero, suc, ◌+◌, ◌-◌, ◌*◌, ◌%◌, Bool, true, false, not, ◌&&◌, Option, none, some, List, [], ◌∷◌,
  if◌then◌else◌, ◌==◌, ltb, leb, add64, length, get_or, set,
}

-- The `MaybeUninit` value is `none` until the first write.
pub record Slot (A : Type 0) : Type 0 where
  pub stamp : ℕ
  pub value : Option A

pub record ArrayQueue (A : Type 0) : Type 0 where
  pub head : ℕ
  pub tail : ℕ
  pub buffer : List (Slot A)
  pub one_lap : ℕ

-- What one attempt of `_try_push` answers: the error has the stamp found, and the tail found if
-- the exchange failed.
pub data Attempt : Type 0 where
  pushed : Attempt
  failed : ℕ → Option ℕ → Attempt

-- The index of the slot to read, and the stamp to leave there.
pub record Token : Type 0 where
  pub pos : ℕ
  pub stamp : ℕ

-- The least power of two from `p` on that is at least `n`; `fuel` doublings at most.
pub double_until : ℕ → ℕ → ℕ → ℕ
double_until zero p n = p
double_until (suc fuel) p n = elim (leb n p) [ true ↦ p | false ↦ double_until fuel (p * 2) n ]

-- `next_power_of_two` of the standard library.
unfoldable pub next_power_of_two : ℕ → ℕ
unfolding double_until
next_power_of_two n = double_until n 1 n

module _ {A : Type 0} where
  abbrev pub no_slot : Slot A
  no_slot = record { stamp = 0; value = none }

  unfoldable pub init_slots : ℕ → ℕ → List (Slot A)
  init_slots zero i = []
  init_slots (suc n) i = record { stamp = i; value = none } ∷ init_slots n (i + 1)

  -- `none` is the panic on capacity 0.
  unfoldable pub new : ℕ → Option (ArrayQueue A)
  unfolding init_slots next_power_of_two
  new cap =
      if cap == 0
      then none
      else some (record {
        head = 0;
        tail = 0;
        buffer = init_slots cap 0;
        one_lap = next_power_of_two (cap + 1);
      })

  abbrev pub capacity : ArrayQueue A → ℕ
  capacity q = length q.buffer

  abbrev pub index_of : ArrayQueue A → ℕ → ℕ
  index_of q p = p % q.one_lap

  -- `get_unchecked`; that the index is in range is a theorem.
  abbrev pub slot_at : ArrayQueue A → ℕ → Slot A
  slot_at q p = get_or q.buffer (index_of q p) no_slot

  -- The position after `p`: the next index of the lap, or index 0 of the next lap.
  unfoldable pub advance : ArrayQueue A → ℕ → ℕ
  advance q p =
      if ltb (index_of q p + 1) (capacity q) then p + 1 else add64 (p - index_of q p) q.one_lap

  -- `_try_push`
  unfoldable pub try_push : Bool → ArrayQueue A → ℕ → A → Attempt × ArrayQueue A
  unfolding advance
  try_push spurious q tail v =
      if tail == (slot_at q tail).stamp
      then (if q.tail == tail && not spurious
          then (
            pushed,
            record q {
              tail = advance q tail;
              buffer = set q.buffer (index_of q tail) (record { stamp = tail + 1; value = some v });
            },
          )
          else (failed (slot_at q tail).stamp (some q.tail), q))
      else (failed (slot_at q tail).stamp none, q)

  unfoldable pub try_push_oneshot : Bool → ArrayQueue A → A → Option Bool × ArrayQueue A
  unfolding try_push
  try_push_oneshot spurious q v =
      if add64 q.head q.one_lap == q.tail
      then (some false, q)
      else (let (r, q') = try_push spurious q q.tail v in
          elim r [ pushed ↦ (some true, q') | failed _ _ ↦ (none, q') ])

  -- The loop of `push_with_ptr`, at the tail loaded last.
  unfoldable pub push_loop : List Bool → ArrayQueue A → ℕ → A → Option (Bool × ArrayQueue A)
  unfolding try_push
  push_loop [] q tail v = none
  push_loop (spurious ∷ flags) q tail v =
      let (r, q') = try_push spurious q tail v in
      let reloaded = push_loop flags q q.tail v in
      elim r [
        | pushed ↦ some (true, q')
        | failed stamp (some t) ↦ push_loop flags q t v
        | failed stamp none ↦
            (if add64 stamp q.one_lap == tail + 1 && add64 q.head q.one_lap == tail
              then some (false, q)
              else reloaded)
      ]

  unfoldable pub push_with_ptr : List Bool → ArrayQueue A → A → Option (Bool × ArrayQueue A)
  unfolding push_loop
  push_with_ptr flags q v = push_loop flags q q.tail v

  -- The loop of `_start_read`, at the head loaded last; `none` inside means that the queue is empty.
  unfoldable pub start_loop : List Bool → ArrayQueue A → ℕ → Option (Option Token × ArrayQueue A)
  unfolding advance
  start_loop [] q head = none
  start_loop (spurious ∷ flags) q head =
      let again = start_loop flags q q.head in
      if head + 1 == (slot_at q head).stamp
      then (if q.head == head && not spurious
          then some (
            some (record { pos = index_of q head; stamp = add64 head q.one_lap }),
            record q { head = advance q head },
          )
          else again)
      else if (slot_at q head).stamp == head && q.tail == head
      then some (none, q)
      else again

  unfoldable pub start_read : List Bool → ArrayQueue A → Option (Option Token × ArrayQueue A)
  unfolding start_loop
  start_read flags q = start_loop flags q q.head

  -- `read`: the value is moved out, and the stamp lets the slot be written again.
  unfoldable pub read : ArrayQueue A → Token → Option A × ArrayQueue A
  read q t = (
    (get_or q.buffer t.pos no_slot).value,
    record q { buffer = set q.buffer t.pos (record { stamp = t.stamp; value = none }) },
  )

  unfoldable pub pop : List Bool → ArrayQueue A → Option (Option A × ArrayQueue A)
  unfolding start_read read
  pop flags q = elim (start_read flags q) [
    | none ↦ none
    | some (none, q') ↦ some (none, q')
    | some (some t, q') ↦ some (read q' t)
  ]

  unfoldable pub is_empty : ArrayQueue A → Bool
  is_empty q = q.tail == q.head

  unfoldable pub is_full : ArrayQueue A → Bool
  is_full q = add64 q.head q.one_lap == q.tail

  -- The body of `len` and of `drop`, at a tail and a head that belong together.
  unfoldable pub len : ArrayQueue A → ℕ
  len q =
      if ltb (index_of q q.head) (index_of q q.tail)
      then index_of q q.tail - index_of q q.head
      else if ltb (index_of q q.tail) (index_of q q.head)
      then capacity q - index_of q q.head + index_of q q.tail
      else if q.tail == q.head
      then 0
      else capacity q

  -- The values that `drop` drops: `n` slots from index `i` on, going round at the capacity.
  unfoldable pub drop_from : ArrayQueue A → ℕ → ℕ → List (Option A)
  drop_from q zero i = []
  drop_from q (suc n) i =
      (get_or q.buffer (if ltb i (capacity q) then i else i - capacity q) no_slot).value
      ∷ drop_from q n (i + 1)

  unfoldable pub drop : ArrayQueue A → List (Option A)
  drop q = drop_from q (len q) (index_of q q.head)
