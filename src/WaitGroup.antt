-- ===== src/WaitGroup.antt =====
-- src/waitgroup.rs: the word of a wait group and the operations on it, one access at a time.
--
-- The word has 64 bits: WAKER_FLAG_SET is bit 63, WAKER_FLAG_LOCK bit 62, and the rest counts the
-- references. `x & COUNT_MASK` is `x % 2 ^ 62`, `x & WAKER_FLAG_MASK` is `x / 2 ^ 62 * 2 ^ 62`, and
-- `flag | count` is a sum, since a count has no bit in common with a flag.
pub mod State
pub mod System
pub mod Inv
pub mod Keep
pub mod Safety
use crossfire_rs.Prelude.{
  ℕ, ◌+◌, ◌-◌, ◌*◌, ◌/◌, ◌%◌, ◌^◌, Bool, true, false, not, ◌&&◌, ◌||◌, Option, none, some,
  if◌then◌else◌, ◌==◌, ltb, leb,
}

abbrev pub waker_flag_set : ℕ
waker_flag_set = 2 ^ 63

abbrev pub waker_flag_lock : ℕ
waker_flag_lock = 2 ^ 62

abbrev pub count : ℕ → ℕ
count s = s % 2 ^ 62

abbrev pub waker_flag : ℕ → ℕ
waker_flag s = s / 2 ^ 62 * 2 ^ 62

abbrev pub is_locked : ℕ → Bool
is_locked s = ltb 0 (s / 2 ^ 62 % 2)

abbrev pub has_waker : ℕ → Bool
has_waker s = ltb 0 (s / 2 ^ 63 % 2)

abbrev pub try_lock : ℕ → ℕ
try_lock s = waker_flag_lock + count s

unfoldable pub is_last : ℕ → ℕ → Bool
is_last delta s = not (waker_flag s == waker_flag_lock) && count s == delta

-- What the owner sees of the word, whose own reference counts too: `get_left`; and `try_wait`, with
-- the threshold of the group, which `WaitGroup::new` makes one more than the one it is given.
abbrev pub get_left : ℕ → ℕ
get_left s = count s - 1

abbrev pub own_threshold : ℕ → ℕ
own_threshold threshold = threshold + 1

abbrev pub try_wait : ℕ → ℕ → Bool
try_wait threshold s = leb (count s) threshold

-- Whether to lock, and the new word; `none` is the panic on underflow.
unfoldable pub try_done : ℕ → ℕ → ℕ → Option (Bool × ℕ)
try_done delta threshold s =
    if ltb (count s) delta
    then none
    else if leb (count s - delta) threshold && waker_flag s == waker_flag_set
    then some (true, waker_flag_lock + (count s - delta))
    else some (false, waker_flag s + (count s - delta))

-- `fetch_add` of `add`; `none` is the panic on overflow.
unfoldable pub add : ℕ → ℕ → Option ℕ
add n s = if leb (2 ^ 62 - 1 - 2) (count s) then none else some (s + n)

-- One round of the loop of `done`: `state` was loaded earlier, and `word` is what the round finds.
pub data Done : Type 0 where
  panic : Done
  last : Done
  locked : ℕ → Done
  released : ℕ → Done
  retry : ℕ → Done

unfoldable pub done_round : Bool → Bool → ℕ → ℕ → ℕ → ℕ → Done
unfolding is_last try_done
done_round owner_ship spurious n threshold state word =
    if owner_ship && is_last n state
    then (if word == state then last else retry word)
    else elim (try_done n threshold state) [
      | none ↦ panic
      | some (b, s) ↦
          (if word == state && not spurious
            then (if b then locked s else released s)
            else retry word)
    ]

-- `fetch_and(!WAKER_FLAG_MASK)`, `fetch_xor(WAKER_FLAG_MASK)` and `fetch_or(WAKER_FLAG_SET)`.
abbrev pub clear_flags : ℕ → ℕ
clear_flags s = count s

abbrev pub swap_flags : ℕ → ℕ
swap_flags s = (3 - s / 2 ^ 62) * 2 ^ 62 + count s

abbrev pub set_flag : ℕ → ℕ
set_flag s = if has_waker s then s else s + waker_flag_set

-- The decision of `try_set_waker` on a word `state` that it loaded, where its exchange would find
-- `word`: the threshold is met; look again; keep the waker that is set; lock, to replace it; or
-- store the first.
pub data Decision : Type 0 where
  met again skip lock store : Decision

unfoldable pub set_waker_round : Bool → ℕ → Bool → ℕ → ℕ → Decision
set_waker_round spurious threshold may_skip state word =
    if leb (count state) threshold
    then met
    else if is_locked state
    then again
    else if has_waker state
    then (if may_skip then skip else if word == state && not spurious then lock else again)
    else store
