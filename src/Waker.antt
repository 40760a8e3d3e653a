-- ===== src/Waker.antt =====
-- src/waker.rs: the state of one registered waiter, and the atomic operations on it.
--
-- `AtomicU8` holds a number; `to_u8` is the cast of the enum. A `compare_exchange_weak` may fail
-- although the values agree: the flag `spurious` says whether it does. A loop over such an exchange
-- takes the flags of its rounds as a list, and answers `none` if the list ends before the loop.
pub mod Laws
pub mod Race
use crossfire_rs.Prelude.{
  ℕ, ◌+◌, Bool, true, false, not, ◌&&◌, Option, none, some, List, [], ◌∷◌, if◌then◌else◌, ◌==◌, ltb,
  leb, bit_and,
}

pub data WakerState : Type 0 where
  init waiting woken closed done : WakerState

abbrev pub to_u8 : WakerState → ℕ
to_u8 init = 0
to_u8 waiting = 1
to_u8 woken = 3
to_u8 closed = 4
to_u8 done = 5

pub data WakeResult : Type 0 where
  woken sent next skip : WakeResult

abbrev result_code : WakeResult → ℕ
result_code WakeResult.woken = 1
result_code sent = 3
result_code next = 2
result_code skip = 4

-- `is_done` tests the bit of `WakeResult::Woken`.
unfoldable pub is_done : WakeResult → Bool
is_done r = ltb 0 (bit_and (result_code r) 1)

-- Whom the waker resumes: a task of the runtime, or a thread.
pub data ThinWaker : Type 0 where
  async : ℕ → ThinWaker
  blocking : ℕ → ThinWaker

-- `wakes` counts the calls of `wake_by_ref`, the effect that the runtime or the thread sees.
pub record WakerInner : Type 0 where
  pub state : ℕ
  pub seq : ℕ
  pub waker : ThinWaker
  pub wakes : ℕ

unfoldable pub new_waker : ThinWaker → WakerInner
new_waker t = record { state = to_u8 init; seq = 0; waker = t; wakes = 0 }

-- `none` is the `unreachable!` of a blocking waker.
unfoldable pub will_wake : WakerInner → ℕ → Option Bool
will_wake w task = elim w.waker [ async t ↦ some (t == task) | blocking t ↦ none ]

unfoldable pub set_seq : WakerInner → ℕ → WakerInner
set_seq w s = record w { seq = s }

unfoldable pub reset_init : WakerInner → WakerInner
reset_init w = record w { state = to_u8 init }

unfoldable pub wake_by_ref : WakerInner → WakerInner
wake_by_ref w = record w { wakes = w.wakes + 1 }

pub data Changed : Type 0 where
  ok : ℕ → Changed
  err : ℕ → Changed

-- A strong exchange: `ok` of the old state, or `err` of the state found.
unfoldable pub try_change_state : WakerState → WakerState → WakerInner → Changed × WakerInner
try_change_state cur new_state w =
    if w.state == to_u8 cur
    then (ok (to_u8 cur), record w { state = to_u8 new_state })
    else (err w.state, w)

unfoldable pub commit_waiting : WakerInner → ℕ × WakerInner
unfolding try_change_state
commit_waiting w =
    let (r, w') = try_change_state init waiting w in
    elim r [ ok _ ↦ (to_u8 waiting, w') | err s ↦ (s, w') ]

-- The loop of `change_state_smaller_eq`, from the expected state `state`.
unfoldable pub change_loop :
    List Bool → ℕ → WakerState → WakerState → WakerInner → Option (Changed × WakerInner)
change_loop [] state condition target w = none
change_loop (spurious ∷ flags) state condition target w =
    let again = change_loop flags w.state condition target w in
    if w.state == state && not spurious
    then some (ok state, record w { state = to_u8 target })
    else if ltb (to_u8 condition) w.state
    then some (err w.state, w)
    else again

unfoldable pub change_state_smaller_eq :
    List Bool → WakerState → WakerState → WakerInner → Option (Changed × WakerInner)
unfolding change_loop
change_state_smaller_eq flags condition target w =
    change_loop flags (to_u8 condition) condition target w

unfoldable pub abandon : List Bool → WakerInner → Option (Changed × WakerInner)
unfolding change_state_smaller_eq
abandon flags w = change_state_smaller_eq flags waiting closed w

unfoldable pub close_wake : List Bool → WakerInner → Option (Bool × WakerInner)
unfolding change_state_smaller_eq wake_by_ref
close_wake flags w = elim (change_state_smaller_eq flags waiting closed w) [
  | none ↦ none
  | some (r, w') ↦ elim r [ ok _ ↦ some (true, wake_by_ref w') | err _ ↦ some (false, w') ]
]

-- One round of the loop of `wake`: `state` was loaded earlier, and `w` is what the round finds.
pub data Round : Type 0 where
  return : WakeResult → WakerInner → Round
  retry : ℕ → Round

unfoldable pub wake_round : Bool → ℕ → WakerInner → Round
unfolding wake_by_ref
wake_round spurious state w =
    if leb (to_u8 WakerState.woken) state
    then return skip w
    else if state == to_u8 waiting
    then return WakeResult.woken (wake_by_ref (record w { state = to_u8 WakerState.woken }))
    else if w.state == to_u8 init && not spurious
    then return next (wake_by_ref (record w { state = to_u8 WakerState.woken }))
    else retry w.state

unfoldable pub wake_loop : List Bool → ℕ → WakerInner → Option (WakeResult × WakerInner)
unfolding wake_round
wake_loop [] state w = none
wake_loop (spurious ∷ flags) state w = elim (wake_round spurious state w) [
  | return r w' ↦ some (r, w')
  | retry s ↦ wake_loop flags s w
]

unfoldable pub wake : List Bool → WakerInner → Option (WakeResult × WakerInner)
unfolding wake_loop
wake flags w = wake_loop flags w.state w
