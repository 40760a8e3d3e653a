-- ===== src/Oneshot.antt =====
-- src/oneshot.rs: the two ends of a oneshot channel, one access to shared memory at a time.
--
-- The byte `state` is kept as its four flags, since the code only reads and writes it through the
-- constants LOCK_FLAG, WAKER_SET_FLAG, CLOSE_FLAG and EXIST_FLAG: `state & LOCK_FLAG > 0` is the
-- field `lock`, and an exchange compares all four. A position (`Tx`, `Rx`) is a place in the code
-- between two accesses, with the local variables that are live there. The position `fault` is a
-- panic, an `unwrap` of none, an `unreachable!` or a `debug_assert` that fails; `debug` is whether
-- debug assertions are compiled in, and without them the code goes on.
pub mod System
pub mod Inv
pub mod Safety
use crossfire_rs.Prelude.{
  ℕ, ◌+◌, Bool, true, false, not, ◌&&◌, ◌||◌, Option, none, some, if◌then◌else◌, ◌==◌,
}
use crossfire_rs.Waker.{ThinWaker, async, blocking}

pub record Flags : Type 0 where
  pub lock : Bool
  pub waker_set : Bool
  pub close : Bool
  pub exist : Bool

abbrev pub no_flags : Flags
no_flags = record { lock = false; waker_set = false; close = false; exist = false }

abbrev pub only_waker : Flags
only_waker = record { lock = false; waker_set = true; close = false; exist = false }

abbrev pub only_close : Flags
only_close = record { lock = false; waker_set = false; close = true; exist = false }

abbrev same : Bool → Bool → Bool
same true b = b
same false b = not b

abbrev pub same_flags : Flags → Flags → Bool
same_flags a b =
    same a.lock b.lock
    && same a.waker_set b.waker_set
    && same a.close b.close
    && same a.exist b.exist

-- `frees` counts how often the box was freed, and `woken` is the waker last woken.
pub record Inner (A : Type 0) : Type 0 where
  pub state : Flags
  pub value : Option A
  pub o_waker : Option ThinWaker
  pub frees : ℕ
  pub woken : Option ThinWaker

-- The sender: `ready` before `send` or `drop`; `exchange` before the first exchange of
-- `_notify_rx`; `waking` and `closing` after it found a waker; `freeing` where `_notify_rx`
-- answered true; `ended` with whether the sender freed the box.
pub data Tx : Type 0 where
  ready : Tx
  exchange : Flags → Tx
  waking : Flags → Tx
  closing : Flags → Tx
  freeing : Tx
  ended : Bool → Tx
  fault : Tx

-- The receiver: `idle` between two calls, with whether a `poll` left its waker registered;
-- `finished` with the answer of the call that took the box; `repeated` where a later call found no
-- box, and answered that the channel is disconnected.
pub data Rx (A : Type 0) : Type 0 where
  idle : Bool → Rx A
  poll_check : Flags → ℕ → Rx A
  poll_cancel : ℕ → Rx A
  poll_put : ℕ → Rx A
  poll_set : Rx A
  recv_spin : Bool → Rx A
  recv_put : Bool → Rx A
  recv_set : Bool → Rx A
  recv_wait : Bool → Rx A
  recv_check : Bool → Rx A
  recv_cancel : Rx A
  consume : Flags → Rx A
  consuming : Flags → Option A → Rx A
  finished : Option A → Rx A
  repeated : Option A → Rx A
  timed_out : Rx A
  dropped : Rx A
  fault : Rx A

-- The calls that a receiver accepts. `recv` is `recv_timeout` where its flag is set.
pub data Call : Type 0 where
  try_recv : Call
  poll : ℕ → Call
  recv : Bool → Call
  drop : Call

-- What the environment decides at a step: the next call, whether the backoff of a blocking receive
-- goes on, whether its deadline has passed, and the thread that it runs on.
pub record Choice : Type 0 where
  pub call : Call
  pub snooze : Bool
  pub expired : Bool
  pub thread : ℕ

module _ {A : Type 0} where
  abbrev set_state : Flags → Inner A → Inner A
  set_state f i = record i { state = f }

  unfoldable pub new : Inner A
  new = record { state = no_flags; value = none; o_waker = none; frees = 0; woken = none }

  abbrev pub exists : Option A → Bool
  exists none = false
  exists (some _) = true

  unfoldable pub is_empty : Inner A → Bool
  is_empty i = not i.state.exist

  unfoldable pub is_disconnected : Inner A → Bool
  is_disconnected i = i.state.close

  abbrev free : Inner A → Inner A
  free i = record i { frees = i.frees + 1 }

  -- The loop of `_notify_rx`, up to its first exchange that succeeds.
  unfoldable pub notify_exchange : Bool → Bool → Flags → Inner A → Tx × Inner A
  notify_exchange spurious exist old i =
      if same_flags old no_flags
      then (if same_flags i.state old && not spurious
          then (
            ended false,
            set_state (record no_flags { lock = true; close = true; exist = exist }) i,
          )
          else (exchange i.state, i))
      else if same_flags old only_waker
      then (let locked = record only_waker { lock = true; exist = exist } in
          if same_flags i.state old && not spurious
          then (waking locked, set_state locked i)
          else (exchange i.state, i))
      else if old.close
      then (freeing, i)
      else (Tx.fault, i)

  -- `wake_by_ref` on the registered waker.
  unfoldable pub notify_wake : Flags → Inner A → Tx × Inner A
  notify_wake locked i = elim i.o_waker [
    | none ↦ (Tx.fault, i)
    | some w ↦ (closing locked, record i { woken = some w })
  ]

  -- The second exchange of `_notify_rx`.
  unfoldable pub notify_close : Bool → Bool → Flags → Inner A → Tx × Inner A
  notify_close debug exist locked i =
      if same_flags i.state locked
      then (ended false, set_state (record no_flags { lock = true; close = true; exist = exist }) i)
      else if i.state.close || not debug
      then (freeing, i)
      else (Tx.fault, i)

  -- One access of the sender: `send` of the item of `plan`, or `drop` where there is none.
  unfoldable pub tx_step : Bool → Option A → Bool → Tx → Inner A → Tx × Inner A
  unfolding notify_exchange notify_wake notify_close
  tx_step debug none spurious ready i = (exchange no_flags, i)
  tx_step debug (some item) spurious ready i = (exchange no_flags, record i { value = some item })
  tx_step debug plan spurious (exchange old) i = notify_exchange spurious (exists plan) old i
  tx_step debug plan spurious (waking locked) i = notify_wake locked i
  tx_step debug plan spurious (closing locked) i = notify_close debug (exists plan) locked i
  tx_step debug plan spurious freeing i = (ended true, free i)
  tx_step debug plan spurious (ended f) i = (ended f, i)
  tx_step debug plan spurious fault i = (Tx.fault, i)

  -- The load of `_try_recv`: the position where a value is ready, or else `other`.
  unfoldable pub load_state : Rx A → Inner A → Rx A
  load_state other i = if i.state.lock then consume i.state else other

  -- The exchange of `set_waker`, after the waker is stored.
  unfoldable pub set_waker : Rx A → Inner A → Rx A × Inner A
  set_waker other i =
      if same_flags i.state no_flags then (other, set_state only_waker i) else (consume i.state, i)

  -- The exchange of `cancel_waker`.
  unfoldable pub cancel_waker : Bool → Rx A → Inner A → Rx A × Inner A
  cancel_waker abandon other i =
      if same_flags i.state only_waker
      then (other, set_state (if abandon then only_close else no_flags) i)
      else (consume i.state, i)

  -- The first part of `_consume_value`: its assertion, and the value taken.
  unfoldable pub consume_take : Bool → Flags → Inner A → Rx A × Inner A
  consume_take debug s i =
      if s.lock || not debug
      then (if s.exist
          then (consuming s i.value, record i { value = none })
          else (consuming s none, i))
      else (Rx.fault, i)

  -- One round of the loop of `_consume_value`.
  unfoldable pub consume_close : Flags → Option A → Inner A → Rx A × Inner A
  consume_close s item i =
      if s.close
      then (finished item, free i)
      else if same_flags i.state s
      then (finished item, set_state (record s { close = true }) i)
      else (consuming i.state item, i)

  -- `Drop for RxOneshot`, with its assertions.
  unfoldable pub rx_drop : Bool → Inner A → Rx A × Inner A
  rx_drop debug i =
      let i' = set_state (record i.state { close = true }) i in
      if i.state.close
      then (if i.state.lock && not i.state.waker_set || not debug
          then (dropped, free i')
          else (Rx.fault, i'))
      else (if not i.state.lock && not i.state.exist
            || i.state.lock && i.state.waker_set
            || not debug
          then (dropped, i')
          else (Rx.fault, i'))

  -- The start of a call.
  unfoldable pub rx_call : Bool → Call → Bool → Inner A → Rx A × Inner A
  unfolding load_state rx_drop
  rx_call debug try_recv polled i = (load_state (idle polled) i, i)
  rx_call debug (poll task) polled i = (load_state (poll_check i.state task) i, i)
  rx_call debug (recv timed) polled i = (load_state (recv_spin timed) i, i)
  rx_call debug drop polled i = rx_drop debug i

  -- `poll` after a load that found no value.
  unfoldable pub poll_waker : Flags → ℕ → Inner A → Rx A
  poll_waker s task i =
      if s.waker_set
      then elim i.o_waker [
        | none ↦ Rx.fault
        | some (async t) ↦ if t == task then idle true else poll_cancel task
        | some (blocking t) ↦ Rx.fault
      ]
      else poll_put task

  -- A call after the answer: the receiver has no box.
  abbrev pub no_box : Call → Option A → Rx A
  no_box drop item = finished item
  no_box _ item = repeated item

  -- One access of the receiver.
  unfoldable pub rx_step : Bool → Choice → Rx A → Inner A → Rx A × Inner A
  unfolding rx_call poll_waker load_state set_waker cancel_waker consume_take consume_close
  rx_step debug c (idle polled) i = rx_call debug c.call polled i
  rx_step debug c (poll_check s task) i = (poll_waker s task i, i)
  rx_step debug c (poll_cancel task) i = cancel_waker false (poll_put task) i
  rx_step debug c (poll_put task) i = (poll_set, record i { o_waker = some (async task) })
  rx_step debug c poll_set i = set_waker (idle true) i
  rx_step debug c (recv_spin timed) i =
      (load_state (if c.snooze then recv_spin timed else recv_put timed) i, i)
  rx_step debug c (recv_put timed) i =
      (recv_set timed, record i { o_waker = some (blocking c.thread) })
  rx_step debug c (recv_set timed) i = set_waker (recv_wait timed) i
  rx_step debug c (recv_wait timed) i = (load_state (recv_check timed) i, i)
  rx_step debug c (recv_check timed) i =
      (if timed && c.expired then recv_cancel else recv_wait timed, i)
  rx_step debug c recv_cancel i = cancel_waker true timed_out i
  rx_step debug c (consume s) i = consume_take debug s i
  rx_step debug c (consuming s item) i = consume_close s item i
  rx_step debug c (finished item) i = (no_box c.call item, i)
  rx_step debug c (repeated item) i = (repeated item, i)
  rx_step debug c timed_out i = (timed_out, i)
  rx_step debug c dropped i = (dropped, i)
  rx_step debug c fault i = (Rx.fault, i)
