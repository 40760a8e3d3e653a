-- ===== src/Ends.antt =====
-- src/blocking_tx.rs, blocking_rx.rs, async_tx.rs, async_rx.rs: where the one sender and the one
-- receiver of a channel stand between two accesses, and what their calls answer.
use crossfire_rs.Prelude.{ℕ, Bool, true, false}

-- What a call answers; `gone` is the end of the drop of a side.
pub data TxAnswer : Type 0 where
  sent disconnected timeout full gone : TxAnswer

pub data RxAnswer (A : Type 0) : Type 0 where
  received : A → RxAnswer A
  disconnected timeout empty gone : RxAnswer A

abbrev pub is_gone_tx : TxAnswer → Bool
is_gone_tx TxAnswer.gone = true
is_gone_tx _ = false

abbrev pub is_gone_rx : {A : Type 0} → RxAnswer A → Bool
is_gone_rx RxAnswer.gone = true
is_gone_rx _ = false

-- `RegistrySingle::_fire`: before it pops the cell, before it upgrades the waker, before it wakes.
pub data Fire : Type 0 where
  pop : Fire
  upgrade : ℕ → Fire
  wake : Fire

-- The sender in `poll_send`, with the item of its future: before it checks that the receiver is there;
-- before it tries; before it registers, checks again with `sender_double_check`, and checks that the
-- receiver is there; and between two polls.
pub data PollSend (A : Type 0) : Type 0 where
  enter : A → PollSend A
  try : A → PollSend A
  register : A → PollSend A
  oneshot : A → PollSend A
  confirm : A → PollSend A
  pending : A → PollSend A

-- The receiver in `poll_item`: before it tries, registers, tries again with `try_recv_final`, checks
-- that the sender is there, and tries for the last time; and between two polls.
pub data PollItem : Type 0 where
  try register final confirm last pending : PollItem

-- The sender, in `send` and `_send_bounded`: before it checks that the receiver is there; before it
-- tries, at once (`try_send`) or in the loop; before it registers, checks again with
-- `sender_double_check`, and checks that the receiver is there; where it parks; after `park`; in a future; and in
-- `on_send` or `close_tx`, with what the call then answers.
pub data Tx (A : Type 0) : Type 0 where
  returned : TxAnswer → Tx A
  enter : Bool → A → Tx A
  try_once : A → Tx A
  try : A → Tx A
  register : A → Tx A
  oneshot : A → Tx A
  confirm : A → Tx A
  wait : A → Tx A
  recheck : A → Tx A
  polling : PollSend A → Tx A
  fire : Fire → TxAnswer → Tx A

-- The receiver, in `_recv_blocking`, in `try_recv` of the shared state, and in a future.
pub data Rx (A : Type 0) : Type 0 where
  returned : RxAnswer A → Rx A
  enter : Rx A
  try_once : Rx A
  try_final : Rx A
  try : Rx A
  register : Rx A
  final : Rx A
  confirm : Rx A
  wait : Rx A
  recheck : Rx A
  last : Rx A
  polling : PollItem → Rx A
  fire : Fire → RxAnswer A → Rx A

-- What the environment decides at a step: a flag for the queue, whether the backoff goes on, whether
-- the deadline has passed or the future is dropped, whether `park` returns or a future
-- is polled for no reason, whether an old waker is still there.
pub record Choice : Type 0 where
  pub flag : Bool
  pub again : Bool
  pub expired : Bool
  pub spurious : Bool
  pub late : Bool
