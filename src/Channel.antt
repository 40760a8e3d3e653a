-- ===== src/Channel.antt =====
-- src/shared.rs, blocking_tx.rs, blocking_rx.rs, async_tx.rs, async_rx.rs, collections.rs and
-- `RegistrySingle` of waker_registry.rs: a bounded channel of one sender and one receiver, each of
-- which blocks or polls from call to call.
--
-- Each side registers its waker in a cell (`WeakCell`) that the other pops. A waker is named by the
-- number of the registration that made it, and only the last one is held by its owner: `upgrade`
-- finds it, and may find an older one that is about to be dropped, if the environment says so. To
-- wake is to set the token of `park`, or of the one task that polls.
pub mod TxSteps
pub mod RxSteps
pub mod System
pub mod Inv
pub mod Sender
pub mod Receiver
pub mod Wake
pub mod Sound
pub mod Deliver
pub mod History
pub mod Order
pub mod Safety
use crossfire_rs.Prelude.{
  ℕ, ◌+◌, ◌-◌, ◌≡◌, ◌<◌, Bool, true, false, not, ◌&&◌, ◌||◌, Option, none, some, if◌then◌else◌,
  ◌==◌, leb,
}
use crossfire_rs.Flavor.{Flavor, is_some}
use crossfire_rs.Ends.{
  TxAnswer, sent, full, RxAnswer, received, empty, is_gone_tx, is_gone_rx, Fire, pop, upgrade, wake,
  PollSend, PollItem, Tx, oneshot, Rx, try_final, final, last, Choice,
}

module _ {A : Type 0} (F : Flavor A) where
  pub record Channel : Type 0 where
    pub queue : F.Queue
    pub tx_count : ℕ
    pub rx_count : ℕ
    pub recvs : Option ℕ
    pub senders : Option ℕ
    pub rx_waker : ℕ
    pub tx_waker : ℕ
    pub rx_held : Bool
    pub tx_held : Bool
    pub rx_token : Bool
    pub tx_token : Bool
    pub tx : Tx A
    pub rx : Rx A

  abbrev pub new : F.Queue → Channel
  new q = record {
    queue = q;
    tx_count = 1;
    rx_count = 1;
    recvs = none;
    senders = none;
    rx_waker = 0;
    tx_waker = 0;
    rx_held = false;
    tx_held = false;
    rx_token = false;
    tx_token = false;
    tx = Tx.returned sent;
    rx = Rx.returned empty;
  }

  abbrev pub is_tx_closed : Channel → Bool
  is_tx_closed s = s.tx_count == 0

  abbrev pub is_rx_closed : Channel → Bool
  is_rx_closed s = s.rx_count == 0
