-- ===== src/Channel/System.antt =====
-- The two ends of a channel at work at the same time, one access of one end at a time.
use crossfire_rs.Prelude.{◌≡◌, Bool, false, if◌then◌else◌}
use crossfire_rs.Flavor.{Flavor}
use crossfire_rs.Ends.{
  TxAnswer, RxAnswer, is_gone_tx, is_gone_rx, PollSend, PollItem, Tx, Rx, Choice,
}
use crossfire_rs.Channel.{Channel, new}
use crossfire_rs.Channel.TxSteps.{tx_step, close_tx}
use crossfire_rs.Channel.RxSteps.{rx_step, close_rx}

module _ {A : Type 0} (F : Flavor A) where
  pub data Step (s : Channel F) : Channel F → Type 0 where
    sends :
        (a : TxAnswer) (wait_for_room : Bool) (v : A)
        → s.tx ≡ Tx.returned a
        → is_gone_tx a ≡ false
        → Step s (record s { tx = Tx.enter wait_for_room v })
    polls_tx :
        (a : TxAnswer) (v : A)
        → s.tx ≡ Tx.returned a
        → is_gone_tx a ≡ false
        → Step s (record s { tx = Tx.polling (PollSend.enter v) })
    drops_tx : (a : TxAnswer) → s.tx ≡ Tx.returned a → is_gone_tx a ≡ false → Step s (close_tx F s)
    tx_moves : (c : Choice) → Step s (tx_step F c s.tx s)
    receives :
        (a : RxAnswer A) (blocking : Bool)
        → s.rx ≡ Rx.returned a
        → is_gone_rx a ≡ false
        → Step s (record s { rx = if blocking then Rx.try else Rx.enter })
    polls_rx :
        (a : RxAnswer A)
        → s.rx ≡ Rx.returned a
        → is_gone_rx a ≡ false
        → Step s (record s { rx = Rx.polling PollItem.try })
    drops_rx :
        (a : RxAnswer A) → s.rx ≡ Rx.returned a → is_gone_rx a ≡ false → Step s (close_rx F s)
    rx_moves : (c : Choice) → Step s (rx_step F c s.rx s)

  pub data Reach : Channel F → Type 0 where
    begin : (q : F.Queue) → Reach (new F q)
    next : {s t : Channel F} → Reach s → Step s t → Reach t
