-- ===== src/Channel/TxSteps.antt =====
-- src/blocking_tx.rs, async_tx.rs and the sending half of shared.rs: one access of the sender.
use crossfire_rs.Prelude.{
  ◌+◌, ◌-◌, Bool, true, false, ◌&&◌, ◌||◌, Option, none, some, if◌then◌else◌, ◌==◌, leb,
}
use crossfire_rs.Flavor.{Flavor, is_some}
use crossfire_rs.Ends.{
  TxAnswer, sent, full, Fire, pop, upgrade, wake, PollSend, Tx, oneshot, Choice,
}
use crossfire_rs.Channel.{Channel, is_rx_closed}

module _ {A : Type 0} (F : Flavor A) where
  -- A call returns, and drops its waker.
  abbrev tx_return : TxAnswer → Channel F → Channel F
  tx_return a s = record s { tx = Tx.returned a; tx_held = false }

  -- `_reg_waker_blocking` and `_reg_waker_async`: a new waker in the cell, in place of the one before.
  abbrev tx_register : Channel F → Channel F
  tx_register s = record s {
    tx_waker = s.tx_waker + 1;
    senders = some (s.tx_waker + 1);
    tx_held = true;
  }

  -- `sender_double_check`, up to the check that the receiver is there, at `waiting`: it fires if there
  -- was room, and drops the waker and goes on at `retry` if it is not known whether there is.
  abbrev sender_double_check : Option Bool × F.Queue → Tx A → Tx A → Channel F → Channel F
  sender_double_check (none, q) retry waiting s = record s {
    queue = q;
    tx_held = false;
    tx = retry;
  }
  sender_double_check (some true, q) retry waiting s = record s { queue = q; tx = Tx.fire pop sent }
  sender_double_check (some false, q) retry waiting s = record s { queue = q; tx = waiting }

  -- The sender fires the cell of the receiver.
  unfoldable pub tx_fire : Choice → Fire → TxAnswer → Channel F → Channel F
  tx_fire c pop a s = elim s.recvs [
    | none ↦ tx_return a s
    | some i ↦ record s { recvs = none; tx = Tx.fire (upgrade i) a }
  ]
  tx_fire c (upgrade i) a s =
      if (i == s.rx_waker && s.rx_held) || c.late
      then record s { tx = Tx.fire wake a }
      else tx_return a s
  tx_fire c wake a s = tx_return a (record s { rx_token = true })

  -- One access of `poll_send`; a poll takes the token of the task.
  unfoldable pub poll_send_step : Choice → PollSend A → Channel F → Channel F
  poll_send_step c (PollSend.enter v) s =
      if is_rx_closed F s
      then tx_return TxAnswer.disconnected s
      else record s { tx = Tx.polling (PollSend.try v) }
  poll_send_step c (PollSend.try v) s =
      let (done, q) = F.try_send c.flag v s.queue in
      if done then record s { queue = q; tx = Tx.fire pop sent } else record s {
        queue = q;
        tx = Tx.polling (if c.again then PollSend.try v else PollSend.register v);
      }
  poll_send_step c (PollSend.register v) s = record (tx_register s) {
    tx = Tx.polling (PollSend.oneshot v);
  }
  poll_send_step c (PollSend.oneshot v) s =
      sender_double_check (F.try_send_oneshot c.flag v s.queue) (Tx.polling (PollSend.try v))
        (Tx.polling (PollSend.confirm v)) s
  poll_send_step c (PollSend.confirm v) s =
      if is_rx_closed F s
      then tx_return TxAnswer.disconnected s
      else record s { tx = Tx.polling (PollSend.pending v) }
  poll_send_step c (PollSend.pending v) s =
      if c.expired
      then tx_return TxAnswer.timeout s
      else if s.tx_token || c.spurious
      then record s { tx_token = false; tx = Tx.polling (PollSend.enter v) }
      else record s { tx = Tx.polling (PollSend.pending v) }

  -- One access of the sender.
  unfoldable pub tx_step : Choice → Tx A → Channel F → Channel F
  unfolding tx_fire poll_send_step
  tx_step c (Tx.returned a) s = s
  tx_step c (Tx.enter wait_for_room v) s =
      if is_rx_closed F s
      then tx_return TxAnswer.disconnected s
      else if wait_for_room
      then record s { tx = Tx.try v }
      else record s { tx = Tx.try_once v }
  tx_step c (Tx.try_once v) s =
      let (done, q) = F.try_send c.flag v s.queue in
      if done
      then record s { queue = q; tx = Tx.fire pop sent }
      else tx_return full (record s { queue = q })
  tx_step c (Tx.try v) s =
      let (done, q) = F.try_send c.flag v s.queue in
      if done
      then record s { queue = q; tx = Tx.fire pop sent }
      else record s { queue = q; tx = if c.again then Tx.try v else Tx.register v }
  tx_step c (Tx.register v) s = record (tx_register s) { tx = oneshot v }
  tx_step c (oneshot v) s =
      sender_double_check (F.try_send_oneshot c.flag v s.queue) (Tx.try v) (Tx.confirm v) s
  tx_step c (Tx.confirm v) s =
      if is_rx_closed F s then tx_return TxAnswer.disconnected s else record s { tx = Tx.wait v }
  tx_step c (Tx.wait v) s =
      if c.expired
      then tx_return TxAnswer.timeout s
      else if s.tx_token || c.spurious
      then record s { tx_token = false; tx = Tx.recheck v }
      else s
  tx_step c (Tx.recheck v) s = record s { tx = if is_some s.senders then Tx.wait v else Tx.try v }
  tx_step c (Tx.polling p) s = poll_send_step c p s
  tx_step c (Tx.fire f a) s = tx_fire c f a s

  -- `Drop for Tx`, which is `close_tx`: the old count, and the fire if it was the last.
  unfoldable pub close_tx : Channel F → Channel F
  close_tx s =
      if leb s.tx_count 1
      then record s { tx_count = s.tx_count - 1; tx = Tx.fire pop TxAnswer.gone }
      else record s { tx_count = s.tx_count - 1; tx = Tx.returned TxAnswer.gone }
