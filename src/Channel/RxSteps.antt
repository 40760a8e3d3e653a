-- ===== src/Channel/RxSteps.antt =====
-- src/blocking_rx.rs, async_rx.rs and the receiving half of shared.rs: one access of the receiver.
use crossfire_rs.Prelude.{
  ◌+◌, ◌-◌, true, false, ◌&&◌, ◌||◌, Option, none, some, if◌then◌else◌, ◌==◌, leb,
}
use crossfire_rs.Flavor.{Flavor, is_some}
use crossfire_rs.Ends.{
  RxAnswer, received, empty, Fire, pop, upgrade, wake, PollItem, Rx, try_final, final, last, Choice,
}
use crossfire_rs.Channel.{Channel, is_tx_closed}

module _ {A : Type 0} (F : Flavor A) where
  abbrev rx_return : RxAnswer A → Channel F → Channel F
  rx_return a s = record s { rx = Rx.returned a; rx_held = false }

  -- `_reg_waker_blocking` and `_reg_waker_async`, for the receiver.
  abbrev rx_register : Channel F → Channel F
  rx_register s = record s {
    rx_waker = s.rx_waker + 1;
    recvs = some (s.rx_waker + 1);
    rx_held = true;
  }

  unfoldable pub rx_fire : Choice → Fire → RxAnswer A → Channel F → Channel F
  rx_fire c pop a s = elim s.senders [
    | none ↦ rx_return a s
    | some i ↦ record s { senders = none; rx = Rx.fire (upgrade i) a }
  ]
  rx_fire c (upgrade i) a s =
      if (i == s.tx_waker && s.tx_held) || c.late
      then record s { rx = Rx.fire wake a }
      else rx_return a s
  rx_fire c wake a s = rx_return a (record s { tx_token = true })

  -- A try of the receiver: it fires the sender if there was a value, or else goes on at `other`.
  abbrev rx_try : Option A × F.Queue → Channel F → Channel F → Channel F
  rx_try (some x, q) other s = record s { queue = q; rx = Rx.fire pop (received x) }
  rx_try (none, q) other s = record other { queue = q }

  -- One access of `poll_item`.
  unfoldable pub poll_item_step : Choice → PollItem → Channel F → Channel F
  poll_item_step c PollItem.try s =
      rx_try (F.try_recv c.flag s.queue)
        (record s { rx = Rx.polling (if c.again then PollItem.try else PollItem.register) }) s
  poll_item_step c PollItem.register s = record (rx_register s) { rx = Rx.polling PollItem.final }
  poll_item_step c PollItem.final s =
      rx_try (F.try_recv_final c.flag s.queue) (record s { rx = Rx.polling PollItem.confirm }) s
  poll_item_step c PollItem.confirm s = record s {
    rx = Rx.polling (if is_tx_closed F s then PollItem.last else PollItem.pending);
  }
  poll_item_step c PollItem.last s =
      rx_try (F.try_recv c.flag s.queue) (rx_return RxAnswer.disconnected s) s
  poll_item_step c PollItem.pending s =
      if c.expired
      then rx_return RxAnswer.timeout s
      else if s.rx_token || c.spurious
      then record s { rx_token = false; rx = Rx.polling PollItem.try }
      else record s { rx = Rx.polling PollItem.pending }

  -- One access of the receiver.
  unfoldable pub rx_step : Choice → Rx A → Channel F → Channel F
  unfolding rx_fire poll_item_step
  rx_step c (Rx.returned a) s = s
  rx_step c Rx.enter s = record s { rx = if is_tx_closed F s then try_final else Rx.try_once }
  rx_step c Rx.try_once s = rx_try (F.try_recv c.flag s.queue) (rx_return empty s) s
  rx_step c try_final s =
      rx_try (F.try_recv_final c.flag s.queue) (rx_return RxAnswer.disconnected s) s
  rx_step c Rx.try s =
      rx_try (F.try_recv c.flag s.queue) (record s { rx = if c.again then Rx.try else Rx.register })
        s
  rx_step c Rx.register s = record (rx_register s) { rx = final }
  rx_step c final s = rx_try (F.try_recv_final c.flag s.queue) (record s { rx = Rx.confirm }) s
  rx_step c Rx.confirm s = record s { rx = if is_tx_closed F s then last else Rx.wait }
  rx_step c Rx.wait s =
      if c.expired
      then rx_return RxAnswer.timeout s
      else if s.rx_token || c.spurious
      then record s { rx_token = false; rx = Rx.recheck }
      else s
  rx_step c Rx.recheck s = record s { rx = if is_some s.recvs then Rx.wait else Rx.try }
  rx_step c last s = rx_try (F.try_recv c.flag s.queue) (rx_return RxAnswer.disconnected s) s
  rx_step c (Rx.polling p) s = poll_item_step c p s
  rx_step c (Rx.fire f a) s = rx_fire c f a s

  unfoldable pub close_rx : Channel F → Channel F
  close_rx s =
      if leb s.rx_count 1
      then record s { rx_count = s.rx_count - 1; rx = Rx.fire pop RxAnswer.gone }
      else record s { rx_count = s.rx_count - 1; rx = Rx.returned RxAnswer.gone }
