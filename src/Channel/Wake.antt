-- ===== src/Channel/Wake.antt =====
-- src/shared.rs, waker_registry.rs: the sender on its way to wake a receiver that waits, and the
-- receiver on its way to wake a sender.
use crossfire_rs.Prelude.{ℕ, ◌≡◌, refl, true, some, arith}
use crossfire_rs.Flavor.{Flavor}
use crossfire_rs.Ends.{
  TxAnswer, RxAnswer, Fire, upgrade, wake, Tx, Rx, oneshot, final, last, try_final, Choice,
  PollSend, PollItem,
}
use crossfire_rs.Channel.{Channel}
use crossfire_rs.Channel.TxSteps.{tx_fire, tx_step, poll_send_step}
use crossfire_rs.Channel.RxSteps.{rx_fire, rx_step, poll_item_step}

module _ {A : Type 0} (F : Flavor A) (c : Choice) where
  abbrev pub tx_move : Channel F → Channel F
  tx_move s = tx_step F c s.tx s

  abbrev pub rx_move : Channel F → Channel F
  rx_move s = rx_step F c s.rx s

  fire_keeps_rx_token :
      (f : Fire) (a : TxAnswer) (s : Channel F)
      → s.rx_token ≡ true
      → (tx_fire F c f a s).rx_token ≡ true
  unfolding tx_fire
  fire_keeps_rx_token Fire.pop a s e = ground (arith, e)
  fire_keeps_rx_token (upgrade k) a s e = ground (arith, e)
  fire_keeps_rx_token wake a s e = refl

  poll_keeps_rx_token :
      (p : PollSend A) (s : Channel F)
      → s.rx_token ≡ true
      → (poll_send_step F c p s).rx_token ≡ true
  unfolding poll_send_step
  poll_keeps_rx_token (PollSend.enter v) s e = ground (arith, e)
  poll_keeps_rx_token (PollSend.try v) s e = ground (arith, e)
  poll_keeps_rx_token (PollSend.register v) s e = e
  poll_keeps_rx_token (PollSend.oneshot v) s e = ground (arith, e)
  poll_keeps_rx_token (PollSend.confirm v) s e = ground (arith, e)
  poll_keeps_rx_token (PollSend.pending v) s e = ground (arith, e)

  pub tx_keeps_token :
      (tx : Tx A) (s : Channel F) → s.rx_token ≡ true → (tx_step F c tx s).rx_token ≡ true
  unfolding tx_step
  tx_keeps_token (Tx.returned a) s e = e
  tx_keeps_token (Tx.enter wait_for_room v) s e = ground (arith, e)
  tx_keeps_token (Tx.try_once v) s e = ground (arith, e)
  tx_keeps_token (Tx.try v) s e = ground (arith, e)
  tx_keeps_token (Tx.register v) s e = e
  tx_keeps_token (oneshot v) s e = ground (arith, e)
  tx_keeps_token (Tx.confirm v) s e = ground (arith, e)
  tx_keeps_token (Tx.wait v) s e = ground (arith, e)
  tx_keeps_token (Tx.recheck v) s e = e
  tx_keeps_token (Tx.polling p) s e = poll_keeps_rx_token p s e
  tx_keeps_token (Tx.fire f a) s e = fire_keeps_rx_token f a s e

  pub tx_wake : (a : TxAnswer) (s : Channel F) → s.tx ≡ Tx.fire wake a → (tx_move s).rx_token ≡ true
  unfolding tx_step tx_fire
  tx_wake a s e = ground (arith, e)

  pub tx_upgrade :
      (k : ℕ) (a : TxAnswer) (s : Channel F)
      → s.tx ≡ Tx.fire (upgrade k) a
      → k ≡ s.rx_waker
      → s.rx_held ≡ true
      → (tx_move s).tx ≡ Tx.fire wake a
  unfolding tx_step tx_fire
  tx_upgrade k a s e same held = ground (arith, e)

  pub tx_pop :
      (k : ℕ) (a : TxAnswer) (s : Channel F)
      → s.tx ≡ Tx.fire Fire.pop a
      → s.recvs ≡ some k
      → ((tx_move s).tx ≡ Tx.fire (upgrade k) a)
        × ((tx_move s).rx_waker ≡ s.rx_waker)
        × ((tx_move s).rx_held ≡ s.rx_held)
  unfolding tx_step tx_fire
  tx_pop k a s e there = ground (arith, e)

  fire_keeps_tx_token :
      (f : Fire) (a : RxAnswer A) (s : Channel F)
      → s.tx_token ≡ true
      → (rx_fire F c f a s).tx_token ≡ true
  unfolding rx_fire
  fire_keeps_tx_token Fire.pop a s e = ground (arith, e)
  fire_keeps_tx_token (upgrade k) a s e = ground (arith, e)
  fire_keeps_tx_token wake a s e = refl

  poll_keeps_tx_token :
      (p : PollItem) (s : Channel F) → s.tx_token ≡ true → (poll_item_step F c p s).tx_token ≡ true
  unfolding poll_item_step
  poll_keeps_tx_token PollItem.try s e = ground (arith, e)
  poll_keeps_tx_token PollItem.register s e = e
  poll_keeps_tx_token PollItem.final s e = ground (arith, e)
  poll_keeps_tx_token PollItem.confirm s e = e
  poll_keeps_tx_token PollItem.last s e = ground (arith, e)
  poll_keeps_tx_token PollItem.pending s e = ground (arith, e)

  pub rx_keeps_token :
      (rx : Rx A) (s : Channel F) → s.tx_token ≡ true → (rx_step F c rx s).tx_token ≡ true
  unfolding rx_step
  rx_keeps_token (Rx.returned a) s e = e
  rx_keeps_token Rx.enter s e = ground (arith, e)
  rx_keeps_token Rx.try_once s e = ground (arith, e)
  rx_keeps_token try_final s e = ground (arith, e)
  rx_keeps_token Rx.try s e = ground (arith, e)
  rx_keeps_token Rx.register s e = e
  rx_keeps_token final s e = ground (arith, e)
  rx_keeps_token Rx.confirm s e = e
  rx_keeps_token Rx.wait s e = ground (arith, e)
  rx_keeps_token Rx.recheck s e = e
  rx_keeps_token last s e = ground (arith, e)
  rx_keeps_token (Rx.polling p) s e = poll_keeps_tx_token p s e
  rx_keeps_token (Rx.fire f a) s e = fire_keeps_tx_token f a s e

  pub rx_wake :
      (a : RxAnswer A) (s : Channel F) → s.rx ≡ Rx.fire wake a → (rx_move s).tx_token ≡ true
  unfolding rx_step rx_fire
  rx_wake a s e = ground (arith, e)

  pub rx_upgrade :
      (k : ℕ) (a : RxAnswer A) (s : Channel F)
      → s.rx ≡ Rx.fire (upgrade k) a
      → k ≡ s.tx_waker
      → s.tx_held ≡ true
      → (rx_move s).rx ≡ Rx.fire wake a
  unfolding rx_step rx_fire
  rx_upgrade k a s e same held = ground (arith, e)

  pub rx_pop :
      (k : ℕ) (a : RxAnswer A) (s : Channel F)
      → s.rx ≡ Rx.fire Fire.pop a
      → s.senders ≡ some k
      → ((rx_move s).rx ≡ Rx.fire (upgrade k) a)
        × ((rx_move s).tx_waker ≡ s.tx_waker)
        × ((rx_move s).tx_held ≡ s.tx_held)
  unfolding rx_step rx_fire
  rx_pop k a s e there = ground (arith, e)
