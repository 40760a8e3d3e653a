-- ===== src/Channel/Sender.antt =====
-- src/blocking_tx.rs, async_tx.rs: every step of the sender keeps what the two ends of a channel know.
use mathlib.Core.Path.{subst}
use crossfire_rs.Prelude.{sym, ◌≡◌, false, arith}
use crossfire_rs.Flavor.{Flavor, size-try_send, size-oneshot}
use crossfire_rs.Ends.{TxAnswer, Fire, upgrade, wake, Tx, oneshot, Choice, is_gone_tx, PollSend}
use crossfire_rs.Channel.{Channel}
use crossfire_rs.Channel.TxSteps.{tx_fire, tx_step, poll_send_step, close_tx}
use crossfire_rs.Channel.Inv.{Inv}

module _ {A : Type 0} (F : Flavor A) (c : Choice) (s : Channel F) where
  tx_fire-Inv :
      (f : Fire) (a : TxAnswer)
      → Inv F s (Tx.fire f a) s.rx
      → Inv F (tx_fire F c f a s) (tx_fire F c f a s).tx (tx_fire F c f a s).rx
  unfolding tx_fire
  tx_fire-Inv Fire.pop a i = ground (arith, i)
  tx_fire-Inv (upgrade k) a i = ground (arith, i)
  tx_fire-Inv wake a i = ground (arith, i)

  poll_send_step-Inv :
      (p : PollSend A)
      → Inv F s (Tx.polling p) s.rx
      → Inv F (poll_send_step F c p s) (poll_send_step F c p s).tx (poll_send_step F c p s).rx
  unfolding poll_send_step
  poll_send_step-Inv (PollSend.enter v) i = ground (arith, i)
  poll_send_step-Inv (PollSend.try v) i = ground (arith, i, size-try_send F c.flag v s.queue)
  poll_send_step-Inv (PollSend.register v) i = ground (arith, i)
  poll_send_step-Inv (PollSend.oneshot v) i =
      ground (arith, i, size-oneshot F c.flag v s.queue, F.oneshot_full c.flag v s.queue)
  poll_send_step-Inv (PollSend.confirm v) i = ground (arith, i)
  poll_send_step-Inv (PollSend.pending v) i = ground (arith, i)

  pub tx_step-Inv :
      (tx : Tx A)
      → s.tx ≡ tx
      → Inv F s tx s.rx
      → Inv F (tx_step F c tx s) (tx_step F c tx s).tx (tx_step F c tx s).rx
  unfolding tx_step
  tx_step-Inv (Tx.returned a) e i = subst (λ x. Inv F s x s.rx) (sym e) i
  tx_step-Inv (Tx.enter wait_for_room v) e i = ground (arith, i)
  tx_step-Inv (Tx.try_once v) e i = ground (arith, i, size-try_send F c.flag v s.queue)
  tx_step-Inv (Tx.try v) e i = ground (arith, i, size-try_send F c.flag v s.queue)
  tx_step-Inv (Tx.register v) e i = ground (arith, i)
  tx_step-Inv (oneshot v) e i =
      ground (arith, i, size-oneshot F c.flag v s.queue, F.oneshot_full c.flag v s.queue)
  tx_step-Inv (Tx.confirm v) e i = ground (arith, i)
  tx_step-Inv (Tx.wait v) e i = ground (arith, i, e)
  tx_step-Inv (Tx.recheck v) e i = ground (arith, i)
  tx_step-Inv (Tx.polling p) e i = poll_send_step-Inv p i
  tx_step-Inv (Tx.fire f a) e i = tx_fire-Inv f a i

module _ {A : Type 0} (F : Flavor A) (s : Channel F) where
  pub close_tx-Inv :
      (a : TxAnswer)
      → is_gone_tx a ≡ false
      → Inv F s (Tx.returned a) s.rx
      → Inv F (close_tx F s) (close_tx F s).tx (close_tx F s).rx
  unfolding close_tx
  close_tx-Inv a here i = ground (arith, i)
