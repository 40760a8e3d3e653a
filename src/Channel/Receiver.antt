-- ===== src/Channel/Receiver.antt =====
-- src/blocking_rx.rs, async_rx.rs: every step of the receiver keeps what the two ends of a channel know.
use mathlib.Core.Path.{subst}
use crossfire_rs.Prelude.{sym, ◌≡◌, false, arith}
use crossfire_rs.Flavor.{Flavor, size-try_recv, size-final}
use crossfire_rs.Ends.{
  RxAnswer, Fire, upgrade, wake, Rx, final, last, try_final, Choice, is_gone_rx, PollItem,
}
use crossfire_rs.Channel.{Channel}
use crossfire_rs.Channel.RxSteps.{rx_fire, rx_step, poll_item_step, close_rx}
use crossfire_rs.Channel.Inv.{Inv}

module _ {A : Type 0} (F : Flavor A) (c : Choice) (s : Channel F) where
  rx_fire-Inv :
      (f : Fire) (a : RxAnswer A)
      → Inv F s s.tx (Rx.fire f a)
      → Inv F (rx_fire F c f a s) (rx_fire F c f a s).tx (rx_fire F c f a s).rx
  unfolding rx_fire
  rx_fire-Inv Fire.pop a i = ground (arith, i)
  rx_fire-Inv (upgrade k) a i = ground (arith, i)
  rx_fire-Inv wake a i = ground (arith, i)

  poll_item_step-Inv :
      (p : PollItem)
      → Inv F s s.tx (Rx.polling p)
      → Inv F (poll_item_step F c p s) (poll_item_step F c p s).tx (poll_item_step F c p s).rx
  unfolding poll_item_step
  poll_item_step-Inv PollItem.try i = ground (arith, i, size-try_recv F c.flag s.queue)
  poll_item_step-Inv PollItem.register i = ground (arith, i)
  poll_item_step-Inv PollItem.final i =
      ground (arith, i, size-final F c.flag s.queue, F.final_empty c.flag s.queue)
  poll_item_step-Inv PollItem.confirm i = ground (arith, i)
  poll_item_step-Inv PollItem.last i = ground (arith, i, size-try_recv F c.flag s.queue)
  poll_item_step-Inv PollItem.pending i = ground (arith, i)

  pub rx_step-Inv :
      (rx : Rx A)
      → s.rx ≡ rx
      → Inv F s s.tx rx
      → Inv F (rx_step F c rx s) (rx_step F c rx s).tx (rx_step F c rx s).rx
  unfolding rx_step
  rx_step-Inv (Rx.returned a) e i = subst (λ x. Inv F s s.tx x) (sym e) i
  rx_step-Inv Rx.enter e i = ground (arith, i)
  rx_step-Inv Rx.try_once e i = ground (arith, i, size-try_recv F c.flag s.queue)
  rx_step-Inv try_final e i = ground (arith, i, size-final F c.flag s.queue)
  rx_step-Inv Rx.try e i = ground (arith, i, size-try_recv F c.flag s.queue)
  rx_step-Inv Rx.register e i = ground (arith, i)
  rx_step-Inv final e i =
      ground (arith, i, size-final F c.flag s.queue, F.final_empty c.flag s.queue)
  rx_step-Inv Rx.confirm e i = ground (arith, i)
  rx_step-Inv Rx.wait e i = ground (arith, i, e)
  rx_step-Inv Rx.recheck e i = ground (arith, i)
  rx_step-Inv last e i = ground (arith, i, size-try_recv F c.flag s.queue)
  rx_step-Inv (Rx.polling p) e i = poll_item_step-Inv p i
  rx_step-Inv (Rx.fire f a) e i = rx_fire-Inv f a i

module _ {A : Type 0} (F : Flavor A) (s : Channel F) where
  pub close_rx-Inv :
      (a : RxAnswer A)
      → is_gone_rx a ≡ false
      → Inv F s s.tx (Rx.returned a)
      → Inv F (close_rx F s) (close_rx F s).tx (close_rx F s).rx
  unfolding close_rx
  close_rx-Inv a here i = ground (arith, i)
