-- ===== src/Channel/History.antt =====
-- src/blocking_tx.rs, blocking_rx.rs, async_tx.rs, async_rx.rs: the values that the sends and the receives of a channel answer
-- for, in order.
use crossfire_rs.Prelude.{
  ◌≡◌, Bool, true, false, List, [], ◌∷◌, ◌++◌, if◌then◌else◌, append-nil, arith,
}
use crossfire_rs.Flavor.{Flavor}
use crossfire_rs.Ends.{
  TxAnswer, sent, RxAnswer, received, Fire, upgrade, wake, Tx, Rx, oneshot, final, last, try_final,
  Choice, PollSend, PollItem,
}
use crossfire_rs.Channel.{Channel, new}
use crossfire_rs.Channel.TxSteps.{poll_send_step, tx_step, tx_fire}
use crossfire_rs.Channel.RxSteps.{poll_item_step, rx_step, rx_fire}
use crossfire_rs.Channel.System.{Step}

module _ {A : Type 0} where
  -- The value of the call in hand.
  abbrev pub offered : Tx A → List A
  offered (Tx.try_once v) = v ∷ []
  offered (Tx.try v) = v ∷ []
  offered (oneshot v) = v ∷ []
  offered (Tx.polling (PollSend.try v)) = v ∷ []
  offered (Tx.polling (PollSend.oneshot v)) = v ∷ []
  offered _ = []

  abbrev pub sent_from : List A → Tx A → List A
  sent_from vs (Tx.fire f sent) = vs
  sent_from vs _ = []

  -- What the sender has sent by going from one position to the next: the value of its call, where
  -- the call comes to its answer `sent`.
  abbrev pub put : Tx A → Tx A → List A
  put tx next_tx = sent_from (offered tx) next_tx

  abbrev pub is_firing : Rx A → Bool
  is_firing (Rx.fire f a) = true
  is_firing _ = false

  abbrev pub received_at : Rx A → List A
  received_at (Rx.fire f (received x)) = x ∷ []
  received_at _ = []

  -- What the receiver has received: the value of an answer that its call comes to.
  abbrev pub taken : Rx A → Rx A → List A
  taken rx next_rx = if is_firing rx then [] else received_at next_rx

-- A run of a channel, with the values sent and the values received.
pub data Run {A : Type 0} (F : Flavor A) : List A → List A → Channel F → Type 0 where
  begin : (q : F.Queue) → F.values q ≡ [] → Run F [] [] (new F q)
  next :
      {xs ys : List A} {s t : Channel F}
      → Run F xs ys s
      → Step F s t
      → Run F (xs ++ put s.tx t.tx) (ys ++ taken s.rx t.rx) t

module _ {A : Type 0} (F : Flavor A) (c : Choice) where
  tx_fire-rx :
      (f : Fire) (a : TxAnswer) (s : Channel F)
      → ((tx_fire F c f a s).rx ≡ s.rx) × ((tx_fire F c f a s).queue ≡ s.queue)
  unfolding tx_fire
  tx_fire-rx Fire.pop a s = ground arith
  tx_fire-rx (upgrade k) a s = ground arith
  tx_fire-rx wake a s = ground arith

  poll_send_step-sends :
      (p : PollSend A) (s : Channel F)
      → ((poll_send_step F c p s).rx ≡ s.rx)
        × (F.values (poll_send_step F c p s).queue
            ≡ F.values s.queue ++ put (Tx.polling p) (poll_send_step F c p s).tx)
  unfolding poll_send_step
  poll_send_step-sends (PollSend.enter v) s = ground (arith, append-nil (F.values s.queue))
  poll_send_step-sends (PollSend.try v) s =
      ground (arith, F.try_send_values c.flag v s.queue, append-nil (F.values s.queue))
  poll_send_step-sends (PollSend.register v) s = ground (arith, append-nil (F.values s.queue))
  poll_send_step-sends (PollSend.oneshot v) s =
      ground (arith, F.oneshot_values c.flag v s.queue, append-nil (F.values s.queue))
  poll_send_step-sends (PollSend.confirm v) s = ground (arith, append-nil (F.values s.queue))
  poll_send_step-sends (PollSend.pending v) s = ground (arith, append-nil (F.values s.queue))

  pub tx_step-sends :
      (tx : Tx A) (s : Channel F)
      → s.tx ≡ tx
      → ((tx_step F c tx s).rx ≡ s.rx)
        × (F.values (tx_step F c tx s).queue ≡ F.values s.queue ++ put tx (tx_step F c tx s).tx)
  unfolding tx_step
  tx_step-sends (Tx.returned a) s e = ground (arith, e, append-nil (F.values s.queue))
  tx_step-sends (Tx.enter wait_for_room v) s e = ground (arith, append-nil (F.values s.queue))
  tx_step-sends (Tx.try_once v) s e =
      ground (arith, F.try_send_values c.flag v s.queue, append-nil (F.values s.queue))
  tx_step-sends (Tx.try v) s e =
      ground (arith, F.try_send_values c.flag v s.queue, append-nil (F.values s.queue))
  tx_step-sends (Tx.register v) s e = ground (arith, append-nil (F.values s.queue))
  tx_step-sends (oneshot v) s e =
      ground (arith, F.oneshot_values c.flag v s.queue, append-nil (F.values s.queue))
  tx_step-sends (Tx.confirm v) s e = ground (arith, append-nil (F.values s.queue))
  tx_step-sends (Tx.wait v) s e = ground (arith, e, append-nil (F.values s.queue))
  tx_step-sends (Tx.recheck v) s e = ground (arith, append-nil (F.values s.queue))
  tx_step-sends (Tx.polling p) s e = poll_send_step-sends p s
  tx_step-sends (Tx.fire f a) s e = ground (arith, tx_fire-rx f a s, append-nil (F.values s.queue))

  rx_fire-tx :
      (f : Fire) (a : RxAnswer A) (s : Channel F)
      → ((rx_fire F c f a s).tx ≡ s.tx) × ((rx_fire F c f a s).queue ≡ s.queue)
  unfolding rx_fire
  rx_fire-tx Fire.pop a s = ground arith
  rx_fire-tx (upgrade k) a s = ground arith
  rx_fire-tx wake a s = ground arith

  poll_item_step-receives :
      (p : PollItem) (s : Channel F)
      → ((poll_item_step F c p s).tx ≡ s.tx)
        × (F.values s.queue
            ≡ taken (Rx.polling p) (poll_item_step F c p s).rx
              ++ F.values (poll_item_step F c p s).queue)
  unfolding poll_item_step
  poll_item_step-receives PollItem.try s = ground (arith, F.try_recv_values c.flag s.queue)
  poll_item_step-receives PollItem.register s = ground arith
  poll_item_step-receives PollItem.final s = ground (arith, F.final_values c.flag s.queue)
  poll_item_step-receives PollItem.confirm s = ground arith
  poll_item_step-receives PollItem.last s = ground (arith, F.try_recv_values c.flag s.queue)
  poll_item_step-receives PollItem.pending s = ground arith

  pub rx_step-receives :
      (rx : Rx A) (s : Channel F)
      → s.rx ≡ rx
      → ((rx_step F c rx s).tx ≡ s.tx)
        × (F.values s.queue ≡ taken rx (rx_step F c rx s).rx ++ F.values (rx_step F c rx s).queue)
  unfolding rx_step
  rx_step-receives (Rx.returned a) s e = ground (arith, e)
  rx_step-receives Rx.enter s e = ground arith
  rx_step-receives Rx.try_once s e = ground (arith, F.try_recv_values c.flag s.queue)
  rx_step-receives try_final s e = ground (arith, F.final_values c.flag s.queue)
  rx_step-receives Rx.try s e = ground (arith, F.try_recv_values c.flag s.queue)
  rx_step-receives Rx.register s e = ground arith
  rx_step-receives final s e = ground (arith, F.final_values c.flag s.queue)
  rx_step-receives Rx.confirm s e = ground arith
  rx_step-receives Rx.wait s e = ground (arith, e)
  rx_step-receives Rx.recheck s e = ground arith
  rx_step-receives last s e = ground (arith, F.try_recv_values c.flag s.queue)
  rx_step-receives (Rx.polling p) s e = poll_item_step-receives p s
  rx_step-receives (Rx.fire f a) s e = ground (arith, rx_fire-tx f a s)
