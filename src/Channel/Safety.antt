-- ===== src/Channel/Safety.antt =====
-- src/shared.rs, the ends of a channel and waker_registry.rs: a sender and a receiver that wait are woken
-- when the other side has done what they wait for.
use crossfire_rs.Prelude.{◌≡◌, refl, true, false, ◌||◌, ◌⊎◌, inl, inr, ◌==◌, leb, ltb, arith}
use crossfire_rs.Flavor.{Flavor, size}
use crossfire_rs.Ends.{RxAnswer, Tx, Rx, last, try_final, Choice, PollSend, PollItem}
use crossfire_rs.Channel.{Channel}
use crossfire_rs.Channel.RxSteps.{poll_item_step, rx_step}
use crossfire_rs.Channel.System.{Reach}
use crossfire_rs.Channel.Inv.{Inv, rx_waits, tx_waits}
use crossfire_rs.Channel.Sound.{rx_at, Reach-Sound}
use crossfire_rs.Channel.Deliver.{tx_three, rx_three, tx_delivers, rx_delivers}

-- A side that waits knows the same, whether it parks or its future is pending.
module _ {A : Type 0} {F : Flavor A} {s : Channel F} where
  rx_as_wait : {tx : Tx A} (rx : Rx A) → rx_waits rx ≡ true → Inv F s tx rx → Inv F s tx Rx.wait
  rx_as_wait Rx.wait at i = i
  rx_as_wait (Rx.polling PollItem.pending) at i = ground (arith, i)
  rx_as_wait rx at i = absurd (ground (arith, at))

  tx_as_wait :
      {rx : Rx A} (tx : Tx A)
      → tx_waits tx ≡ true
      → Inv F s tx rx
      → (v : A) × Inv F s (Tx.wait v) rx
  tx_as_wait (Tx.wait v) at i = (v, i)
  tx_as_wait (Tx.polling (PollSend.pending v)) at i = (v, ground (arith, i))
  tx_as_wait tx at i = absurd (ground (arith, at))

module _ {A : Type 0} {F : Flavor A} {s : Channel F} (r : Reach F s) where
  -- In every state that a channel of one sender and one receiver, which block or poll from call
  -- to call, reaches over a queue that fulfils the laws of a flavor, if the receiver is at `park`
  -- or its future is pending, and the queue holds a value or the sender is dropped, then after
  -- three more steps of the sender at most the token of the receiver's thread or task is set,
  -- whatever the environment decides.
  pub waiting_receiver_woken :
      (c d e : Choice)
      → rx_waits s.rx ≡ true
      → leb 1 (size F s.queue) || s.tx_count == 0 ≡ true
      → (tx_three F c d e s).rx_token ≡ true
  waiting_receiver_woken c d e at due =
      tx_delivers F c d e s s.tx s.recvs s.rx_token refl refl refl
        (rx_as_wait s.rx at (Reach-Sound r)) due

  -- In every state that a channel of one sender and one receiver, which block or poll from call
  -- to call, reaches over a queue that fulfils the laws of a flavor, if the sender is at `park`
  -- or its future is pending, and the queue has room or the receiver is dropped, then after three
  -- more steps of the receiver at most the token of the sender's thread or task is set, whatever
  -- the environment decides.
  pub waiting_sender_woken :
      (c d e : Choice)
      → tx_waits s.tx ≡ true
      → ltb (size F s.queue) F.capacity || s.rx_count == 0 ≡ true
      → (rx_three F c d e s).tx_token ≡ true
  waiting_sender_woken c d e at due =
      let (v, i) = tx_as_wait s.tx at (Reach-Sound r) in
      rx_delivers F c d e v s s.rx s.senders s.tx_token refl refl refl i due

  -- If the sender and the receiver of a channel that they reach over a queue that fulfils the
  -- laws of a flavor both wait, in `park` or with a pending future, the token of one of them is
  -- set.
  pub no_deadlock : tx_waits s.tx ≡ true → rx_waits s.rx ≡ true → s.tx_token || s.rx_token ≡ true
  no_deadlock et er =
      let (v, i) = tx_as_wait s.tx et (Reach-Sound r) in
      ground (arith, rx_as_wait s.rx er i, F.capacity_pos)

  -- A receiver of a channel over a queue that fulfils the laws of a flavor answers
  -- `Disconnected`, in `try_recv`, after a wait or in a poll, only if the sender is dropped and
  -- the queue is empty, where the last try of a wait or a poll does not fail for no reason.
  pub disconnected_exact :
      (c : Choice) (rx : Rx A)
      → s.rx ≡ rx
      → (rx ≡ try_final) ⊎ (((rx ≡ last) ⊎ (rx ≡ Rx.polling PollItem.last)) × (c.flag ≡ false))
      → (rx_step F c rx s).rx ≡ Rx.returned RxAnswer.disconnected
      → (s.tx_count ≡ 0) × (size F s.queue ≡ 0)
  unfolding rx_step poll_item_step
  disconnected_exact c rx at (inl e) answer =
      ground (arith, answer, e, rx_at at (Reach-Sound r), F.final_empty c.flag s.queue)
  disconnected_exact c rx at (inr (inl e, fresh)) answer =
      ground (arith, answer, e, fresh, rx_at at (Reach-Sound r), F.try_recv_empty s.queue)
  disconnected_exact c rx at (inr (inr e, fresh)) answer =
      ground (arith, answer, e, fresh, rx_at at (Reach-Sound r), F.try_recv_empty s.queue)
