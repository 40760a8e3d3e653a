-- ===== src/Channel/Inv.antt =====
-- src/shared.rs and the ends of a channel: what the two ends of a channel know of its state
-- while they register, wait and wake each other.
use crossfire_rs.Prelude.{ℕ, ◌≡◌, ◌≤◌, Bool, true, false, not, ◌||◌, none, some, ◌==◌, arith}
use crossfire_rs.Flavor.{Flavor, is_some, size}
use crossfire_rs.Ends.{
  TxAnswer, RxAnswer, Fire, upgrade, wake, Tx, Rx, oneshot, final, last, try_final, is_gone_tx,
  is_gone_rx, PollSend, PollItem,
}
use crossfire_rs.Channel.{Channel, new}

-- Where a waker is on its way: about to be popped; popped, and about to be woken.
abbrev pub popping : Fire → Bool
popping Fire.pop = true
popping _ = false

abbrev pub waking : ℕ → Fire → Bool
waking k Fire.pop = false
waking k (upgrade i) = i == k
waking k wake = true

module _ {A : Type 0} where
  abbrev pub tx_pops : Tx A → Bool
  tx_pops (Tx.fire f a) = popping f
  tx_pops _ = false

  abbrev pub tx_wakes : ℕ → Tx A → Bool
  tx_wakes k (Tx.fire f a) = waking k f
  tx_wakes k _ = false

  abbrev pub rx_pops : Rx A → Bool
  rx_pops (Rx.fire f a) = popping f
  rx_pops _ = false

  abbrev pub rx_wakes : ℕ → Rx A → Bool
  rx_wakes k (Rx.fire f a) = waking k f
  rx_wakes k _ = false

  -- Whether a side is dropped.
  abbrev pub tx_gone : Tx A → Bool
  tx_gone (Tx.returned a) = is_gone_tx a
  tx_gone (Tx.fire f a) = is_gone_tx a
  tx_gone _ = false

  abbrev pub rx_gone : Rx A → Bool
  rx_gone (Rx.returned a) = is_gone_rx a
  rx_gone (Rx.fire f a) = is_gone_rx a
  rx_gone _ = false

  -- Whether the receiver has a registered waker; still counts on being woken; has seen the queue
  -- empty since; has seen the sender there; or has seen it gone.
  abbrev pub rx_registered : Rx A → Bool
  rx_registered final = true
  rx_registered Rx.confirm = true
  rx_registered Rx.wait = true
  rx_registered Rx.recheck = true
  rx_registered (Rx.polling PollItem.final) = true
  rx_registered (Rx.polling PollItem.confirm) = true
  rx_registered (Rx.polling PollItem.pending) = true
  rx_registered _ = false

  abbrev pub rx_sleeps : Rx A → Bool
  rx_sleeps final = true
  rx_sleeps Rx.confirm = true
  rx_sleeps Rx.wait = true
  rx_sleeps (Rx.polling PollItem.final) = true
  rx_sleeps (Rx.polling PollItem.confirm) = true
  rx_sleeps (Rx.polling PollItem.pending) = true
  rx_sleeps _ = false

  abbrev pub rx_saw_empty : Rx A → Bool
  rx_saw_empty Rx.confirm = true
  rx_saw_empty Rx.wait = true
  rx_saw_empty Rx.recheck = true
  rx_saw_empty (Rx.polling PollItem.confirm) = true
  rx_saw_empty (Rx.polling PollItem.pending) = true
  rx_saw_empty _ = false

  abbrev pub rx_saw_open : Rx A → Bool
  rx_saw_open Rx.wait = true
  rx_saw_open Rx.recheck = true
  rx_saw_open (Rx.polling PollItem.pending) = true
  rx_saw_open _ = false

  abbrev pub rx_saw_closed : Rx A → Bool
  rx_saw_closed last = true
  rx_saw_closed try_final = true
  rx_saw_closed (Rx.polling PollItem.last) = true
  rx_saw_closed _ = false

  abbrev pub tx_registered : Tx A → Bool
  tx_registered (oneshot v) = true
  tx_registered (Tx.confirm v) = true
  tx_registered (Tx.wait v) = true
  tx_registered (Tx.recheck v) = true
  tx_registered (Tx.polling (PollSend.oneshot v)) = true
  tx_registered (Tx.polling (PollSend.confirm v)) = true
  tx_registered (Tx.polling (PollSend.pending v)) = true
  tx_registered _ = false

  abbrev pub tx_sleeps : Tx A → Bool
  tx_sleeps (oneshot v) = true
  tx_sleeps (Tx.confirm v) = true
  tx_sleeps (Tx.wait v) = true
  tx_sleeps (Tx.polling (PollSend.oneshot v)) = true
  tx_sleeps (Tx.polling (PollSend.confirm v)) = true
  tx_sleeps (Tx.polling (PollSend.pending v)) = true
  tx_sleeps _ = false

  abbrev pub tx_saw_full : Tx A → Bool
  tx_saw_full (Tx.confirm v) = true
  tx_saw_full (Tx.wait v) = true
  tx_saw_full (Tx.recheck v) = true
  tx_saw_full (Tx.polling (PollSend.confirm v)) = true
  tx_saw_full (Tx.polling (PollSend.pending v)) = true
  tx_saw_full _ = false

  abbrev pub tx_saw_open : Tx A → Bool
  tx_saw_open (Tx.wait v) = true
  tx_saw_open (Tx.recheck v) = true
  tx_saw_open (Tx.polling (PollSend.pending v)) = true
  tx_saw_open _ = false

  -- Whether a side waits to be woken: it parks, or its future is pending.
  abbrev pub rx_waits : Rx A → Bool
  rx_waits Rx.wait = true
  rx_waits (Rx.polling PollItem.pending) = true
  rx_waits _ = false

  abbrev pub tx_waits : Tx A → Bool
  tx_waits (Tx.wait v) = true
  tx_waits (Tx.polling (PollSend.pending v)) = true
  tx_waits _ = false

  -- What holds of a state with the sender at `tx` and the receiver at `rx`. A registered waker is the
  -- last one; while it is registered, the queue is empty (or full) and the other side is there, or
  -- the other side is about to pop it; and once it is popped, its owner is being woken.
  pub record Inv (F : Flavor A) (s : Channel F) (tx : Tx A) (rx : Rx A) : Type 0 where
    pub tx_counted : not (s.tx_count == 0) ≡ not (tx_gone tx)
    pub rx_counted : not (s.rx_count == 0) ≡ not (rx_gone rx)
    pub tx_at_most : s.tx_count ≤ 1
    pub rx_at_most : s.rx_count ≤ 1
    pub rx_last : (elim s.recvs [ none ↦ true | some k ↦ k == s.rx_waker ]) ≡ true
    pub tx_last : (elim s.senders [ none ↦ true | some k ↦ k == s.tx_waker ]) ≡ true
    pub rx_holds : not (rx_registered rx) || s.rx_held ≡ true
    pub tx_holds : not (tx_registered tx) || s.tx_held ≡ true
    pub rx_woken :
        not (rx_sleeps rx) || is_some s.recvs || s.rx_token || tx_wakes s.rx_waker tx ≡ true
    pub tx_woken :
        not (tx_sleeps tx) || is_some s.senders || s.tx_token || rx_wakes s.tx_waker rx ≡ true
    pub rx_empty :
        not (rx_saw_empty rx) || not (is_some s.recvs) || size F s.queue == 0 || tx_pops tx ≡ true
    pub tx_full :
        not (tx_saw_full tx)
          || not (is_some s.senders)
          || size F s.queue == F.capacity
          || rx_pops rx
        ≡ true
    pub rx_open :
        not (rx_saw_open rx) || not (is_some s.recvs) || s.tx_count == 1 || tx_pops tx ≡ true
    pub tx_open :
        not (tx_saw_open tx) || not (is_some s.senders) || s.rx_count == 1 || rx_pops rx ≡ true
    pub rx_closed : not (rx_saw_closed rx) || s.tx_count == 0 ≡ true

  pub Inv-new :
      (F : Flavor A) (q : F.Queue)
      → Inv F (new F q) (Tx.returned TxAnswer.sent) (Rx.returned RxAnswer.empty)
  Inv-new F q = ground arith
