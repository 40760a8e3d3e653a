-- ===== src/Channel/Deliver.antt =====
-- src/shared.rs, waker_registry.rs: a side on its way to wake the other does so within three steps.
use crossfire_rs.Prelude.{
  ℕ, ◌≡◌, sym, ◌∙◌, Bool, true, false, ◌||◌, Option, none, some, ◌==◌, leb, ltb, arith,
}
use crossfire_rs.Flavor.{Flavor, size}
use crossfire_rs.Ends.{TxAnswer, RxAnswer, Fire, upgrade, wake, Tx, Rx, Choice}
use crossfire_rs.Channel.{Channel}
use crossfire_rs.Channel.Inv.{Inv}
use crossfire_rs.Channel.Wake.{
  tx_move, rx_move, tx_keeps_token, tx_wake, tx_upgrade, tx_pop, rx_keeps_token, rx_wake,
  rx_upgrade, rx_pop,
}

-- Three steps of a side, with what the environment decides at each.
module _ {A : Type 0} (F : Flavor A) (c d e : Choice) where
  abbrev pub tx_three : Channel F → Channel F
  tx_three s = tx_move F e (tx_move F d (tx_move F c s))

  abbrev pub rx_three : Channel F → Channel F
  rx_three s = rx_move F e (rx_move F d (rx_move F c s))

  keep_three_tx : (s : Channel F) → s.rx_token ≡ true → (tx_three s).rx_token ≡ true
  keep_three_tx s h =
      let s1 = tx_move F c s in
      let s2 = tx_move F d s1 in
      tx_keeps_token F e s2.tx s2 (tx_keeps_token F d s1.tx s1 (tx_keeps_token F c s.tx s h))

  wake_three_tx :
      (a : TxAnswer) (s : Channel F) → s.tx ≡ Tx.fire wake a → (tx_three s).rx_token ≡ true
  wake_three_tx a s at =
      let s1 = tx_move F c s in
      let s2 = tx_move F d s1 in
      tx_keeps_token F e s2.tx s2 (tx_keeps_token F d s1.tx s1 (tx_wake F c a s at))

  upgrade_three_tx :
      (k : ℕ) (a : TxAnswer) (s : Channel F)
      → s.tx ≡ Tx.fire (upgrade k) a
      → k ≡ s.rx_waker
      → s.rx_held ≡ true
      → (tx_three s).rx_token ≡ true
  upgrade_three_tx k a s at same held =
      let s1 = tx_move F c s in
      let s2 = tx_move F d s1 in
      tx_keeps_token F e s2.tx s2 (tx_wake F d a s1 (tx_upgrade F c k a s at same held))

  pop_three_tx :
      (k : ℕ) (a : TxAnswer) (s : Channel F)
      → s.tx ≡ Tx.fire Fire.pop a
      → s.recvs ≡ some k
      → k ≡ s.rx_waker
      → s.rx_held ≡ true
      → (tx_three s).rx_token ≡ true
  pop_three_tx k a s at there same held =
      let s1 = tx_move F c s in
      let (at1, waker, holds) = tx_pop F c k a s at there in
      tx_wake F e a (tx_move F d s1) (tx_upgrade F d k a s1 at1 (same ∙ sym waker) (holds ∙ held))

  pub tx_delivers :
      (s : Channel F) (tx : Tx A) (recvs : Option ℕ) (token : Bool)
      → s.tx ≡ tx
      → s.recvs ≡ recvs
      → s.rx_token ≡ token
      → Inv F s tx Rx.wait
      → leb 1 (size F s.queue) || s.tx_count == 0 ≡ true
      → (tx_three s).rx_token ≡ true
  tx_delivers s tx recvs true at cell tok i due = keep_three_tx s tok
  tx_delivers s (Tx.fire wake a) recvs false at cell tok i due = wake_three_tx a s at
  tx_delivers s (Tx.fire (upgrade k) a) none false at cell tok i due =
      upgrade_three_tx k a s at (ground (arith, i, cell, tok)) (ground (arith, i))
  tx_delivers s (Tx.fire (upgrade k) a) (some j) false at cell tok i due =
      absurd (ground (arith, i, cell, tok, due))
  tx_delivers s (Tx.fire Fire.pop a) none false at cell tok i due =
      absurd (ground (arith, i, cell, tok))
  tx_delivers s (Tx.fire Fire.pop a) (some k) false at cell tok i due =
      pop_three_tx k a s at cell (ground (arith, i, cell)) (ground (arith, i))
  tx_delivers s tx recvs false at cell tok i due = absurd (ground (arith, i, cell, tok, due))

  keep_three_rx : (s : Channel F) → s.tx_token ≡ true → (rx_three s).tx_token ≡ true
  keep_three_rx s h =
      let s1 = rx_move F c s in
      let s2 = rx_move F d s1 in
      rx_keeps_token F e s2.rx s2 (rx_keeps_token F d s1.rx s1 (rx_keeps_token F c s.rx s h))

  wake_three_rx :
      (a : RxAnswer A) (s : Channel F) → s.rx ≡ Rx.fire wake a → (rx_three s).tx_token ≡ true
  wake_three_rx a s at =
      let s1 = rx_move F c s in
      let s2 = rx_move F d s1 in
      rx_keeps_token F e s2.rx s2 (rx_keeps_token F d s1.rx s1 (rx_wake F c a s at))

  upgrade_three_rx :
      (k : ℕ) (a : RxAnswer A) (s : Channel F)
      → s.rx ≡ Rx.fire (upgrade k) a
      → k ≡ s.tx_waker
      → s.tx_held ≡ true
      → (rx_three s).tx_token ≡ true
  upgrade_three_rx k a s at same held =
      let s1 = rx_move F c s in
      let s2 = rx_move F d s1 in
      rx_keeps_token F e s2.rx s2 (rx_wake F d a s1 (rx_upgrade F c k a s at same held))

  pop_three_rx :
      (k : ℕ) (a : RxAnswer A) (s : Channel F)
      → s.rx ≡ Rx.fire Fire.pop a
      → s.senders ≡ some k
      → k ≡ s.tx_waker
      → s.tx_held ≡ true
      → (rx_three s).tx_token ≡ true
  pop_three_rx k a s at there same held =
      let s1 = rx_move F c s in
      let (at1, waker, holds) = rx_pop F c k a s at there in
      rx_wake F e a (rx_move F d s1) (rx_upgrade F d k a s1 at1 (same ∙ sym waker) (holds ∙ held))

  pub rx_delivers :
      (v : A) (s : Channel F) (rx : Rx A) (senders : Option ℕ) (token : Bool)
      → s.rx ≡ rx
      → s.senders ≡ senders
      → s.tx_token ≡ token
      → Inv F s (Tx.wait v) rx
      → ltb (size F s.queue) F.capacity || s.rx_count == 0 ≡ true
      → (rx_three s).tx_token ≡ true
  rx_delivers v s rx senders true at cell tok i due = keep_three_rx s tok
  rx_delivers v s (Rx.fire wake a) senders false at cell tok i due = wake_three_rx a s at
  rx_delivers v s (Rx.fire (upgrade k) a) none false at cell tok i due =
      upgrade_three_rx k a s at (ground (arith, i, cell, tok)) (ground (arith, i))
  rx_delivers v s (Rx.fire (upgrade k) a) (some j) false at cell tok i due =
      absurd (ground (arith, i, cell, tok, due))
  rx_delivers v s (Rx.fire Fire.pop a) none false at cell tok i due =
      absurd (ground (arith, i, cell, tok))
  rx_delivers v s (Rx.fire Fire.pop a) (some k) false at cell tok i due =
      pop_three_rx k a s at cell (ground (arith, i, cell)) (ground (arith, i))
  rx_delivers v s rx senders false at cell tok i due = absurd (ground (arith, i, cell, tok, due))
