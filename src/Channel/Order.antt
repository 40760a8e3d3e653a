-- ===== src/Channel/Order.antt =====
-- src/blocking_tx.rs, blocking_rx.rs: what the receives of a channel answer against what its sends
-- answer.
use crossfire_rs.Prelude.{
  ◌+◌, ◌≤◌, ◌≡◌, refl, sym, ap, ◌∙◌, List, [], ◌++◌, length, length-append, append-nil,
  append_assoc, arith,
}
use crossfire_rs.Flavor.{Flavor}
use crossfire_rs.Ends.{Tx, Rx}
use crossfire_rs.Channel.{Channel}
use crossfire_rs.Channel.TxSteps.{tx_step, close_tx}
use crossfire_rs.Channel.RxSteps.{close_rx}
use crossfire_rs.Channel.System.{
  Step, sends, drops_tx, polls_tx, polls_rx, tx_moves, receives, drops_rx, rx_moves,
}
use crossfire_rs.Channel.History.{put, taken, Run, begin, next, tx_step-sends, rx_step-receives}

module _ {A : Type 0} where
  put-same : (tx : Tx A) → put tx tx ≡ []
  put-same tx = ground arith

  taken-same : (rx : Rx A) → taken rx rx ≡ []
  taken-same rx = ground arith

module _ {A : Type 0} {F : Flavor A} where
  Step-values :
      {s t : Channel F}
      → Step F s t
      → F.values s.queue ++ put s.tx t.tx ≡ taken s.rx t.rx ++ F.values t.queue
  unfolding close_tx close_rx
  Step-values {s} (sends a w v e h) =
      ground (arith, e, taken-same s.rx, append-nil (F.values s.queue))
  Step-values {s} (polls_tx a v e h) =
      ground (arith, e, taken-same s.rx, append-nil (F.values s.queue))
  Step-values {s} (drops_tx a e h) =
      ground (arith, e, taken-same s.rx, append-nil (F.values s.queue))
  Step-values {s} (tx_moves c) =
      let (same, moved) = tx_step-sends F c s.tx s refl in
      sym (
        ap (λ x. taken s.rx x ++ F.values (tx_step F c s.tx s).queue) same
        ∙ ap (λ x. x ++ F.values (tx_step F c s.tx s).queue) (taken-same s.rx)
        ∙ moved)
  Step-values {s} (receives a b e h) =
      ground (arith, e, put-same s.tx, append-nil (F.values s.queue))
  Step-values {s} (polls_rx a e h) = ground (arith, e, put-same s.tx, append-nil (F.values s.queue))
  Step-values {s} (drops_rx a e h) = ground (arith, e, put-same s.tx, append-nil (F.values s.queue))
  Step-values {s} (rx_moves c) =
      let (same, moved) = rx_step-receives F c s.rx s refl in
      ap (λ x. F.values s.queue ++ put s.tx x) same
      ∙ ap (λ x. F.values s.queue ++ x) (put-same s.tx)
      ∙ append-nil (F.values s.queue)
      ∙ moved

  Run-values : {xs ys : List A} {s : Channel F} → Run F xs ys s → xs ≡ ys ++ F.values s.queue
  Run-values (begin q e) = sym e
  Run-values (next {xs} {ys} {s} {t} r st) =
      ap (λ x. x ++ put s.tx t.tx) (Run-values r)
      ∙ append_assoc ys (F.values s.queue) (put s.tx t.tx)
      ∙ ap (λ x. ys ++ x) (Step-values st)
      ∙ sym (append_assoc ys (taken s.rx t.rx) (F.values t.queue))

  -- In every run of a channel of one sender and one receiver, which block or poll from call to
  -- call, over a queue that fulfils the laws of a flavor, the values of the sends that came to
  -- their answer `sent` are, in order, those of the receives that came to an answer, followed by
  -- those in the queue, and they are at most the capacity more.
  pub received_in_order :
      {xs ys : List A} {s : Channel F}
      → Run F xs ys s
      → (xs ≡ ys ++ F.values s.queue) × (length xs ≤ length ys + F.capacity)
  received_in_order {xs} {ys} {s} r =
      let e = Run-values r in
      (e, omega (arith, ap length e, length-append ys (F.values s.queue), F.values_le s.queue))
