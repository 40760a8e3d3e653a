-- ===== src/Channel/Sound.antt =====
-- src/shared.rs, blocking_tx.rs, blocking_rx.rs: in every state that a channel reaches, its two ends
-- know what they need of it.
use mathlib.Core.Path.{subst}
use crossfire_rs.Prelude.{◌≡◌, refl, true, false, arith}
use crossfire_rs.Flavor.{Flavor}
use crossfire_rs.Ends.{Tx, Rx}
use crossfire_rs.Channel.{Channel}
use crossfire_rs.Channel.System.{
  Step, sends, drops_tx, polls_tx, polls_rx, tx_moves, receives, drops_rx, rx_moves, Reach, begin,
  next,
}
use crossfire_rs.Channel.Inv.{Inv, Inv-new}
use crossfire_rs.Channel.Sender.{tx_step-Inv, close_tx-Inv}
use crossfire_rs.Channel.Receiver.{rx_step-Inv, close_rx-Inv}

module _ {A : Type 0} {F : Flavor A} where
  abbrev pub Sound : Channel F → Type 0
  Sound s = Inv F s s.tx s.rx

  pub tx_at : {s : Channel F} {tx : Tx A} → s.tx ≡ tx → Sound s → Inv F s tx s.rx
  tx_at {s} e i = subst (λ x. Inv F s x s.rx) e i

  pub rx_at : {s : Channel F} {rx : Rx A} → s.rx ≡ rx → Sound s → Inv F s s.tx rx
  rx_at {s} e i = subst (λ x. Inv F s s.tx x) e i

  Step-Sound : {s t : Channel F} → Step F s t → Sound s → Sound t
  Step-Sound (sends a wait_for_room v e here) i = ground (arith, tx_at e i)
  Step-Sound (polls_tx a v e here) i = ground (arith, tx_at e i)
  Step-Sound {s} (drops_tx a e here) i = close_tx-Inv F s a here (tx_at e i)
  Step-Sound {s} (tx_moves c) i = tx_step-Inv F c s s.tx refl i
  Step-Sound (receives a true e here) i = ground (arith, rx_at e i)
  Step-Sound (receives a false e here) i = ground (arith, rx_at e i)
  Step-Sound (polls_rx a e here) i = ground (arith, rx_at e i)
  Step-Sound {s} (drops_rx a e here) i = close_rx-Inv F s a here (rx_at e i)
  Step-Sound {s} (rx_moves c) i = rx_step-Inv F c s s.rx refl i

  pub Reach-Sound : {s : Channel F} → Reach F s → Sound s
  Reach-Sound (begin q) = Inv-new F q
  Reach-Sound (next r st) = Step-Sound st (Reach-Sound r)
