-- ===== src/Oneshot/System.antt =====
-- src/oneshot.rs: a sender and a receiver that share one box, in any interleaving.
use crossfire_rs.Prelude.{Bool, false, ◌||◌, Option}
use crossfire_rs.Oneshot.{Inner, Tx, Rx, Call, Choice, new, tx_step, rx_step, ready, idle, recv}

-- `misused` is a history: whether a blocking receive was called after a `poll` that left its waker
-- registered, which the comment in `set_waker` rules out, and the interface allows.
pub record System (A : Type 0) : Type 0 where
  pub tx : Tx
  pub rx : Rx A
  pub inner : Inner A
  pub misused : Bool

abbrev pub late_call : {A : Type 0} → Rx A → Call → Bool
late_call (idle polled) (recv _) = polled
late_call _ _ = false

unfoldable pub after_tx : {A : Type 0} → Bool → Option A → Bool → System A → System A
unfolding tx_step
after_tx debug plan spurious s =
    let (t, i) = tx_step debug plan spurious s.tx s.inner in record s { tx = t; inner = i }

unfoldable pub after_rx : {A : Type 0} → Bool → Choice → System A → System A
unfolding rx_step
after_rx debug c s =
    let (r, i) = rx_step debug c s.rx s.inner in
    record s { rx = r; inner = i; misused = s.misused || late_call s.rx c.call }

pub data Step {A : Type 0} (debug : Bool) (plan : Option A) (s : System A) : System A → Type 0 where
  sender : (spurious : Bool) → Step debug plan s (after_tx debug plan spurious s)
  receiver : (c : Choice) → Step debug plan s (after_rx debug c s)

-- `oneshot()`
abbrev pub start : (A : Type 0) → System A
start A = record { tx = ready; rx = idle false; inner = new; misused = false }

-- The states that a sender with this plan and any receiver can reach.
pub data Reach {A : Type 0} (debug : Bool) (plan : Option A) : System A → Type 0 where
  begin : Reach debug plan (start A)
  next : {s t : System A} → Reach debug plan s → Step debug plan s t → Reach debug plan t
