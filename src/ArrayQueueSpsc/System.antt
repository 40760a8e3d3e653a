-- ===== src/ArrayQueueSpsc/System.antt =====
-- src/crossbeam/array_queue_spsc.rs: a sender and a receiver at work at the same time, one access each
-- at a time.
use crossfire_rs.Prelude.{ℕ, ◌+◌, ◌≡◌, Bool, Option, none, some, List, [], ◌∷◌, ◌++◌}
use crossfire_rs.ArrayQueueSpsc.{
  ArrayQueueSpsc, Tx, write, store, Rx, take, free, new, push, tx_step, pop, rx_step, slot_at,
}

-- Beside the program's state, a history: the values written to slots and taken from slots, in order;
-- how many pushes and pops have stored their word; and the numbers that the heads and tails seen by
-- the other side stand for, those in the word and those at hand.
pub record System (A : Type 0) : Type 0 where
  pub queue : ArrayQueueSpsc A
  pub tx : Tx A
  pub rx : Rx A
  pub written : List A
  pub taken : List (Option A)
  pub sent : ℕ
  pub freed : ℕ
  pub kept_head : ℕ
  pub saw_head : ℕ
  pub kept_tail : ℕ
  pub saw_tail : ℕ

module _ {A : Type 0} where
  abbrev pub start : ArrayQueueSpsc A → System A
  start q = record {
    queue = q;
    tx = Tx.idle none;
    rx = Rx.idle none;
    written = [];
    taken = [];
    sent = 0;
    freed = 0;
    kept_head = 0;
    saw_head = 0;
    kept_tail = 0;
    saw_tail = 0;
  }

  -- What a step of the sender adds to the history.
  abbrev pub log_tx : Tx A → System A → System A
  log_tx (Tx.idle _) s = s
  log_tx (Tx.check v _ _) s = record s { saw_head = s.freed }
  log_tx (write v _ _) s = record s { written = s.written ++ (v ∷ []) }
  log_tx (store _ _) s = record s { sent = s.sent + 1; kept_head = s.saw_head }

  abbrev pub log_rx : Rx A → System A → System A
  log_rx (Rx.idle _) s = s
  log_rx (Rx.check _) s = record s { saw_tail = s.sent }
  log_rx (take head _) s = record s { taken = s.taken ++ (slot_at s.queue head ∷ []) }
  log_rx (free _ _) s = record s { freed = s.freed + 1; kept_tail = s.saw_tail }

  unfoldable pub after_push : A → System A → System A
  after_push v s = record s { tx = push v s.queue; saw_head = s.kept_head }

  unfoldable pub after_tx : System A → System A
  after_tx s = let (tx, q) = tx_step s.tx s.queue in record (log_tx s.tx s) { tx = tx; queue = q }

  unfoldable pub after_pop : Bool → System A → System A
  after_pop spin s = record s { rx = pop spin s.queue; saw_tail = s.kept_tail }

  unfoldable pub after_rx : System A → System A
  after_rx s = let (rx, q) = rx_step s.rx s.queue in record (log_rx s.rx s) { rx = rx; queue = q }

  pub data Step (s : System A) : System A → Type 0 where
    sender_calls : (answer : Option Bool) (v : A) → s.tx ≡ Tx.idle answer → Step s (after_push v s)
    sender_moves : Step s (after_tx s)
    receiver_calls :
        (answer : Option (Option A)) (spin : Bool)
        → s.rx ≡ Rx.idle answer
        → Step s (after_pop spin s)
    receiver_moves : Step s (after_rx s)

  pub data Reach (cap : ℕ) : System A → Type 0 where
    begin : (q : ArrayQueueSpsc A) → new cap ≡ some q → Reach cap (start q)
    next : {s t : System A} → Reach cap s → Step s t → Reach cap t
