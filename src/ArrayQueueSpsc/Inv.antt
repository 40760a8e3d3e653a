-- ===== src/ArrayQueueSpsc/Inv.antt =====
-- src/crossbeam/array_queue_spsc.rs: what the words, the slots and the history have to do with each
-- other.
use crossfire_rs.Prelude.{ℕ, ◌+◌, ◌%◌, ◌≤◌, ◌<◌, ◌≡◌, Option, none, List, length, get_or}
use crossfire_rs.ArrayQueue.Rep.{nth}
use crossfire_rs.Laps.{posn}
use crossfire_rs.ArrayQueueSpsc.{Tx, write, store, Rx, take, free, pack, capacity}
use crossfire_rs.ArrayQueueSpsc.System.{System}

-- 1 while a value is written, and the word that publishes it is not stored.
abbrev pub unsent : {A : Type 0} → Tx A → ℕ
unsent (store _ _) = 1
unsent _ = 0

abbrev pub unfreed : {A : Type 0} → Rx A → ℕ
unfreed (free _ _) = 1
unfreed _ = 0

module _ (cap lap laps : ℕ) {A : Type 0} where
  abbrev pub TxFacts : Tx A → System A → Type 0
  TxFacts (Tx.idle _) s = Unit
  TxFacts (Tx.check _ tail head_cached) s =
      (tail ≡ posn cap lap laps s.sent)
      × (head_cached ≡ posn cap lap laps s.kept_head)
      × (s.sent ≡ s.kept_head + cap)
  TxFacts (write _ tail head_cached) s =
      (tail ≡ posn cap lap laps s.sent)
      × (head_cached ≡ posn cap lap laps s.saw_head)
      × (s.sent < s.saw_head + cap)
  TxFacts (store new_tail head_cached) s =
      (new_tail ≡ posn cap lap laps (s.sent + 1))
      × (head_cached ≡ posn cap lap laps s.saw_head)
      × (s.sent < s.saw_head + cap)

  abbrev pub RxFacts : Rx A → System A → Type 0
  RxFacts (Rx.idle _) s = Unit
  RxFacts (Rx.check head) s = head ≡ posn cap lap laps s.freed
  RxFacts (take head tail_cached) s =
      (head ≡ posn cap lap laps s.freed)
      × (tail_cached ≡ posn cap lap laps s.saw_tail)
      × (s.freed < s.saw_tail)
  RxFacts (free _ packed_recv) s =
      (packed_recv ≡ pack (posn cap lap laps s.saw_tail) (posn cap lap laps (s.freed + 1)))
      × (s.freed < s.saw_tail)

  -- The counts of both sides, and the words that stand for them.
  pub record Counts (s : System A) : Type 0 where
    pub sized : capacity s.queue ≡ cap
    pub lap_is : s.queue.one_lap ≡ lap
    pub head_kept : s.kept_head ≤ s.saw_head
    pub head_seen : s.saw_head ≤ s.freed
    pub tail_kept : s.freed ≤ s.kept_tail
    pub tail_seen : s.kept_tail ≤ s.saw_tail
    pub tail_sent : s.saw_tail ≤ s.sent
    pub fits : s.sent ≤ s.kept_head + cap
    pub sender_word :
        s.queue.sender ≡ pack (posn cap lap laps s.kept_head) (posn cap lap laps s.sent)
    pub recv_word : s.queue.recv ≡ pack (posn cap lap laps s.kept_tail) (posn cap lap laps s.freed)
    pub written_count : length s.written ≡ s.sent + unsent s.tx
    pub taken_count : length s.taken ≡ s.freed + unfreed s.rx
    pub tx_facts : TxFacts s.tx s
    pub rx_facts : RxFacts s.rx s

-- A value that is written and not taken is in its slot, and what was taken is what was written.
module _ (cap : ℕ) {A : Type 0} (buffer taken : List (Option A)) (written : List A) where
  pub record Values : Type 0 where
    pub filled :
        (j : ℕ)
        → length taken ≤ j
        → j < length written
        → get_or buffer (j % cap) none ≡ nth written j
    pub ordered : (j : ℕ) → j < length taken → get_or taken j none ≡ nth written j

abbrev pub Holds : ℕ → {A : Type 0} → System A → Type 0
Holds cap s = Values cap s.queue.buffer s.taken s.written
