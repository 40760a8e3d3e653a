-- ===== src/Tests/ArrayQueueSpsc.antt =====
-- A run of src/crossbeam/array_queue_spsc.rs with room for one value.
use crossfire_rs.Prelude.{
  ℕ, ◌+◌, ◌≤◌, ◌<◌, ◌≡◌, ◌≢◌, refl, true, false, none, some, List, [], ◌∷◌, ◌++◌, map,
}
use crossfire_rs.ArrayQueueSpsc.{
  ArrayQueueSpsc, new, push, tx_step, pop, rx_step, index_of, slot_at, advance, no_values, is_empty,
  is_full, len,
}
use crossfire_rs.ArrayQueueSpsc.System.{
  System, start, after_push, after_tx, after_pop, after_rx, Reach, sender_calls, sender_moves,
  receiver_calls, receiver_moves,
}
use crossfire_rs.ArrayQueueSpsc.Observe.{observers_exact}
use crossfire_rs.ArrayQueueSpsc.Safety.{fifo, no_race, reads_written}

abbrev empty : ArrayQueueSpsc ℕ
empty = record { sender = 0; recv = 0; buffer = none ∷ none ∷ []; one_lap = 4 }

-- The sender pushes 7.
abbrev one : System ℕ
one = after_tx (after_tx (after_push 7 (start empty)))

one-Reach : Reach 2 one
unfolding after_push after_tx push tx_step advance new no_values
one-Reach =
    Reach.next
      (Reach.next (Reach.next (Reach.begin empty refl) (sender_calls none 7 refl)) sender_moves)
      sender_moves

fifo_example :
    (rest : List ℕ) × (map some one.written ≡ one.taken ++ map some rest)
    × (one.freed ≤ one.sent)
    × (one.sent ≤ one.freed + 2)
fifo_example = fifo one-Reach

-- While it pushes 8 to the other slot, the receiver is at the slot of 7.
abbrev both : System ℕ
both = after_rx (after_pop true (after_push 8 one))

both-Reach : Reach 2 both
unfolding after_push after_tx after_pop after_rx push pop tx_step rx_step advance
both-Reach =
    Reach.next
      (Reach.next (Reach.next one-Reach (sender_calls (some true) 8 refl))
        (receiver_calls none true refl))
      receiver_moves

no_race_example : index_of both.queue 1 ≢ index_of both.queue 0
unfolding after_push after_tx after_pop after_rx push pop tx_step rx_step advance
no_race_example = no_race both-Reach 8 1 0 0 1 refl refl

reads_written_example : (0 < 2) × ((x : ℕ) × (slot_at both.queue 0 ≡ some x))
unfolding after_push after_tx after_pop after_rx push pop tx_step rx_step advance
reads_written_example = reads_written both-Reach 0 1 refl

-- Two values are in, and a third is refused.
abbrev full : System ℕ
full = after_push 9 (after_tx (after_tx (after_push 8 one)))

full-Reach : Reach 2 full
unfolding after_push after_tx push tx_step advance
full-Reach =
    Reach.next
      (Reach.next (Reach.next (Reach.next one-Reach (sender_calls (some true) 8 refl)) sender_moves)
        sender_moves)
      (sender_calls (some true) 9 refl)

observers_exact_example :
    (is_empty one.queue ≡ false)
    × (is_full one.queue ≡ false)
    × (len one.queue + one.freed ≡ one.sent)
unfolding after_tx tx_step after_push push
observers_exact_example = observers_exact one-Reach
