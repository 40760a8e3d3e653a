-- ===== src/Tests/MultiplexPark.antt =====
-- Runs of src/select/multiplex.rs with one channel: the receiver waits, and finds the channel closed.
use crossfire_rs.Prelude.{◌<◌, ◌≡◌, refl, true, false, arith}
use crossfire_rs.Multiplex.System.{
  System, Choice, start, close, close_wake, search_step, receiver_step, Reach, begin, next, closes,
  close_wakes, receives,
}
use crossfire_rs.Multiplex.Park.{parked_woken, disconnected_empty}

abbrev goes : Choice
goes = record { again = false; spurious = false; snooze = false; expired = false }

abbrev go : System → System
go s = receiver_step 1 goes s

go-Reach : {s : System} → Reach 1 s → Reach 1 (go s)
go-Reach r = next r (receives goes)

abbrev go_9 : System → System
go_9 s = go (go (go (go (go (go (go (go (go s))))))))

go_9-Reach : {s : System} → Reach 1 s → Reach 1 (go_9 s)
go_9-Reach r =
    go-Reach
      (go-Reach (go-Reach (go-Reach (go-Reach (go-Reach (go-Reach (go-Reach (go-Reach r))))))))

abbrev parked : System
parked = go (go (go_9 (start 1)))

parked-Reach : Reach 1 parked
parked-Reach = go-Reach (go-Reach (go_9-Reach begin))

parked_woken_example : (parked.items 0 ≡ 0) × (0 < parked.opened) × (parked.cell ≡ true)
unfolding receiver_step search_step
parked_woken_example = parked_woken 1 0 (omega arith) parked-Reach refl refl refl refl refl refl

-- The last sender is dropped.
abbrev closed : System
closed = close_wake 1 0 (close 1 (start 1))

abbrev searched : System
searched = go (go_9 closed)

searched-Reach : Reach 1 searched
unfolding close close_wake
searched-Reach = go-Reach (
    go_9-Reach
      (next (next begin (closes (omega arith))) (close_wakes 0 (omega arith) (omega arith))))

disconnected_empty_example : (searched.items 0 ≡ 0) × (searched.opened ≡ 0)
unfolding receiver_step search_step close close_wake
disconnected_empty_example = disconnected_empty 1 0 (omega arith) searched-Reach refl
