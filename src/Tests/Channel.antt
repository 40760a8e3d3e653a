-- ===== src/Tests/Channel.antt =====
-- A run of a channel of src/shared.rs with one sender, one receiver and room for one value.
use crossfire_rs.Prelude.{
  ℕ, ◌+◌, ◌≤◌, ◌≡◌, refl, Bool, true, false, Option, none, some, List, [], ◌∷◌, ◌++◌, ◌||◌, inl,
  inr, length, arith,
}
use crossfire_rs.Flavor.{Flavor, size, append_if, prepend, done, is_some}
use crossfire_rs.Ends.{sent, RxAnswer, Tx, Rx, last, Choice, PollItem}
use crossfire_rs.Channel.{Channel, new}
use crossfire_rs.Channel.TxSteps.{tx_step, tx_fire, close_tx}
use crossfire_rs.Channel.RxSteps.{poll_item_step, rx_step, rx_fire}
use crossfire_rs.Channel.System.{sends, drops_tx, tx_moves, receives, rx_moves, Reach}
use crossfire_rs.Channel.History.{Run}
use crossfire_rs.Channel.Order.{received_in_order}
use crossfire_rs.Channel.Deliver.{tx_three, rx_three}
use crossfire_rs.Channel.Safety.{
  waiting_receiver_woken, waiting_sender_woken, no_deadlock, disconnected_exact,
}

abbrev held : Option ℕ → List ℕ
held none = []
held (some x) = x ∷ []

abbrev put_in : ℕ → Option ℕ → Bool × Option ℕ
put_in v none = (true, some v)
put_in v (some x) = (false, some x)

abbrev put_once : ℕ → Option ℕ → Option Bool × Option ℕ
put_once v none = (some true, some v)
put_once v (some x) = (some false, some x)

held_fits : (q : Option ℕ) → length (held q) ≤ 1
held_fits q = ground arith

put_in-held : (v : ℕ) (q : Option ℕ) → held (put_in v q).1 ≡ append_if (put_in v q).0 v (held q)
put_in-held v q = ground arith

put_once-held :
    (v : ℕ) (q : Option ℕ) → held (put_once v q).1 ≡ append_if (done (put_once v q).0) v (held q)
put_once-held v q = ground arith

put_once-full : (v : ℕ) (q : Option ℕ) → (put_once v q).0 ≡ some false → length (held q) ≡ 1
put_once-full v q e = ground arith

take-held : (q : Option ℕ) → prepend q (held none) ≡ held q
take-held q = ground arith

take-empty : (q : Option ℕ) → is_some q ≡ false → length (held q) ≡ 0
take-empty q e = ground arith

abbrev room_for_one : Flavor ℕ
room_for_one = record {
  Queue = Option ℕ;
  values = held;
  capacity = 1;
  try_send = λ flag v q. put_in v q;
  try_send_oneshot = λ flag v q. put_once v q;
  try_recv = λ flag q. (q, none);
  try_recv_final = λ flag q. (q, none);
  capacity_pos = omega arith;
  values_le = held_fits;
  try_send_values = λ flag. put_in-held;
  oneshot_values = λ flag. put_once-held;
  oneshot_full = λ flag. put_once-full;
  try_recv_values = λ flag. take-held;
  try_recv_empty = take-empty;
  final_values = λ flag. take-held;
  final_empty = λ flag. take-empty;
}

-- No stale load, the backoff is at its end, no deadline, no spurious return.
abbrev plain : Choice
plain = record { flag = false; again = false; expired = false; spurious = false; late = false }

abbrev rx_goes : Channel room_for_one → Channel room_for_one
rx_goes s = rx_step room_for_one plain s.rx s

abbrev tx_goes : Channel room_for_one → Channel room_for_one
tx_goes s = tx_step room_for_one plain s.tx s

abbrev calls_recv : Channel room_for_one → Channel room_for_one
calls_recv s = record s { rx = Rx.try }

abbrev calls_send : ℕ → Channel room_for_one → Channel room_for_one
calls_send v s = record s { tx = Tx.enter true v }

-- The receiver calls, and sees the queue empty after it has registered.
abbrev looked : Channel room_for_one
looked = rx_goes (rx_goes (rx_goes (calls_recv (new room_for_one none))))

looked-Reach : Reach room_for_one looked
unfolding rx_step rx_fire
looked-Reach =
    Reach.next
      (Reach.next
        (Reach.next (Reach.next (Reach.begin none) (receives RxAnswer.empty true refl refl))
          (rx_moves plain))
        (rx_moves plain))
      (rx_moves plain)

-- It parks, and the sender sends.
abbrev due : Channel room_for_one
due = tx_goes (tx_goes (calls_send 7 (rx_goes looked)))

due-Reach : Reach room_for_one due
unfolding rx_step rx_fire tx_step tx_fire
due-Reach =
    Reach.next
      (Reach.next
        (Reach.next (Reach.next looked-Reach (rx_moves plain)) (sends sent true 7 refl refl))
        (tx_moves plain))
      (tx_moves plain)

waiting_receiver_woken_example : (tx_three room_for_one plain plain plain due).rx_token ≡ true
unfolding rx_step rx_fire tx_step tx_fire
waiting_receiver_woken_example = waiting_receiver_woken due-Reach plain plain plain refl refl

-- A future of the receiver is pending, and is woken as well.
abbrev polled : Channel room_for_one
polled =
    let s = record (new room_for_one none) { rx = Rx.polling PollItem.try } in
    tx_goes (tx_goes (calls_send 7 (rx_goes (rx_goes (rx_goes (rx_goes s))))))

polled_waits : polled.rx ≡ Rx.polling PollItem.pending
unfolding rx_step rx_fire tx_step tx_fire poll_item_step
polled_waits = refl

polled_woken : (tx_three room_for_one plain plain plain polled).rx_token ≡ true
unfolding rx_step rx_fire tx_step tx_fire poll_item_step
polled_woken = refl

-- The sender wakes the receiver, and parks, since the queue is full.
abbrev full : Channel room_for_one
full =
    let s = calls_send 8 (tx_three room_for_one plain plain plain due) in
    tx_goes (tx_goes (tx_goes (tx_goes (tx_goes s))))

full-Reach : Reach room_for_one full
unfolding rx_step rx_fire tx_step tx_fire
full-Reach =
    let woken =
      Reach.next (Reach.next (Reach.next due-Reach (tx_moves plain)) (tx_moves plain))
        (tx_moves plain) in
    let called = Reach.next woken (sends sent true 8 refl refl) in
    Reach.next
      (Reach.next
        (Reach.next (Reach.next (Reach.next called (tx_moves plain)) (tx_moves plain))
          (tx_moves plain))
        (tx_moves plain))
      (tx_moves plain)

no_deadlock_example : full.tx_token || full.rx_token ≡ true
unfolding rx_step rx_fire tx_step tx_fire
no_deadlock_example = no_deadlock full-Reach refl refl

-- The receiver wakes up and receives.
abbrev drained : Channel room_for_one
drained = rx_goes (rx_goes (rx_goes full))

drained-Reach : Reach room_for_one drained
unfolding rx_step rx_fire tx_step tx_fire
drained-Reach =
    Reach.next (Reach.next (Reach.next full-Reach (rx_moves plain)) (rx_moves plain))
      (rx_moves plain)

waiting_sender_woken_example : (rx_three room_for_one plain plain plain drained).tx_token ≡ true
unfolding rx_step rx_fire tx_step tx_fire
waiting_sender_woken_example = waiting_sender_woken drained-Reach plain plain plain refl refl

-- The sender is dropped while the receiver has looked and not parked.
abbrev left : Channel room_for_one
left = rx_goes (close_tx room_for_one looked)

left-Reach : Reach room_for_one left
unfolding rx_step rx_fire close_tx
left-Reach = Reach.next (Reach.next looked-Reach (drops_tx sent refl refl)) (rx_moves plain)

disconnected_exact_example : (left.tx_count ≡ 0) × (size room_for_one left.queue ≡ 0)
unfolding rx_step rx_fire close_tx
disconnected_exact_example =
    disconnected_exact left-Reach plain last refl (inr (inl refl, refl)) refl

-- A send and a receive.
abbrev seven : List ℕ
seven = 7 ∷ []

abbrev given : Channel room_for_one
given = tx_goes (tx_goes (calls_send 7 (new room_for_one none)))

abbrev got : Channel room_for_one
got = rx_goes (calls_recv given)

got-Run : Run room_for_one seven seven got
unfolding rx_step rx_fire tx_step tx_fire
got-Run =
    Run.next
      (Run.next
        (Run.next
          (Run.next (Run.next (Run.begin none refl) (sends sent true 7 refl refl)) (tx_moves plain))
          (tx_moves plain))
        (receives RxAnswer.empty true refl refl))
      (rx_moves plain)

received_in_order_example : (seven ≡ seven ++ held got.queue) × (length seven ≤ length seven + 1)
received_in_order_example = received_in_order got-Run
