-- ===== src/Tests/Oneshot.antt =====
-- Runs of src/oneshot.rs.
use crossfire_rs.Prelude.{ℕ, ◌≡◌, ◌≢◌, refl, true, false, Option, some}
use crossfire_rs.Waker.{async}
use crossfire_rs.Oneshot.{Tx, Rx, Choice, drop, exists, ready, finished, repeated, poll, new}
use crossfire_rs.Oneshot.System.{
  System, Reach, begin, next, sender, receiver, after_tx, after_rx, start,
}
use crossfire_rs.Oneshot.Safety.{
  no_fault, freed_once, delivered, waiter_woken, try_recv_answers, recv_after_poll, three_steps,
  receive, blocks, six_steps, Closes,
}

abbrev polling : Choice
polling = record { call = poll 5; snooze = false; expired = false; thread = 1 }

abbrev plan : Option ℕ
plan = some 7

-- The receiver polls, the sender sends, and the receiver takes the value.
abbrev polled : System ℕ
polled =
    after_rx false polling
      (after_rx false polling (after_rx false polling (after_rx false polling (start ℕ))))

abbrev tx_once : System ℕ → System ℕ
tx_once = after_tx false plan false

abbrev sent : System ℕ
sent = tx_once (tx_once (tx_once (tx_once (tx_once polled))))

abbrev answered : System ℕ
answered = three_steps false sent

polled-Reach : Reach false plan polled
unfolding after_rx new
polled-Reach =
    next (next (next (next begin (receiver polling)) (receiver polling)) (receiver polling))
      (receiver polling)

tx_once-Reach : {s : System ℕ} → Reach false plan s → Reach false plan (tx_once s)
tx_once-Reach r = next r (sender false)

sent-Reach : Reach false plan sent
sent-Reach =
    tx_once-Reach (tx_once-Reach (tx_once-Reach (tx_once-Reach (tx_once-Reach polled-Reach))))

answered-Reach : Reach false plan answered
unfolding after_rx after_tx new
answered-Reach =
    next (next (next sent-Reach (receiver receive)) (receiver receive)) (receiver receive)

no_fault_example : (answered.tx ≢ Tx.fault) × (answered.misused ≡ false → answered.rx ≢ Rx.fault)
no_fault_example = no_fault answered-Reach

freed_once_example : answered.inner.frees ≡ 1
unfolding after_rx after_tx new
freed_once_example = freed_once answered-Reach

delivered_example :
    (some 7 ≡ plan)
    × ((c : Choice) → c.call ≢ drop → (after_rx false c answered).rx ≡ repeated (some 7))
unfolding after_rx after_tx new
delivered_example = delivered (some 7) answered-Reach refl refl

waiter_woken_example : (sent.inner.woken ≡ sent.inner.o_waker) × (exists sent.inner.o_waker ≡ true)
unfolding after_rx after_tx new
waiter_woken_example = waiter_woken sent-Reach refl refl

sent_value : sent.inner.woken ≡ some (async 5)
unfolding after_rx after_tx new
sent_value = refl

try_recv_answers_example :
    ((three_steps false sent).rx ≡ finished plan) × ((three_steps false sent).inner.frees ≡ 1)
unfolding after_rx after_tx new
try_recv_answers_example = try_recv_answers {i = sent.inner} true false false sent-Reach

-- The sender is alive, and the answer is that the channel is disconnected.
recv_after_poll_example : Closes plan false (six_steps false (blocks false) polled)
unfolding after_rx new
recv_after_poll_example = recv_after_poll false polled polled-Reach refl refl

recv_after_poll_tx : polled.tx ≡ ready
unfolding after_rx new
recv_after_poll_tx = refl
