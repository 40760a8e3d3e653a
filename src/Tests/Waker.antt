-- ===== src/Tests/Waker.antt =====
-- Runs of src/waker.rs.
use crossfire_rs.Prelude.{◌≡◌, refl, true, false, some, [], ◌∷◌, arith}
use crossfire_rs.Waker.{
  WakeResult, WakerInner, async, blocking, ok, new_waker, commit_waiting, abandon, close_wake,
  return, wake_round, is_done, wake_by_ref,
}
use crossfire_rs.Waker.Laws.{set_state, close_wake_total}
use crossfire_rs.Waker.Race.{notify, cancel, close, claims, one_winner, abandon-wake_both_claim}

abbrev fresh : WakerInner
fresh = record { state = 0; seq = 0; waker = blocking 7; wakes = 0 }

abbrev parked : WakerInner
parked = record { state = 1; seq = 3; waker = blocking 7; wakes = 0 }

commit_parks : (commit_waiting (new_waker (async 2))).0 ≡ 1
unfolding commit_waiting new_waker
commit_parks = refl

one_winner_example :
    claims (notify [] ∷ cancel (true ∷ []) ∷ close [] ∷ []) parked
    ≡ some (true ∷ false ∷ false ∷ [], record { state = 3; seq = 3; waker = blocking 7; wakes = 1 })
unfolding wake_by_ref
one_winner_example =
    one_winner (notify []) (cancel (true ∷ []) ∷ close [] ∷ []) parked (omega arith)

close_wake_total_example :
    close_wake (false ∷ false ∷ []) (set_state 3 parked) ≡ some (false, set_state 3 parked)
close_wake_total_example = close_wake_total [] (set_state 3 parked)

abandon-wake_both_claim_example :
    (w₁ : WakerInner) × (w₂ : WakerInner) × (abandon (false ∷ false ∷ []) parked ≡ some (ok 1, w₁))
    × (wake_round false 1 w₁ ≡ return WakeResult.woken w₂)
    × (is_done WakeResult.woken ≡ true)
    × (w₁.state ≡ 4)
    × (w₂.state ≡ 3)
abandon-wake_both_claim_example = abandon-wake_both_claim [] false parked refl
