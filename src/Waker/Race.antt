-- ===== src/Waker/Race.antt =====
-- src/waker.rs: a notifier, a closer and the waiter itself compete for one waiter.
use crossfire_rs.Prelude.{
  ◌≤◌, ◌≡◌, refl, Bool, true, false, Option, none, some, List, [], ◌∷◌, arith,
}
use crossfire_rs.Waker.{
  WakeResult, skip, WakerInner, Changed, ok, err, return, wake_round, abandon, close_wake, wake,
  is_done, wake_by_ref,
}
use crossfire_rs.Waker.Laws.{settle, wake_total, abandon_total, close_wake_total, set_state}

-- A call on the waiter, with the spurious failures of its exchanges.
pub data Call : Type 0 where
  notify : List Bool → Call
  cancel : List Bool → Call
  close : List Bool → Call

-- Whether a call claimed the waiter.
abbrev pub claimed_by_wake : WakeResult → Bool
claimed_by_wake skip = false
claimed_by_wake _ = true

abbrev pub claimed_by_abandon : Changed → Bool
claimed_by_abandon (ok _) = true
claimed_by_abandon (err _) = false

unfoldable pub claim : Call → WakerInner → Option (Bool × WakerInner)
claim (notify flags) w = elim (wake (settle flags) w) [
  | none ↦ none
  | some (r, w') ↦ some (claimed_by_wake r, w')
]
claim (cancel flags) w = elim (abandon (settle flags) w) [
  | none ↦ none
  | some (r, w') ↦ some (claimed_by_abandon r, w')
]
claim (close flags) w = close_wake (settle flags) w

-- Which of the calls, made one after another, claimed the waiter.
unfoldable pub claims : List Call → WakerInner → Option (List Bool × WakerInner)
unfolding claim
claims [] w = some ([], w)
claims (c ∷ cs) w = elim (claim c w) [
  | none ↦ none
  | some (b, w') ↦ elim (claims cs w') [ none ↦ none | some (bs, w'') ↦ some (b ∷ bs, w'') ]
]

abbrev pub losers : List Call → List Bool
losers [] = []
losers (c ∷ cs) = false ∷ losers cs

claim_late : (c : Call) (w : WakerInner) → 3 ≤ w.state → claim c w ≡ some (false, w)
unfolding claim
claim_late (notify flags) w h = ground (arith, wake_total flags w)
claim_late (cancel flags) w h = ground (arith, abandon_total flags w)
claim_late (close flags) w h = ground (arith, close_wake_total flags w)

claims_late : (cs : List Call) (w : WakerInner) → 3 ≤ w.state → claims cs w ≡ some (losers cs, w)
unfolding claims
claims_late [] w h = refl
claims_late (c ∷ cs) w h = ground (arith, claim_late c w h, claims_late cs w h)

-- What the call that comes first leaves.
abbrev pub winner : Call → WakerInner → WakerInner
winner (notify _) w = wake_by_ref (set_state 3 w)
winner (cancel _) w = set_state 4 w
winner (close _) w = wake_by_ref (set_state 4 w)

claim_early : (c : Call) (w : WakerInner) → w.state ≤ 1 → claim c w ≡ some (true, winner c w)
unfolding claim
claim_early (notify flags) w h = ground (arith, wake_total flags w)
claim_early (cancel flags) w h = ground (arith, abandon_total flags w)
claim_early (close flags) w h = ground (arith, close_wake_total flags w)

-- Of the calls of `wake`, `abandon` and `close_wake` on a waiter in `Init` or `Waiting`, made one
-- after another without interrupting each other, the first claims it and every later one is told
-- so and changes nothing.
pub one_winner :
    (c : Call) (cs : List Call) (w : WakerInner)
    → w.state ≤ 1
    → claims (c ∷ cs) w ≡ some (true ∷ losers cs, winner c w)
unfolding claims wake_by_ref
one_winner c cs w h = ground (arith, claim_early c w h, claims_late cs (winner c w))

-- If a waiter in `Waiting` abandons between the load and the store of `wake`, then both calls
-- succeed: `abandon` answers Ok, and `wake` answers `Woken`, which ends the search for a waiter.
pub abandon-wake_both_claim :
    (flags : List Bool) (spurious : Bool) (w : WakerInner)
    → w.state ≡ 1
    → (w₁ : WakerInner) × (w₂ : WakerInner) × (abandon (settle flags) w ≡ some (ok 1, w₁))
      × (wake_round spurious w.state w₁ ≡ return WakeResult.woken w₂)
      × (is_done WakeResult.woken ≡ true)
      × (w₁.state ≡ 4)
      × (w₂.state ≡ 3)
unfolding wake_round is_done
abandon-wake_both_claim flags spurious w h = (
  set_state 4 w,
  wake_by_ref (set_state 3 w),
  ground (arith, abandon_total flags w),
  ground arith,
  refl,
  refl,
  refl,
)
