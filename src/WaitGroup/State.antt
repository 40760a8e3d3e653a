-- ===== src/WaitGroup/State.antt =====
-- src/waitgroup.rs: what the operations on the word answer.
use crossfire_rs.Prelude.{
  ℕ, ◌+◌, ◌-◌, ◌/◌, ◌^◌, ◌≤◌, ◌<◌, ◌≡◌, ◌≢◌, Bool, true, false, ◌&&◌, ◌||◌, ◌==◌, ltb, leb, arith,
}
use crossfire_rs.WaitGroup.{
  count, Done, panic, last, locked, released, retry, done_round, is_locked, has_waker, Decision,
  skip, lock, store, set_waker_round,
}

-- What the answer of a round by a guard says of the word that it found.
abbrev pub DoneFacts : ℕ → ℕ → Done → Type 0
DoneFacts threshold word panic = Unit
DoneFacts threshold word (retry _) = Unit
DoneFacts threshold word last = (word / 2 ^ 62 ≢ 1) × (count word ≡ 1)
DoneFacts threshold word (locked w) =
    (word / 2 ^ 62 ≡ 2)
    × (0 < count word)
    × (count word - 1 ≤ threshold)
    × (w / 2 ^ 62 ≡ 1)
    × (count w + 1 ≡ count word)
DoneFacts threshold word (released w) =
    (0 < count word)
    × (w / 2 ^ 62 ≡ word / 2 ^ 62)
    × (count w + 1 ≡ count word)
    × ((leb (count w) threshold && word / 2 ^ 62 == 2) ≡ false)
    × ((ltb 0 (count w) || word / 2 ^ 62 == 1) ≡ true)

-- A round of `done` by a guard, at any word that it loaded before: it answers that the guard is the
-- last only if the count found is 1 and no one holds the lock; it takes the lock only from a waker
-- that is set, where the count comes down to the threshold; else it takes 1 off the count and
-- leaves the flags alone, which is never where the lock was due, and comes down to 0 only while
-- another holds the lock.
pub done_round_facts :
    (spurious : Bool) (threshold state word : ℕ)
    → DoneFacts threshold word (done_round true spurious 1 threshold state word)
unfolding done_round
done_round_facts spurious threshold state word = ground arith

-- What a decision of `try_set_waker` says of the word `state` that it loaded.
abbrev pub DecisionFacts : ℕ → Bool → ℕ → ℕ → Decision → Type 0
DecisionFacts threshold may_skip state word skip =
    (threshold < count state)
    × (is_locked state ≡ false)
    × (has_waker state ≡ true)
    × (may_skip ≡ true)
DecisionFacts threshold may_skip state word lock =
    (word ≡ state) × (is_locked state ≡ false) × (has_waker state ≡ true)
DecisionFacts threshold may_skip state word store =
    (is_locked state ≡ false) × (has_waker state ≡ false)
DecisionFacts threshold may_skip state word _ = Unit

pub set_waker_round_facts :
    (spurious : Bool) (threshold : ℕ) (may_skip : Bool) (state word : ℕ)
    → DecisionFacts threshold may_skip state word
        (set_waker_round spurious threshold may_skip state word)
unfolding set_waker_round
set_waker_round_facts spurious threshold may_skip state word = ground arith
