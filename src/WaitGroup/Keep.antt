-- ===== src/WaitGroup/Keep.antt =====
-- src/waitgroup.rs: every step keeps the invariant.
use crossfire_rs.Prelude.{ℕ, ◌<◌, ◌≡◌, Bool, true, Option, arith}
use crossfire_rs.WaitGroup.{
  Done, panic, last, locked, released, retry, done_round, Decision, met, again, skip, lock, store,
  set_waker_round, swap_flags, set_flag,
}
use crossfire_rs.WaitGroup.State.{DoneFacts, done_round_facts, DecisionFacts, set_waker_round_facts}
use crossfire_rs.WaitGroup.System.{
  System, Wait, Owner, idle, check, poll_check, will_check, decide, replacing, replaced, putting,
  put, parking, pending, dropping, dropped, taken_apart, Call, Choice, add_guard, apply_done,
  guard_step, unlock_step, wake_step, free_step, apply_decision, set_waker_step, destroy_step,
  owner_step, after_set, may_skip, may_add, poll_check_step, idle_step, pending_step,
}
use crossfire_rs.WaitGroup.Inv.{Inv}

module _ (threshold thread : ℕ) where
  pub wake_step-Inv :
      (w : ℕ) (o : Owner) (s : System)
      → s.owner ≡ o
      → 0 < s.waking w
      → Inv threshold thread s
      → Inv threshold thread (wake_step threshold thread w s)
  unfolding wake_step
  wake_step-Inv w o s e h inv = ground arith

  pub free_step-Inv :
      (s : System)
      → 0 < s.freeing
      → Inv threshold thread s
      → Inv threshold thread (free_step threshold thread s)
  unfolding free_step
  free_step-Inv s h inv = ground arith

  pub unlock_step-Inv :
      (s : System) → Inv threshold thread s → Inv threshold thread (unlock_step threshold thread s)
  unfolding unlock_step
  unlock_step-Inv s inv = ground arith

  pub add_guard-Inv_owner :
      (s : System)
      → may_add threshold thread s.owner ≡ true
      → Inv threshold thread s
      → Inv threshold thread (add_guard threshold thread s)
  unfolding add_guard
  add_guard-Inv_owner s h inv = ground arith

  pub add_guard-Inv_guard :
      (s : System)
      → 0 < s.guards
      → Inv threshold thread s
      → Inv threshold thread (add_guard threshold thread s)
  unfolding add_guard
  add_guard-Inv_guard s h inv = ground arith

  apply_done-Inv :
      (d : Done) (s : System)
      → 0 < s.guards
      → DoneFacts threshold s.word d
      → Inv threshold thread s
      → Inv threshold thread (apply_done threshold thread d s)
  unfolding apply_done
  apply_done-Inv panic s h f inv = inv
  apply_done-Inv (retry _) s h f inv = inv
  apply_done-Inv last s h f inv = ground arith
  apply_done-Inv (locked w) s h f inv = ground arith
  apply_done-Inv (released w) s h f inv = ground arith

  pub guard_step-Inv :
      (spurious : Bool) (state : ℕ) (s : System)
      → 0 < s.guards
      → Inv threshold thread s
      → Inv threshold thread (guard_step threshold thread spurious state s)
  unfolding guard_step
  guard_step-Inv spurious state s h inv =
      apply_done-Inv (done_round true spurious 1 threshold state s.word) s h
        (done_round_facts spurious threshold state s.word) inv

  apply_decision-Inv :
      (d : Decision) (state : ℕ) (o : Wait) (s : System)
      → s.owner ≡ decide state o
      → DecisionFacts threshold (may_skip o) state s.word d
      → Inv threshold thread s
      → Inv threshold thread (apply_decision threshold thread d state o s)
  unfolding apply_decision
  apply_decision-Inv met state o s e f inv = ground arith
  apply_decision-Inv again state o s e f inv = ground arith
  apply_decision-Inv skip state o s e f inv = ground arith
  apply_decision-Inv lock state o s e f inv = ground arith
  apply_decision-Inv store state o s e f inv = ground arith

  set_waker_step-Inv :
      (spurious : Bool) (state : ℕ) (o : Wait) (s : System)
      → s.owner ≡ decide state o
      → Inv threshold thread s
      → Inv threshold thread (set_waker_step threshold thread spurious state o s)
  unfolding set_waker_step
  set_waker_step-Inv spurious state o s e inv =
      apply_decision-Inv (set_waker_round spurious threshold (may_skip o) state s.word) state o s e
        (set_waker_round_facts spurious threshold (may_skip o) state s.word) inv

  destroy_step-Inv :
      (spurious : Bool) (state : ℕ) (s : System)
      → s.owner ≡ dropping state
      → Inv threshold thread s
      → Inv threshold thread (destroy_step threshold thread spurious state s)
  unfolding destroy_step
  destroy_step-Inv spurious state s e inv = ground arith

  check-Inv :
      (c : Choice) (m : Bool) (s : System)
      → s.owner ≡ check m
      → Inv threshold thread s
      → Inv threshold thread (owner_step threshold thread c s)
  unfolding owner_step
  check-Inv c m s e inv = ground arith

  replaced-Inv :
      (o : Wait) (s : System)
      → s.owner ≡ replaced o
      → Inv threshold thread s
      → Inv threshold thread
          (record s { word = swap_flags s.word; owner = after_set threshold thread s.word o })
  replaced-Inv o s e inv = ground arith

  put-Inv :
      (o : Wait) (s : System)
      → s.owner ≡ put o
      → Inv threshold thread s
      → Inv threshold thread
          (record s { word = set_flag s.word; owner = after_set threshold thread s.word o })
  put-Inv o s e inv = ground arith

  poll_check_step-Inv :
      (w : ℕ) (kept : Option ℕ) (s : System)
      → s.owner ≡ poll_check w kept
      → Inv threshold thread s
      → Inv threshold thread (poll_check_step threshold thread w kept s)
  unfolding poll_check_step
  poll_check_step-Inv w kept s e inv = ground arith

  idle_step-Inv :
      (c : Call) (s : System)
      → s.owner ≡ idle
      → Inv threshold thread s
      → Inv threshold thread (idle_step threshold thread c s)
  unfolding idle_step
  idle_step-Inv c s e inv = ground arith

  pending_step-Inv :
      (v : ℕ) (c : Call) (s : System)
      → s.owner ≡ pending v
      → Inv threshold thread s
      → Inv threshold thread (pending_step threshold thread v c s)
  unfolding pending_step
  pending_step-Inv v c s e inv = ground arith

  pub owner_step-Inv :
      (c : Choice) (o : Owner) (s : System)
      → s.owner ≡ o
      → Inv threshold thread s
      → Inv threshold thread (owner_step threshold thread c s)
  unfolding owner_step
  owner_step-Inv c idle s e inv = ground (arith, idle_step-Inv c.call s e)
  owner_step-Inv c (check m) s e inv = check-Inv c m s e inv
  owner_step-Inv c (poll_check w kept) s e inv = ground (arith, poll_check_step-Inv w kept s e)
  owner_step-Inv c (will_check w) s e inv = ground arith
  owner_step-Inv c (decide state o) s e inv =
      ground (arith, set_waker_step-Inv c.spurious state o s e)
  owner_step-Inv c (replacing o) s e inv = ground arith
  owner_step-Inv c (replaced o) s e inv = ground (arith, replaced-Inv o s e)
  owner_step-Inv c (putting o) s e inv = ground arith
  owner_step-Inv c (put o) s e inv = ground (arith, put-Inv o s e)
  owner_step-Inv c parking s e inv = ground arith
  owner_step-Inv c (pending v) s e inv = ground (arith, pending_step-Inv v c.call s e)
  owner_step-Inv c (dropping state) s e inv = ground (arith, destroy_step-Inv c.spurious state s e)
  owner_step-Inv c dropped s e inv = ground arith
  owner_step-Inv c taken_apart s e inv = ground arith
