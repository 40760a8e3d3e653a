-- ===== src/WaitGroup/Safety.antt =====
-- src/waitgroup.rs: what holds in every state that the owner and the guards reach.
use crossfire_rs.Prelude.{
  ℕ, ◌+◌, ◌<◌, ◌≡◌, ◌≢◌, ◌⊎◌, inl, inr, ◌↔◌, refl, true, some, none, leb, arith,
}
use crossfire_rs.WaitGroup.{count, get_left, own_threshold, try_wait}
use crossfire_rs.WaitGroup.System.{
  System, Wait, Owner, parking, pending, dropped, nobody, Choice, Step, owner_adds, guard_clones,
  guard_moves, unlocks, wakes, frees, owner_moves, owner_takes, owner_step, wake_step, free_step,
  idle, taken_apart, Reach, begin, next, unlock_step, try_into_inner,
}
use crossfire_rs.WaitGroup.Inv.{own, busy, Inv, Inv-start}
use crossfire_rs.WaitGroup.Keep.{
  add_guard-Inv_owner, add_guard-Inv_guard, guard_step-Inv, unlock_step-Inv, wake_step-Inv,
  free_step-Inv, owner_step-Inv,
}

-- The owner waits for a wake of this waker, in `park` or with a pending future.
abbrev pub WaitsFor : ℕ → ℕ → Owner → Type 0
WaitsFor thread w o = (o ≡ pending w) ⊎ ((o ≡ parking) × (w ≡ thread))

-- `try_into_inner` has taken the box apart.
record TakenApart (s : System) : Type 0 where
  gone : s.owner ≡ taken_apart
  no_guards : s.guards ≡ 0
  owned : count s.word ≡ 1
  freed : s.freeing + s.frees ≡ 1

abbrev Sound : ℕ → ℕ → System → Type 0
Sound threshold thread s = Inv threshold thread s ⊎ TakenApart s

module _ (threshold thread : ℕ) where
  takes-TakenApart :
      (s t : System)
      → s.owner ≡ idle
      → try_into_inner threshold thread s ≡ some t
      → Inv threshold thread s
      → TakenApart t
  unfolding try_into_inner
  takes-TakenApart s t o e inv = ground (arith, inv.alive)

  unlock-TakenApart : (s : System) → TakenApart s → TakenApart (unlock_step threshold thread s)
  unfolding unlock_step
  unlock-TakenApart s h = ground arith

  wake-TakenApart :
      (w : ℕ) (s : System) → TakenApart s → TakenApart (wake_step threshold thread w s)
  unfolding wake_step
  wake-TakenApart w s h = ground arith

  free-TakenApart :
      (s : System) → 0 < s.freeing → TakenApart s → TakenApart (free_step threshold thread s)
  unfolding free_step
  free-TakenApart s lt h = ground arith

  owner-TakenApart :
      (c : Choice) (s : System) → TakenApart s → TakenApart (owner_step threshold thread c s)
  unfolding owner_step
  owner-TakenApart c s h = ground arith

module _ {threshold thread : ℕ} where
  Step-TakenApart : {s t : System} → Step threshold thread s t → TakenApart s → TakenApart t
  Step-TakenApart {s} (owner_adds e) h = absurd (ground (arith, h.gone))
  Step-TakenApart {s} (guard_clones lt) h = absurd (ground (arith, h.no_guards))
  Step-TakenApart {s} (guard_moves spurious state lt) h = absurd (ground (arith, h.no_guards))
  Step-TakenApart {s} unlocks h = unlock-TakenApart threshold thread s h
  Step-TakenApart {s} (wakes w lt) h = wake-TakenApart threshold thread w s h
  Step-TakenApart {s} (frees lt) h = free-TakenApart threshold thread s lt h
  Step-TakenApart {s} (owner_moves c) h = owner-TakenApart threshold thread c s h
  Step-TakenApart {s} (owner_takes o e) h = absurd (ground (arith, h.gone))

  Step-Inv :
      {s t : System} → Step threshold thread s t → Inv threshold thread s → Sound threshold thread t
  Step-Inv {s} (owner_adds e) inv = inl (add_guard-Inv_owner threshold thread s e inv)
  Step-Inv {s} (guard_clones h) inv = inl (add_guard-Inv_guard threshold thread s h inv)
  Step-Inv {s} (guard_moves spurious state h) inv =
      inl (guard_step-Inv threshold thread spurious state s h inv)
  Step-Inv {s} unlocks inv = inl (unlock_step-Inv threshold thread s inv)
  Step-Inv {s} (wakes w h) inv = inl (wake_step-Inv threshold thread w s.owner s refl h inv)
  Step-Inv {s} (frees h) inv = inl (free_step-Inv threshold thread s h inv)
  Step-Inv {s} (owner_moves c) inv = inl (owner_step-Inv threshold thread c s.owner s refl inv)
  Step-Inv {s} {t} (owner_takes o e) inv = inr (takes-TakenApart threshold thread s t o e inv)

  Reach-Sound : {s : System} → Reach threshold thread s → Sound threshold thread s
  Reach-Sound begin = inl (Inv-start threshold thread)
  Reach-Sound (next r st) = elim (Reach-Sound r) [
    | inl inv ↦ Step-Inv st inv
    | inr h ↦ inr (Step-TakenApart st h)
  ]

  pub Reach-Inv :
      {s : System} → Reach threshold thread s → s.owner ≢ taken_apart → Inv threshold thread s
  Reach-Inv r ne = elim (Reach-Sound r) [ inl inv ↦ inv | inr h ↦ absurd (ne h.gone) ]

  -- Once every guard of a wait group is dropped, the owner is gone and no guard is in the middle
  -- of an unlock, the box has been freed once or one thread is about to free it.
  pub freed_if_gone :
      {s : System}
      → Reach threshold thread s
      → s.guards ≡ 0
      → s.owner ≡ dropped
      → s.unlocker ≡ nobody
      → s.freeing + s.frees ≡ 1
  freed_if_gone {s} r g o u = ground (arith, (Reach-Inv r (λ e. ground arith)).alive)

  -- While a wait group has not been freed and no thread is about to free it, its count is the
  -- number of its guards, plus one until the owner has dropped the group.
  pub counted :
      {s : System}
      → Reach threshold thread s
      → s.freeing + s.frees ≡ 0
      → count s.word ≡ s.guards + own s.owner
  counted {s} r e = elim (Reach-Sound r) [
    | inl inv ↦ ground (arith, inv.alive)
    | inr a ↦ absurd (ground (arith, a.freed))
  ]

  -- While a guard of a wait group holds the lock, the owner does not write its waker.
  pub waker_exclusive :
      {s : System}
      → Reach threshold thread s
      → busy s.unlocker ≡ true
      → ((o : Wait) → s.owner ≢ Owner.replacing o) × ((o : Wait) → s.owner ≢ Owner.putting o)
  waker_exclusive {s} r e = (
    λ o h. let inv = Reach-Inv r (λ g. ground arith) in ground (arith, h, inv.flagged),
    λ o h. let inv = Reach-Inv r (λ g. ground arith) in ground (arith, h, inv.flagged),
  )

  -- As long as the owner of a wait group has not dropped it, `get_left` is the number of its
  -- guards, `try_wait` answers `Ok` exactly when they are at most the threshold that the group
  -- was made with, and `try_into_inner` answers the value exactly when there is no guard.
  get_left_lem :
      {s : System}
      → Reach threshold thread s
      → s.owner ≢ dropped
      → s.owner ≢ taken_apart
      → (get_left s.word ≡ s.guards)
        × ((n : ℕ) → try_wait (own_threshold n) s.word ≡ leb s.guards n)
        × (s.guards ≡ 0 ↔ try_into_inner threshold thread s ≢ none)
  unfolding try_into_inner
  get_left_lem {s} r o ne =
      let inv = Reach-Inv r ne in
      (
        ground (arith, inv.alive),
        λ n. ground (arith, inv.alive),
        (λ g h. ground (arith, inv.alive), λ h. ground (arith, inv.alive)),
      )
