-- ===== src/WaitGroup/Inv.antt =====
-- src/waitgroup.rs: what the word says of the guards, the owner and the lock.
use crossfire_rs.Prelude.{
  ℕ, ◌+◌, ◌/◌, ◌^◌, ◌<◌, ◌≡◌, ◌⊎◌, inl, refl, Bool, true, false, not, ◌&&◌, ◌||◌, Option, none,
  some, if◌then◌else◌, ◌==◌, ltb, leb, arith,
}
use crossfire_rs.WaitGroup.{count, is_locked, has_waker}
use crossfire_rs.WaitGroup.System.{
  System, blocks, Owner, check, poll_check, will_check, decide, replacing, replaced, putting, put,
  parking, pending, dropping, dropped, Unlocker, nobody, taking, clearing, start, waker_of,
  may_skip,
}

abbrev pub flags : System → ℕ
flags s = s.word / 2 ^ 62

-- 1 while the owner holds its reference.
abbrev pub own : Owner → ℕ
own dropped = 0
own _ = 1

abbrev pub busy : Unlocker → Bool
busy nobody = false
busy _ = true

abbrev pub owner_locks : Owner → Bool
owner_locks (replacing o) = true
owner_locks (replaced o) = true
owner_locks _ = false

abbrev pub owner_puts : Owner → Bool
owner_puts (putting o) = true
owner_puts (put o) = true
owner_puts _ = false

abbrev pub is_waker : ℕ → Option ℕ → Bool
is_waker w none = false
is_waker w (some v) = v == w

-- Whether the guard that holds the lock has this waker, or takes it.
abbrev pub carries : ℕ → Unlocker → Option ℕ → Bool
carries w taking o_waker = is_waker w o_waker
carries w (clearing found) o_waker = is_waker w found
carries w nobody o_waker = false

module _ (threshold thread : ℕ) where
  -- A wake of this waker has come, is on its way, or will be sent by the guard that brings the
  -- count down to the threshold.
  abbrev pub awaited : ℕ → System → Bool
  awaited w s =
      s.token w
      || ltb 0 (s.waking w)
      || carries w s.unlocker s.o_waker
      || flags s == 2 && ltb threshold (count s.word) && is_waker w s.o_waker

  abbrev OwnerFacts : Owner → System → Type 0
  OwnerFacts parking s = awaited thread s ≡ true
  OwnerFacts (pending w) s = awaited w s ≡ true
  OwnerFacts (will_check w) s = awaited w s ≡ true
  OwnerFacts (decide state o) s =
      ((is_locked state || has_waker state || flags s == 0) ≡ true)
      × ((leb (count state) threshold
            || is_locked state
            || not (has_waker state)
            || not (may_skip o)
            || awaited thread s)
          ≡ true)
  OwnerFacts (dropping state) s =
      (is_locked state || ltb 1 (count state) || s.guards == 0 && not (busy s.unlocker)) ≡ true
  OwnerFacts _ s = Unit

  -- The waker that the owner has left there, if any is still there.
  abbrev pub expected : Owner → Option ℕ → Bool
  expected (check true) o = is_waker thread o
  expected (decide state (blocks true)) o = is_waker thread o
  expected parking o = is_waker thread o
  expected (poll_check w (some v)) o = is_waker v o
  expected (will_check w) o = is_waker w o
  expected (pending w) o = is_waker w o
  expected _ o = true

  abbrev stored : Owner → Option ℕ → Bool
  stored (replaced o) w = is_waker (waker_of threshold thread o) w
  stored (put o) w = is_waker (waker_of threshold thread o) w
  stored _ w = true

  pub record Inv (s : System) : Type 0 where
    pub alive :
        ((s.freeing + s.frees ≡ 0)
          × (count s.word ≡ s.guards + own s.owner)
          × (0 < s.guards + own s.owner + (if busy s.unlocker then 1 else 0)))
        ⊎ ((s.freeing + s.frees ≡ 1) × (s.guards ≡ 0) × (s.owner ≡ dropped) × (s.unlocker ≡ nobody))
    pub flagged :
        (if busy s.unlocker
          then flags s == 1 && not (owner_locks s.owner) && not (owner_puts s.owner)
          else if owner_locks s.owner
          then flags s == 1
          else if owner_puts s.owner
          then flags s == 0
          else flags s == 0 || flags s == 2)
        ≡ true
    pub waker_expected : (not (flags s == 2) || expected s.owner s.o_waker) ≡ true
    pub waker_stored : stored s.owner s.o_waker ≡ true
    pub owner_facts : OwnerFacts s.owner s

  pub Inv-start : Inv start
  Inv-start = record {
    alive = inl (omega arith, omega arith, omega arith);
    flagged = ground arith;
    waker_expected = ground arith;
    waker_stored = refl;
    owner_facts = tt;
  }
