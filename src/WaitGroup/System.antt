-- ===== src/WaitGroup/System.antt =====
-- src/waitgroup.rs: a wait group, its guards and the thread or task that owns and waits on it.
--
-- The guards are counted: any of them may take the next step, with any word loaded before. The
-- owner waits as `wait_blocking` does, or polls a future as `poll_async` does. A waker is a number,
-- the one of the owner's thread is `thread`, and each poll comes with any other or the same.
use crossfire_rs.Prelude.{
  ℕ, ◌+◌, ◌-◌, ◌<◌, ◌≡◌, Bool, true, false, not, ◌&&◌, ◌||◌, Option, none, some, if◌then◌else◌,
  ◌==◌, ltb, leb,
}
use crossfire_rs.WaitGroup.{
  count, get_left, is_locked, has_waker, try_lock, add, Done, done_round, panic, last, locked,
  released, retry, clear_flags, swap_flags, set_flag, Decision, met, again, skip, lock, store,
  set_waker_round,
}

-- What the owner waits for: its thread is to be unparked, where `may_skip` says that it has set its
-- waker before; or the task with this waker is to be woken.
pub data Wait : Type 0 where
  blocks : Bool → Wait
  polls : ℕ → Wait

-- Where the owner is: between calls; before a check of the count in `wait_blocking`; before the two
-- checks in `poll_async`, with the waker of the context, and at the first the waker that the future
-- keeps; in `try_set_waker`, with the word it loaded; with the lock, before and after it replaces
-- the waker; without, before and after; before `park`; with a pending future, that keeps a waker; in
-- `destroy`, with the word it loaded; gone; gone by `try_into_inner`.
pub data Owner : Type 0 where
  idle : Owner
  check : Bool → Owner
  poll_check : ℕ → Option ℕ → Owner
  will_check : ℕ → Owner
  decide : ℕ → Wait → Owner
  replacing : Wait → Owner
  replaced : Wait → Owner
  putting : Wait → Owner
  put : Wait → Owner
  parking : Owner
  pending : ℕ → Owner
  dropping : ℕ → Owner
  dropped : Owner
  taken_apart : Owner

-- The guard that holds the lock: before it takes the waker, or after, with the waker, if there was
-- one.
pub data Unlocker : Type 0 where
  nobody : Unlocker
  taking : Unlocker
  clearing : Option ℕ → Unlocker

-- Of each waker, whether it was woken since its thread was last unparked or its future last polled,
-- and the number of threads that are about to wake it.
pub record System : Type 0 where
  pub word : ℕ
  pub o_waker : Option ℕ
  pub token : ℕ → Bool
  pub guards : ℕ
  pub owner : Owner
  pub unlocker : Unlocker
  pub waking : ℕ → ℕ
  pub freeing : ℕ  -- threads about to free the box
  pub frees : ℕ

abbrev pub start : System
start = record {
  word = 1;
  o_waker = none;
  token = λ v. false;
  guards = 0;
  owner = idle;
  unlocker = nobody;
  waking = λ v. 0;
  freeing = 0;
  frees = 0;
}

abbrev pub set_token : ℕ → Bool → (ℕ → Bool) → ℕ → Bool
set_token w b f v = if v == w then b else f v

abbrev pub more_waking : Option ℕ → (ℕ → ℕ) → ℕ → ℕ
more_waking none f v = f v
more_waking (some w) f v = if v == w then f v + 1 else f v

abbrev pub less_waking : ℕ → (ℕ → ℕ) → ℕ → ℕ
less_waking w f v = if v == w then f v - 1 else f v

-- `will_wake`, where the future keeps a waker.
abbrev pub will_wake : Option ℕ → ℕ → Bool
will_wake none w = false
will_wake (some v) w = v == w

abbrev pub may_skip : Wait → Bool
may_skip (blocks m) = m
may_skip (polls w) = false

-- What the environment decides for the owner: what it does next when it is idle, or has a pending
-- future; whether the backoff goes on, whether the deadline has passed, and whether an exchange
-- fails or `park` returns spuriously.
pub data Call : Type 0 where
  waits : Call
  polled_by : ℕ → Call
  drops : Call

pub record Choice : Type 0 where
  pub call : Call
  pub snooze : Bool
  pub expired : Bool
  pub spurious : Bool

module _ (threshold thread : ℕ) where
  -- `add_guard` of the owner, and `clone` of a guard. Where the count overflows, the code panics
  -- after it has added; the state that is left then is not modelled.
  unfoldable pub add_guard : System → System
  unfolding add
  add_guard s = elim (add 1 s.word) [
    | none ↦ s
    | some w ↦ record s { word = w; guards = s.guards + 1 }
  ]

  -- What a round of a guard in `done_ptr` does to the group.
  unfoldable pub apply_done : Done → System → System
  apply_done panic s = s
  apply_done (retry _) s = s
  apply_done last s = record s { guards = s.guards - 1; freeing = s.freeing + 1 }
  apply_done (locked w) s = record s { word = w; guards = s.guards - 1; unlocker = taking }
  apply_done (released w) s = record s { word = w; guards = s.guards - 1 }

  -- One round of a guard in `done_ptr`, at the word that it loaded before.
  unfoldable pub guard_step : Bool → ℕ → System → System
  guard_step spurious state s = apply_done (done_round true spurious 1 threshold state s.word) s

  -- The guard that holds the lock takes the waker, then unlocks.
  unfoldable pub unlock_step : System → System
  unlock_step s = elim s.unlocker [
    | nobody ↦ s
    | taking ↦ record s { o_waker = none; unlocker = clearing s.o_waker }
    | clearing found ↦
        (if count s.word == 0
          then record s { word = clear_flags s.word; unlocker = nobody; freeing = s.freeing + 1 }
          else record s {
            word = clear_flags s.word;
            unlocker = nobody;
            waking = more_waking found s.waking;
          })
  ]

  unfoldable pub wake_step : ℕ → System → System
  wake_step w s = record s { waking = less_waking w s.waking; token = set_token w true s.token }

  unfoldable pub free_step : System → System
  free_step s = record s { freeing = s.freeing - 1; frees = s.frees + 1 }

  abbrev pub waker_of : Wait → ℕ
  waker_of (blocks m) = thread
  waker_of (polls w) = w

  -- What the owner does once its waker is set: it parks, or answers `Pending`.
  abbrev pub wait_on : Wait → Owner
  wait_on (blocks m) = parking
  wait_on (polls w) = pending w

  -- What the owner does after a decision of `try_set_waker` about the word `state`.
  unfoldable pub apply_decision : Decision → ℕ → Wait → System → System
  apply_decision met state o s = record s { owner = idle }
  apply_decision again state o s = record s { owner = decide s.word o }
  apply_decision skip state o s = record s { owner = wait_on o }
  apply_decision lock state o s = record s { word = try_lock state; owner = replacing o }
  apply_decision store state o s = record s { owner = putting o }

  unfoldable pub set_waker_step : Bool → ℕ → Wait → System → System
  set_waker_step spurious state o s =
      apply_decision (set_waker_round spurious threshold (may_skip o) state s.word) state o s

  -- What `try_set_waker` makes of the count that its last access found.
  abbrev pub after_set : ℕ → Wait → Owner
  after_set old o = if leb (count old) threshold then idle else wait_on o

  -- One round of `destroy`, at the word that it loaded before.
  unfoldable pub destroy_step : Bool → ℕ → System → System
  destroy_step spurious state s =
      if is_locked state || ltb 1 (count state)
      then (if s.word == state && not spurious
          then record s { word = state - 1; owner = dropped }
          else record s { owner = dropping s.word })
      else record s { owner = dropped; freeing = s.freeing + 1 }

  -- A poll of a future that keeps a waker, if it was polled before. A wake before the poll is the
  -- reason for it.
  abbrev pub begin_poll : ℕ → Option ℕ → System → System
  begin_poll w kept s = record s { token = set_token w false s.token; owner = poll_check w kept }

  -- The first check of `poll_async`, which also sees whether a waker is set.
  unfoldable pub poll_check_step : ℕ → Option ℕ → System → System
  poll_check_step w kept s = record s {
    owner =
        if leb (count s.word) threshold
        then idle
        else if has_waker s.word && will_wake kept w
        then will_check w
        else decide s.word (polls w);
  }

  unfoldable pub idle_step : Call → System → System
  idle_step waits s = record s { owner = check false }
  idle_step (polled_by w) s = begin_poll w none s
  idle_step drops s = record s { owner = dropping s.word }

  -- A pending future is polled again, or dropped, also when its timer is first.
  unfoldable pub pending_step : ℕ → Call → System → System
  pending_step v (polled_by w) s = begin_poll w (some v) s
  pending_step v _ s = record s { owner = idle }

  unfoldable pub owner_step : Choice → System → System
  owner_step c s = elim s.owner [
    | idle ↦ idle_step c.call s
    | check m ↦ record s {
      owner =
          if leb (count s.word) threshold
          then idle
          else if c.snooze
          then check m
          else decide s.word (blocks m);
    }
    | poll_check w kept ↦ poll_check_step w kept s
    | will_check w ↦ record s { owner = if leb (count s.word) threshold then idle else pending w }
    | decide state o ↦ set_waker_step c.spurious state o s
    | replacing o ↦ record s { o_waker = some (waker_of o); owner = replaced o }
    | replaced o ↦ record s { word = swap_flags s.word; owner = after_set s.word o }
    | putting o ↦ record s { o_waker = some (waker_of o); owner = put o }
    | put o ↦ record s { word = set_flag s.word; owner = after_set s.word o }
    | parking ↦
        (if c.expired
          then record s { owner = idle }
          else if s.token thread || c.spurious
          then record s { token = set_token thread false s.token; owner = check true }
          else s)
    | pending v ↦ pending_step v c.call s
    | dropping state ↦ destroy_step c.spurious state s
    | dropped ↦ s
    | taken_apart ↦ s
  ]

  -- `try_into_inner` of an owner between calls: it frees the box, or gives the group back. It looks
  -- at the count alone, and not at the lock.
  unfoldable pub try_into_inner : System → Option System
  try_into_inner s =
      if get_left s.word == 0
      then some (record s { owner = taken_apart; freeing = s.freeing + 1 })
      else none

  -- Between calls, or with a pending future.
  abbrev pub may_add : Owner → Bool
  may_add idle = true
  may_add (pending v) = true
  may_add _ = false

  pub data Step (s : System) : System → Type 0 where
    owner_adds : may_add s.owner ≡ true → Step s (add_guard s)
    guard_clones : 0 < s.guards → Step s (add_guard s)
    guard_moves :
        (spurious : Bool) (state : ℕ) → 0 < s.guards → Step s (guard_step spurious state s)
    unlocks : Step s (unlock_step s)
    wakes : (w : ℕ) → 0 < s.waking w → Step s (wake_step w s)
    frees : 0 < s.freeing → Step s (free_step s)
    owner_moves : (c : Choice) → Step s (owner_step c s)
    owner_takes : {t : System} → s.owner ≡ idle → try_into_inner s ≡ some t → Step s t

  pub data Reach : System → Type 0 where
    begin : Reach start
    next : {s t : System} → Reach s → Step s t → Reach t
