-- ===== src/Multiplex/System.antt =====
-- src/select/multiplex.rs: a blocking receive, with senders of every channel at work.
--
-- A queue is the number of its items. A try of the receiver, and a send, which puts an item in and
-- fires after that, are one step each on the queue. The waker of the receiver, whose state is never
-- `Waiting`, is woken or not, and the cell of its `SelectWaker` holds it or not.
use crossfire_rs.Prelude.{
  ℕ, zero, suc, ◌+◌, ◌-◌, ◌<◌, Bool, true, false, not, ◌&&◌, ◌||◌, if◌then◌else◌, ◌==◌, ltb,
}
use crossfire_rs.Multiplex.{next_idx}

-- The search that a call begins with; one of those that go on while the receiver backs off; and the
-- final one, with whether all channels were closed before it.
pub data Phase : Type 0 where
  first : Phase
  spinning : Phase
  final : Bool → Phase

abbrev pub is_final : Phase → Bool
is_final (final closed) = true
is_final _ = false

-- Where the receiver is: between calls; at the channel of its last receive, from which it may receive
-- again; in a search, behind the index of the channel it looked at last, with the number of those to
-- go; in `init_blocking`, before it resets its waker, puts it into the cell and clears the hint; before
-- it reads the count of open channels; before `park`; and after it, before it reads its state.
pub data Receiver : Type 0 where
  idle : Receiver
  cached : Receiver
  search : Phase → ℕ → ℕ → Receiver
  resetting : Receiver
  storing : Receiver
  hinting : Receiver
  counting : Receiver
  parking : Receiver
  checking : Receiver

pub record System : Type 0 where
  pub items : ℕ → ℕ
  pub firing : ℕ → ℕ  -- senders between their push to a channel and their fire
  pub opened : ℕ
  pub closing : ℕ  -- threads that took 1 off `opened` and are about to wake the receiver
  pub cell : Bool
  pub hint : ℕ
  pub woken : Bool
  pub waking : ℕ  -- threads that took the waker out of the cell
  pub unparking : ℕ  -- threads that changed the state to `Woken`
  pub token : Bool
  pub last_idx : ℕ
  pub start_idx : ℕ
  pub receiver : Receiver

-- What the environment decides for the receiver: whether its count lets it receive again from the same
-- channel, whether a try that is not final fails for no reason, whether the backoff goes on, whether the deadline has passed, and whether `park` returns with no
-- token.
pub record Choice : Type 0 where
  pub again : Bool
  pub spurious : Bool
  pub snooze : Bool
  pub expired : Bool

abbrev pub add_at : ℕ → (ℕ → ℕ) → ℕ → ℕ
add_at i f j = if j == i then f j + 1 else f j

abbrev pub take_at : ℕ → (ℕ → ℕ) → ℕ → ℕ
take_at i f j = if j == i then f j - 1 else f j

module _ (len : ℕ) where
  abbrev pub start : System
  start = record {
    items = λ i. 0;
    firing = λ i. 0;
    opened = len;
    closing = 0;
    cell = false;
    hint = 0;
    woken = false;
    waking = 0;
    unparking = 0;
    token = false;
    last_idx = len - 1;
    start_idx = len - 1;
    receiver = idle;
  }

  unfoldable pub send : ℕ → System → System
  send i s = record s { items = add_at i s.items; firing = add_at i s.firing }

  -- `wake` of the wrapper of channel `i`, up to the wake. The hint, on which nothing depends but where a
  -- search starts, is stored in the step that empties the cell.
  abbrev pub pop_cell : ℕ → System → System
  pop_cell i s = if s.cell then record s { cell = false; hint = i; waking = s.waking + 1 } else s

  unfoldable pub fire : ℕ → System → System
  fire i s = pop_cell i (record s { firing = take_at i s.firing })

  unfoldable pub close : System → System
  close s = record s { opened = s.opened - 1; closing = s.closing + 1 }

  unfoldable pub close_wake : ℕ → System → System
  close_wake i s = pop_cell i (record s { closing = s.closing - 1 })

  -- `wake` of the waker, up to its change of the state, and the rest.
  unfoldable pub wake : System → System
  wake s =
      if s.woken
      then record s { waking = s.waking - 1 }
      else record s { waking = s.waking - 1; woken = true; unparking = s.unparking + 1 }

  unfoldable pub unpark : System → System
  unpark s = record s { unparking = s.unparking - 1; token = true }

  -- The end of a search that found nothing.
  abbrev pub search_ends : Phase → Choice → System → System
  search_ends first c s = record s { receiver = search spinning s.start_idx len }
  search_ends spinning c s = record s {
    receiver = if c.snooze then search spinning s.start_idx len else resetting;
  }
  search_ends (final closed) c s = record s { receiver = if closed then idle else parking }

  -- An item that is found is returned.
  abbrev pub take : ℕ → System → System
  take i s = record s { items = take_at i s.items; last_idx = i; receiver = idle }

  -- A try of the next channel.
  unfoldable pub search_step : Phase → ℕ → ℕ → Choice → System → System
  search_step p idx zero c s = search_ends p c s
  search_step p idx (suc n) c s =
      let i = next_idx len idx in
      if ltb 0 (s.items i) && (is_final p || not c.spurious)
      then take i s
      else record s { receiver = search p i n }

  unfoldable pub receiver_step : Choice → System → System
  receiver_step c s = elim s.receiver [
    | idle ↦ record s {
      start_idx = s.last_idx;
      receiver = if c.again then cached else search first s.last_idx len;
    }
    | cached ↦
        (if ltb 0 (s.items s.last_idx) && not c.spurious
          then take s.last_idx s
          else record s { receiver = search first s.last_idx (len - 1) })
    | search p idx n ↦ search_step p idx n c s
    | resetting ↦ record s { woken = false; receiver = storing }
    | storing ↦ record s { cell = true; receiver = hinting }
    | hinting ↦ record s { hint = 0; receiver = counting }
    | counting ↦ record s { receiver = search (final (s.opened == 0)) s.start_idx len }
    | parking ↦
        (if c.expired
          then record s { receiver = idle }
          else if s.token || c.spurious
          then record s { token = false; receiver = checking }
          else s)
    | checking ↦
        (if s.woken
          then record s { start_idx = s.hint; receiver = search spinning s.hint len }
          else record s { receiver = parking })
  ]

  pub data Step (s : System) : System → Type 0 where
    sends : (i : ℕ) → i < len → 0 < s.opened → Step s (send i s)
    fires : (i : ℕ) → i < len → 0 < s.firing i → Step s (fire i s)
    closes : 0 < s.opened → Step s (close s)
    close_wakes : (i : ℕ) → i < len → 0 < s.closing → Step s (close_wake i s)
    wakes : 0 < s.waking → Step s (wake s)
    unparks : 0 < s.unparking → Step s (unpark s)
    receives : (c : Choice) → Step s (receiver_step c s)

  pub data Reach : System → Type 0 where
    begin : Reach start
    next : {s t : System} → Reach s → Step s t → Reach t
