-- ===== src/Oneshot/Inv.antt =====
-- src/oneshot.rs: which flags, value, waker and number of frees go with which two positions.
use crossfire_rs.Prelude.{
  ◌≡◌, Bool, true, false, not, ◌&&◌, ◌||◌, Option, none, some, if◌then◌else◌, arith,
}
use crossfire_rs.Waker.{ThinWaker, async}
use crossfire_rs.Oneshot.{
  Flags, Inner, Tx, Rx, Choice, new, exists, tx_step, rx_step, ready, exchange, waking, closing,
  freeing, ended, idle, poll_check, poll_cancel, poll_put, poll_set, recv_spin, recv_put, recv_set,
  recv_wait, recv_check, recv_cancel, consume, consuming, finished, repeated, timed_out, dropped,
  only_waker,
}
use crossfire_rs.Oneshot.System.{late_call}

abbrev pub tx_ended : Tx → Bool
tx_ended (ended _) = true
tx_ended _ = false

-- The receiver no longer uses the box.
abbrev pub rx_ended : {A : Type 0} → Rx A → Bool
rx_ended (finished _) = true
rx_ended (repeated _) = true
rx_ended timed_out = true
rx_ended dropped = true
rx_ended _ = false

-- The receiver has taken the value, or seen that there is none.
abbrev pub taken : {A : Type 0} → Rx A → Bool
taken (consuming _ _) = true
taken (finished _) = true
taken (repeated _) = true
taken _ = false

-- The receiver waits with its waker registered.
abbrev pub registered : {A : Type 0} → Rx A → Bool
registered (idle polled) = polled
registered (recv_wait _) = true
registered (recv_check _) = true
registered recv_cancel = true
registered (poll_cancel _) = true
registered (poll_check s _) = s.waker_set
registered _ = false

abbrev not_started : Tx → Bool
not_started ready = true
not_started _ = false

-- The sender has woken the waker, if there was one, or is done.
abbrev past_wake : Tx → Bool
past_wake (closing _) = true
past_wake (ended _) = true
past_wake _ = false

-- The sender has found the receiver closed, and frees the box or has freed it.
abbrev tx_frees : Tx → Bool
tx_frees freeing = true
tx_frees (ended f) = f
tx_frees _ = false

abbrev is_async : Option ThinWaker → Bool
is_async (some (async _)) = true
is_async _ = false

module _ {A : Type 0} (plan : Option A) where
  abbrev locked_flags : Flags
  locked_flags = record only_waker { lock = true; exist = exists plan }

  -- What the position of the sender says of the box.
  abbrev pub TxFacts : Tx → Inner A → Type 0
  TxFacts ready i = (i.state.lock ≡ false) × (i.state.exist ≡ false)
  TxFacts (exchange old) i =
      (i.state.lock ≡ false)
      × (i.state.exist ≡ false)
      × (old.lock ≡ false)
      × (old.exist ≡ false)
      × ((old.close && not i.state.close) ≡ false)
  TxFacts (waking new) i =
      (new ≡ locked_flags)
      × (i.state.lock ≡ true)
      × (i.state.waker_set ≡ true)
      × (i.state.exist ≡ exists plan)
      × (exists i.o_waker ≡ true)
  TxFacts (closing new) i =
      (new ≡ locked_flags)
      × (i.state.lock ≡ true)
      × (i.state.waker_set ≡ true)
      × (i.state.exist ≡ exists plan)
  TxFacts freeing i = i.state.close ≡ true
  TxFacts (ended true) i = i.state.close ≡ true
  TxFacts (ended false) i =
      (i.state.lock ≡ true)
      × (i.state.waker_set ≡ false)
      × (i.state.close ≡ true)
      × (i.state.exist ≡ exists plan)
  TxFacts Tx.fault i = ⊥

  -- While the receiver uses the box, only the sender has closed it.
  abbrev Open : Inner A → Type 0
  Open i = i.state.close ≡ (i.state.lock && not i.state.waker_set)

  abbrev Registered : Inner A → Type 0
  Registered i = Open i × ((i.state.lock || i.state.waker_set) ≡ true) × (exists i.o_waker ≡ true)

  -- `s` was loaded with LOCK_FLAG set.
  abbrev Loaded : Flags → Inner A → Type 0
  Loaded s i =
      Open i
      × (i.state.lock ≡ true)
      × (s.lock ≡ true)
      × (s.exist ≡ i.state.exist)
      × (s.close ≡ not s.waker_set)
      × ((s.close && not i.state.close) ≡ false)

  -- What the position of the receiver says of the box, where it was misused.
  abbrev MisusedFacts : Rx A → Inner A → Type 0
  MisusedFacts (recv_spin _) i = Registered i
  MisusedFacts (recv_put _) i = Registered i
  MisusedFacts (recv_set _) i = Registered i
  MisusedFacts (consume s) i = Registered i × ((s.close && not i.state.close) ≡ false)
  MisusedFacts (consuming s item) i = Registered i × ((s.close && not i.state.close) ≡ false)
  MisusedFacts (finished item) i = i.state.close ≡ true
  MisusedFacts (repeated item) i = i.state.close ≡ true
  MisusedFacts Rx.fault i = Registered i
  MisusedFacts _ i = ⊥

  -- What it says otherwise.
  abbrev pub RxFacts : Rx A → Inner A → Type 0
  RxFacts (idle true) i = Registered i × (is_async i.o_waker ≡ true)
  RxFacts (idle false) i = Open i × (i.state.waker_set ≡ false)
  RxFacts (poll_check s _) i =
      Open i
      × (s.lock ≡ false)
      × (s.exist ≡ false)
      × (s.close ≡ false)
      × ((not s.waker_set || (i.state.lock || i.state.waker_set)) ≡ true)
      × ((s.waker_set || not i.state.waker_set) ≡ true)
      × ((not s.waker_set || is_async i.o_waker) ≡ true)
  RxFacts (poll_cancel _) i = Registered i × (is_async i.o_waker ≡ true)
  RxFacts (poll_put _) i = Open i × (i.state.waker_set ≡ false)
  RxFacts poll_set i = Open i × (i.state.waker_set ≡ false) × (is_async i.o_waker ≡ true)
  RxFacts (recv_spin _) i = Open i × (i.state.waker_set ≡ false)
  RxFacts (recv_put _) i = Open i × (i.state.waker_set ≡ false)
  RxFacts (recv_set _) i = Open i × (i.state.waker_set ≡ false) × (exists i.o_waker ≡ true)
  RxFacts (recv_wait _) i = Registered i
  RxFacts (recv_check _) i = Registered i
  RxFacts recv_cancel i = Registered i
  RxFacts (consume s) i = Loaded s i
  RxFacts (consuming s item) i = Loaded s i × (item ≡ plan)
  RxFacts (finished item) i = (i.state.close ≡ true) × (i.state.lock ≡ true) × (item ≡ plan)
  RxFacts (repeated item) i = (i.state.close ≡ true) × (i.state.lock ≡ true) × (item ≡ plan)
  RxFacts timed_out i = i.state.close ≡ true
  RxFacts dropped i = i.state.close ≡ true
  RxFacts Rx.fault i = ⊥

  abbrev pub FactsIf : Bool → Rx A → Inner A → Type 0
  FactsIf false rx i = RxFacts rx i
  FactsIf true rx i = MisusedFacts rx i

  pub record Inv (misused : Bool) (tx : Tx) (rx : Rx A) (i : Inner A) : Type 0 where
    pub tx_facts : TxFacts tx i
    pub rx_facts : FactsIf misused rx i
    pub value_kept :
        (if misused then none else i.value)
        ≡ (if misused || not_started tx || taken rx then none else plan)
    pub counted : i.frees ≡ (if tx_ended tx && rx_ended rx then 1 else 0)
    pub gone : (tx_frees tx && not (rx_ended rx)) ≡ false
    pub answered : (if registered rx && past_wake tx then i.woken else i.o_waker) ≡ i.o_waker

  pub Inv-new : Inv false ready (idle false) new
  unfolding new
  Inv-new = ground arith

  -- An access of the receiver keeps the invariant.
  pub rx_step-Inv :
      (debug : Bool) (c : Choice) (m : Bool) (tx : Tx) (rx : Rx A) (i : Inner A)
      → Inv m tx rx i
      → let (rx', i') = rx_step debug c rx i in Inv (m || late_call rx c.call) tx rx' i'
  unfolding rx_step
  rx_step-Inv debug c false tx poll_set i inv = ground arith
  rx_step-Inv debug c false tx (poll_put t) i inv = ground arith
  rx_step-Inv debug c false tx (consume s) i inv = ground arith
  rx_step-Inv debug c false tx (consuming s item) i inv = ground arith
  rx_step-Inv debug c false tx rx i inv = ground arith
  rx_step-Inv debug c true tx rx i inv = ground arith

  tx_step-Inv_used :
      (debug spurious : Bool) (tx : Tx) (rx : Rx A) (i : Inner A)
      → Inv false tx rx i
      → let (tx', i') = tx_step debug plan spurious tx i in Inv false tx' rx i'
  unfolding tx_step
  tx_step-Inv_used debug spurious freeing rx i inv = ground arith
  tx_step-Inv_used debug spurious tx rx i inv = ground arith

  tx_step-Inv_misused :
      (debug spurious : Bool) (tx : Tx) (rx : Rx A) (i : Inner A)
      → Inv true tx rx i
      → let (tx', i') = tx_step debug plan spurious tx i in Inv true tx' rx i'
  unfolding tx_step
  tx_step-Inv_misused debug spurious freeing rx i inv = ground arith
  tx_step-Inv_misused debug spurious tx rx i inv = ground arith

  -- An access of the sender keeps the invariant.
  pub tx_step-Inv :
      (debug spurious m : Bool) (tx : Tx) (rx : Rx A) (i : Inner A)
      → Inv m tx rx i
      → let (tx', i') = tx_step debug plan spurious tx i in Inv m tx' rx i'
  tx_step-Inv debug spurious false tx rx i inv = tx_step-Inv_used debug spurious tx rx i inv
  tx_step-Inv debug spurious true tx rx i inv = tx_step-Inv_misused debug spurious tx rx i inv
