-- ===== src/Oneshot/Safety.antt =====
-- src/oneshot.rs: what holds in every state that a sender and a receiver reach.
use mathlib.Core.Path.{subst}
use crossfire_rs.Prelude.{
  sym, none, ℕ, ◌≡◌, ◌≢◌, refl, Bool, true, false, not, ◌&&◌, Option, none, if◌then◌else◌, arith,
}
use crossfire_rs.Oneshot.{
  Flags, Inner, Tx, Rx, drop, recv, Choice, exists, ready, waking, ended, only_waker, idle,
  poll_put, recv_put, consume, finished, repeated, try_recv,
}
use crossfire_rs.Oneshot.System.{
  System, Step, sender, receiver, Reach, begin, next, after_tx, after_rx,
}
use crossfire_rs.Oneshot.Inv.{
  Inv, Inv-new, rx_step-Inv, tx_step-Inv, tx_ended, rx_ended, registered, TxFacts, FactsIf,
}

tx-ne-fault :
    {A : Type 0} (plan : Option A) (tx : Tx) (i : Inner A) → TxFacts plan tx i → tx ≢ Tx.fault
tx-ne-fault plan ready i h = ground arith
tx-ne-fault plan tx i h = ground arith

rx-ne-fault :
    {A : Type 0} (plan : Option A) (m : Bool) (rx : Rx A) (i : Inner A)
    → m ≡ false
    → FactsIf plan m rx i
    → rx ≢ Rx.fault
rx-ne-fault plan false (consume f) i e h = ground arith
rx-ne-fault plan false rx i e h = ground arith
rx-ne-fault plan true rx i e h = absurd (cc)

registered-exists :
    {A : Type 0} (plan : Option A) (m : Bool) (rx : Rx A) (i : Inner A)
    → FactsIf plan m rx i
    → registered rx ≡ true
    → exists i.o_waker ≡ true
registered-exists plan false (idle true) i h w = ground arith
registered-exists plan false rx i h w = ground arith
registered-exists plan true rx i h w = ground arith

abbrev pub receive : Choice
receive = record { call = try_recv; snooze = false; expired = false; thread = 0 }

abbrev pub three_steps : {A : Type 0} → Bool → System A → System A
three_steps debug s = after_rx debug receive (after_rx debug receive (after_rx debug receive s))

-- A blocking receive whose backoff is over at once.
abbrev pub blocks : Bool → Choice
blocks timed = record { call = recv timed; snooze = false; expired = false; thread = 0 }

abbrev pub six_steps : {A : Type 0} → Bool → Choice → System A → System A
six_steps debug c s = let once = after_rx debug c in once (once (once (once (once (once s)))))

module _ {A : Type 0} (plan : Option A) where
  item_sent :
      (m : Bool) (rx : Rx A) (i : Inner A) (item : Option A)
      → m ≡ false
      → FactsIf plan m rx i
      → rx ≡ finished item
      → item ≡ plan
  item_sent false rx i item e h f = ground (arith, h)
  item_sent true rx i item e h f = absurd (cc)

  writes_apart :
      (m : Bool) (tx : Tx) (rx : Rx A) (i : Inner A) (f : Flags) (task : ℕ) (timed : Bool)
      → Inv plan m tx rx i
      → m ≡ false
      → tx ≡ waking f
      → (rx ≢ poll_put task) × (rx ≢ recv_put timed)
  writes_apart true tx rx i f task timed inv m e = absurd (cc)
  writes_apart false tx rx i f task timed inv m e =
      (ground (arith, inv.rx_facts, inv.tx_facts), ground (arith, inv.rx_facts, inv.tx_facts))

  answers :
      (debug polled m : Bool) (i : Inner A)
      → Inv plan m (ended false) (idle polled) i
      → let s : System A = record { tx = ended false; rx = idle polled; inner = i; misused = m } in
        ((three_steps debug s).rx ≡ finished plan) × ((three_steps debug s).inner.frees ≡ 1)
  unfolding after_rx
  answers debug true false i inv = ground arith
  answers debug false false i inv = ground arith
  answers debug polled true i inv = absurd (inv.rx_facts)

  abbrev pub Closes : Bool → System A → Type 0
  Closes debug t =
      (t.rx ≡ (if debug then Rx.fault else finished none)) × (t.inner.state.close ≡ not debug)

  late_run :
      (debug timed : Bool) (s : System A)
      → Closes debug (
          six_steps debug
            (blocks timed)
            (record s { rx = idle true; inner = record s.inner { state = only_waker } }))
  unfolding after_rx
  late_run true timed s = (refl, refl)
  late_run false timed s = (refl, refl)

  only_waker_set :
      (m : Bool) (tx : Tx) (i : Inner A)
      → Inv plan m tx (idle true) i
      → i.state.lock ≡ false
      → i.state ≡ only_waker
  only_waker_set false tx i inv e = ground (arith, inv.tx_facts, inv.rx_facts, inv.gone)
  only_waker_set true tx i inv e = absurd (inv.rx_facts)

module _ {A : Type 0} {debug : Bool} {plan : Option A} where
  Step-Inv :
      {s t : System A}
      → Step debug plan s t
      → Inv plan s.misused s.tx s.rx s.inner
      → Inv plan t.misused t.tx t.rx t.inner
  unfolding after_tx after_rx
  Step-Inv {s} (sender spurious) inv =
      tx_step-Inv plan debug spurious s.misused s.tx s.rx s.inner inv
  Step-Inv {s} (receiver c) inv = rx_step-Inv plan debug c s.misused s.tx s.rx s.inner inv

  pub Reach-Inv : {s : System A} → Reach debug plan s → Inv plan s.misused s.tx s.rx s.inner
  Reach-Inv begin = Inv-new plan
  Reach-Inv (next r st) = Step-Inv st (Reach-Inv r)

  -- However a sender and a receiver of a oneshot channel interleave, with or without debug
  -- assertions, the sender never reaches a panic, an `unwrap` of none, an `unreachable!` or a
  -- failed assertion, and the receiver does not either unless a blocking receive was called after
  -- a `poll` that left its waker registered.
  pub no_fault :
      {s : System A}
      → Reach debug plan s
      → (s.tx ≢ Tx.fault) × (s.misused ≡ false → s.rx ≢ Rx.fault)
  no_fault {s} r =
      let inv = Reach-Inv r in
      (
        tx-ne-fault plan s.tx s.inner inv.tx_facts,
        λ e. rx-ne-fault plan s.misused s.rx s.inner e inv.rx_facts,
      )

  -- The box of a oneshot channel is never freed while one of the two ends still uses it, and is
  -- freed exactly once when both are done.
  pub freed_once :
      {s : System A}
      → Reach debug plan s
      → s.inner.frees ≡ (if tx_ended s.tx && rx_ended s.rx then 1 else 0)
  freed_once r = (Reach-Inv r).counted

  -- The call of a oneshot receiver that takes the box, where no blocking receive was called after
  -- a `poll` that left its waker registered, answers the item that was sent, or that there is
  -- none if the sender was dropped without sending; every receive after it finds no box, and
  -- answers that the channel is disconnected.
  pub delivered :
      {s : System A} (item : Option A)
      → Reach debug plan s
      → s.misused ≡ false
      → s.rx ≡ finished item
      → (item ≡ plan) × ((c : Choice) → c.call ≢ drop → (after_rx debug c s).rx ≡ repeated item)
  unfolding after_rx
  delivered {s} item r m e = (
    item_sent plan s.misused s.rx s.inner item m (Reach-Inv r).rx_facts e,
    λ c ne. ground (arith, ne, e),
  )

  -- Once the oneshot sender is done, a receiver that still waits with its waker registered has a
  -- waker there, and that waker was woken.
  pub waiter_woken :
      {s : System A}
      → Reach debug plan s
      → tx_ended s.tx ≡ true
      → registered s.rx ≡ true
      → (s.inner.woken ≡ s.inner.o_waker) × (exists s.inner.o_waker ≡ true)
  waiter_woken {s} r e w =
      let inv = Reach-Inv r in
      (ground (arith, inv.answered), registered-exists plan s.misused s.rx s.inner inv.rx_facts w)

  -- Without a blocking receive after a poll that left its waker registered, the receiver does not
  -- write its waker while the sender reads it.
  waker_exclusive :
      {s : System A} (f : Flags) (task : ℕ) (timed : Bool)
      → Reach debug plan s
      → s.misused ≡ false
      → s.tx ≡ waking f
      → (s.rx ≢ poll_put task) × (s.rx ≢ recv_put timed)
  waker_exclusive {s} f task timed r m e =
      writes_apart plan s.misused s.tx s.rx s.inner f task timed (Reach-Inv r) m e

  -- Once the oneshot sender is done, a receiver between two calls gets the sender's item (or
  -- none) by one `try_recv`, in three accesses, and the box has then been freed once.
  pub try_recv_answers :
      {i : Inner A} (polled freed m : Bool)
      → Reach debug plan (record { tx = ended freed; rx = idle polled; inner = i; misused = m })
      → let s : System A = record { tx = ended freed; rx = idle polled; inner = i; misused = m } in
        ((three_steps debug s).rx ≡ finished plan) × ((three_steps debug s).inner.frees ≡ 1)
  unfolding after_rx
  try_recv_answers {i} polled false m r = answers plan debug polled m i (Reach-Inv r)
  try_recv_answers {i} polled true m r = absurd (grind (arith, (Reach-Inv r).gone))

  -- In every reachable state of a oneshot channel in which a `poll` has left its waker registered
  -- and the sender has not locked the word, a blocking receive whose backoff is over at once, and
  -- that nothing interrupts, comes in six accesses to a failed assertion with debug assertions,
  -- which leaves the channel open, and without them to the answer that there is no item, with the
  -- channel closed.
  pub recv_after_poll :
      (timed : Bool) (s : System A)
      → Reach debug plan s
      → s.rx ≡ idle true
      → s.inner.state.lock ≡ false
      → Closes plan debug (six_steps debug (blocks timed) s)
  recv_after_poll timed s r e unlocked =
      let inv = subst (λ x. Inv plan s.misused s.tx x s.inner) e (Reach-Inv r) in
      let flags = only_waker_set plan s.misused s.tx s.inner inv unlocked in
      subst (λ x. Closes plan debug (six_steps debug (blocks timed) (record s { rx = x }))) (sym e)
        (subst
          (λ f. Closes plan debug (
            six_steps debug (blocks timed)
              (record s { rx = idle true; inner = record s.inner { state = f } })))
          (sym flags) (late_run plan debug timed s))
