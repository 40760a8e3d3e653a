-- ===== src/Registry/Flag.antt =====
-- src/waker_registry.rs: the state of a registry tells which of its queues hold something.
use mathlib.Core.Path.{subst}
use crossfire_rs.Prelude.{
  ℕ, zero, suc, ◌+◌, ◌≡◌, refl, Bool, true, false, Option, none, some, List, [], ◌∷◌, ◌++◌,
  if◌then◌else◌, ◌==◌, leb, length, sub32, arith,
}
use crossfire_rs.Waker.{WakerInner, WakeResult, next, wake}
use crossfire_rs.Registry.{
  Registry, World, SelectWakerWrapper, is_nil, check_select, check_waker, new, reg_waker, pop_live,
  popped, pop_again, pop_queue, has_select, pop_first, fire_loop, fire, after_wake, put,
  clear_wakers, clear_loop, reg_select_waker, cancel_select_waker, wake_selectors,
}

-- `pop_first` and `pop_again` skip a queue that the state does not announce, so it must be exact.
abbrev pub IsFlagged : Registry → Type 0
IsFlagged r = r.state ≡ check_select r + check_waker r

snoc-is_nil : {A : Type 0} (xs : List A) (x : A) → is_nil (xs ++ (x ∷ [])) ≡ false
snoc-is_nil [] x = refl
snoc-is_nil (_ ∷ xs) x = refl

pub popped-IsFlagged :
    (q : List ℕ) (r : Registry)
    → (is_nil r.queue ≡ true → is_nil q ≡ true)
    → IsFlagged r
    → IsFlagged (popped q r)
popped-IsFlagged q r h f = ground (arith, h)

pub pop_live-nil : (w : World) (q : List ℕ) → is_nil q ≡ true → is_nil ((pop_live w q).1) ≡ true
unfolding pop_live
pop_live-nil w [] h = refl
pop_live-nil w (i ∷ q) h = absurd (ground (arith, h))

reg_waker-IsFlagged :
    (i : ℕ) (x : WakerInner) (w : World) (r : Registry)
    → IsFlagged r
    → IsFlagged ((reg_waker i x w r).1)
unfolding reg_waker
reg_waker-IsFlagged i x w r f = ground (arith, snoc-is_nil r.queue i)

pop_again-IsFlagged : (w : World) (r : Registry) → IsFlagged r → IsFlagged ((pop_again w r).1)
unfolding pop_again
pop_again-IsFlagged w r f = ground (arith, pop_live-nil w r.queue)

clear_wakers-IsFlagged :
    (oneshot : Bool) (old : WakerInner) (w : World) (r : Registry)
    → IsFlagged r
    → IsFlagged (clear_wakers oneshot old w r)
unfolding clear_wakers clear_loop
clear_wakers-IsFlagged oneshot old w r f = ground arith

reg_select_waker-IsFlagged :
    (channel k : ℕ) (r : Registry) → IsFlagged r → IsFlagged (reg_select_waker channel k r)
unfolding reg_select_waker
reg_select_waker-IsFlagged channel k r f =
    ground (arith, λ (e : SelectWakerWrapper). snoc-is_nil r.selectors e)

cancel_select_waker-IsFlagged :
    (k : ℕ) (r : Registry) → IsFlagged r → IsFlagged (cancel_select_waker k r)
unfolding cancel_select_waker
cancel_select_waker-IsFlagged k r f = ground arith

-- What a call that answers leaves is flagged.
abbrev Leaves : Option (WakeResult × World × Registry) → Type 0
Leaves none = Unit
Leaves (some (_, _, r)) = IsFlagged r

after_pop : (w : World) (r : Registry) → IsFlagged r → IsFlagged (popped ((pop_live w r.queue).1) r)
after_pop w r f = popped-IsFlagged ((pop_live w r.queue).1) r (pop_live-nil w r.queue) f

after_wake-Leaves :
    (i : ℕ) (w : World) (r : Registry) (again : ℕ → World → Option (WakeResult × World × Registry))
    (o : Option (WakeResult × WakerInner))
    → IsFlagged r
    → ((seq : ℕ) (w' : World) → Leaves (again seq w'))
    → Leaves (after_wake i w r again o)
unfolding after_wake
after_wake-Leaves i w r again none f h = tt
after_wake-Leaves i w r again (some (res, x)) f h = ground (arith, h x.seq (put i x w))

popped_by-Leaves :
    (flags : ℕ → List Bool) (w : World) (r : Registry)
    (again : ℕ → World → Option (WakeResult × World × Registry)) (o : Option (ℕ × WakerInner))
    → IsFlagged r
    → ((seq : ℕ) (w' : World) → Leaves (again seq w'))
    → Leaves (elim o [
      | none ↦ some (next, w, r)
      | some (i, x) ↦ after_wake i w r again (wake (flags i) x)
    ])
popped_by-Leaves flags w r again none f h = f
popped_by-Leaves flags w r again (some (i, x)) f h =
    after_wake-Leaves i w r again (wake (flags i) x) f h

stop_or-Leaves :
    (stop : Bool) (w : World) (r : Registry) (o : Option (WakeResult × World × Registry))
    → IsFlagged r
    → Leaves o
    → Leaves (elim stop [ true ↦ some (next, w, r) | false ↦ o ])
stop_or-Leaves true w r o f h = f
stop_or-Leaves false w r o f h = h

fire_loop-Leaves :
    (fuel : ℕ) (flags : ℕ → List Bool) (last : ℕ) (w : World) (r : Registry)
    → IsFlagged r
    → Leaves (fire_loop fuel flags last w r)
unfolding fire_loop
fire_loop-Leaves zero flags last w r f = tt
fire_loop-Leaves (suc fuel) flags last w r f =
    let (o, r') = pop_again w r in
    let f' = pop_again-IsFlagged w r f in
    popped_by-Leaves flags w r' _ o f' (λ seq w'.
      stop_or-Leaves (leb last seq) w' r' (fire_loop fuel flags last w' r') f'
        (fire_loop-Leaves fuel flags last w' r' f'))

-- What `pop_first` leaves is flagged.
abbrev FirstLeaves : Option (Option (ℕ × WakerInner × Option ℕ) × World × Registry) → Type 0
FirstLeaves none = Unit
FirstLeaves (some (_, _, r)) = IsFlagged r

pop_queue-Leaves :
    (o : Option World) (r : Registry)
    → IsFlagged r
    → FirstLeaves (elim o [ none ↦ none | some w ↦ some (pop_queue w r) ])
unfolding pop_queue
pop_queue-Leaves none r f = tt
pop_queue-Leaves (some w) r f = ground (arith, after_pop w r f)

pop_first-Leaves :
    (flags : ℕ → List Bool) (w : World) (r : Registry)
    → IsFlagged r
    → FirstLeaves (pop_first flags w r)
unfolding pop_first
pop_first-Leaves flags w r f =
    elim (r.state == 0)
      as (λ b. FirstLeaves (elim b [
        | true ↦ some (none, w, r)
        | false ↦ elim (if has_select r.state then wake_selectors flags r.selectors w else some w) [
          | none ↦ none
          | some w' ↦ some (pop_queue w' r)
        ]
      ])) [ true ↦ f | false ↦ pop_queue-Leaves _ r f ]

fire_after-Leaves :
    (flags : ℕ → List Bool) (o : Option (Option (ℕ × WakerInner × Option ℕ) × World × Registry))
    → FirstLeaves o
    → Leaves (elim o [
      | none ↦ none
      | some (none, w', r') ↦ some (next, w', r')
      | some (some (i, x, o_seq), w', r') ↦
          after_wake i w' r'
            (λ _ w''. elim o_seq [
              | none ↦ some (next, w'', r')
              | some seq ↦ fire_loop (suc (length r'.queue)) flags (sub32 seq 1) w'' r'
            ])
            (wake (flags i) x)
    ])
fire_after-Leaves flags none f = tt
fire_after-Leaves flags (some (none, w', r')) f = f
fire_after-Leaves flags (some (some (i, x, none), w', r')) f =
    after_wake-Leaves i w' r' _ (wake (flags i) x) f (λ _ w''. f)
fire_after-Leaves flags (some (some (i, x, some seq), w', r')) f =
    after_wake-Leaves i w' r' _ (wake (flags i) x) f
      (λ _ w''. fire_loop-Leaves (suc (length r'.queue)) flags (sub32 seq 1) w'' r' f)

fire-Leaves :
    (flags : ℕ → List Bool) (w : World) (r : Registry) → IsFlagged r → Leaves (fire flags w r)
unfolding fire
fire-Leaves flags w r f =
    fire_after-Leaves flags (pop_first flags w r) (pop_first-Leaves flags w r f)

-- What calls one after another make of a new registry, short of `close`; the waiters, in `w`, may do
-- anything in between.
pub data Reach : Registry → Type 0 where
  begin : Reach new
  registers :
      {r : Registry} (i : ℕ) (x : WakerInner) (w : World) → Reach r → Reach ((reg_waker i x w r).1)
  fires :
      {r r' : Registry} (flags : ℕ → List Bool) (w w' : World) (res : WakeResult)
      → fire flags w r ≡ some (res, w', r')
      → Reach r
      → Reach r'
  clears :
      {r : Registry} (oneshot : Bool) (old : WakerInner) (w : World)
      → Reach r
      → Reach (clear_wakers oneshot old w r)
  selects : {r : Registry} (channel k : ℕ) → Reach r → Reach (reg_select_waker channel k r)
  unselects : {r : Registry} (k : ℕ) → Reach r → Reach (cancel_select_waker k r)

-- Whatever is registered, fired, cleared and cancelled, the state of a multi registry that is not
-- closed says exactly whether a waker is queued and whether a selector is registered.
pub state_exact : {r : Registry} → Reach r → r.state ≡ check_select r + check_waker r
state_exact begin = refl
state_exact (registers {r} i x w h) = reg_waker-IsFlagged i x w r (state_exact h)
state_exact (fires {r} {r'} flags w w' res e h) =
    subst Leaves e (fire-Leaves flags w r (state_exact h))
state_exact (clears {r} oneshot old w h) = clear_wakers-IsFlagged oneshot old w r (state_exact h)
state_exact (selects {r} channel k h) = reg_select_waker-IsFlagged channel k r (state_exact h)
state_exact (unselects {r} k h) = cancel_select_waker-IsFlagged k r (state_exact h)
