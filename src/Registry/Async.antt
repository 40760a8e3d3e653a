-- ===== src/Registry/Async.antt =====
-- src/waker_registry.rs: how an asynchronous waiter registers, again or for the first time.
use native.Mathlib.Decide.{ℕ_discrete}
use mathlib.Core.Path.{subst}
use crossfire_rs.Prelude.{
  ℕ, ◌≡◌, ◌≢◌, ◌≤◌, ◌<◌, refl, sym, true, false, Option, none, some, List, [], ◌∷◌, ◌++◌,
  if◌then◌else◌, ◌==◌, ltb, add32, arith,
}
use crossfire_rs.Waker.{
  WakerInner, WakerState, init, closed, to_u8, ok, err, async, new_waker, will_wake,
  try_change_state, set_seq,
}
use crossfire_rs.Registry.{Registry, World, put, reg_waker, clear_wakers}

-- What the caller is told: to stay pending, that the side is closed, or that the waker of the name
-- is registered and now the caller's.
pub data Answer : Type 0 where
  pending : Answer
  ready : Answer
  registered : ℕ → Answer

abbrev with_answer : Answer → World × Registry → Answer × World × Registry
with_answer a (w, r) = (a, w, r)

-- A new waker for the task, under the name `fresh`.
unfoldable pub reg_new : ℕ → ℕ → World → Registry → Answer × World × Registry
unfolding reg_waker new_waker
reg_new fresh task w r =
    with_answer (registered fresh) (reg_waker fresh (new_waker (async task)) w r)

-- `_reg_waker_async`: the caller holds the waker `x` under the name `i`, if any. `none` is a panic.
unfoldable pub reg_waker_async :
    ℕ → ℕ → Option (ℕ × WakerInner) → World → Registry → Option (Answer × World × Registry)
unfolding reg_new reg_waker try_change_state will_wake clear_wakers
reg_waker_async fresh task none w r = some (reg_new fresh task w r)
reg_waker_async fresh task (some (i, x)) w r =
    let (changed, x') = try_change_state WakerState.woken init x in
    elim changed [
      | ok _ ↦ elim (will_wake x' task) [
        | none ↦ none
        | some true ↦ some (with_answer (registered i) (reg_waker i x' w r))
        | some false ↦ some (reg_new fresh task (put i x' w) r)
      ]
      | err s ↦ elim (ltb s (to_u8 WakerState.woken)) [
        | true ↦ elim (will_wake x task) [
          | none ↦ none
          | some true ↦ some (pending, w, r)
          | some false ↦ some (
              reg_new fresh task w
                (if ltb x.state (to_u8 WakerState.woken) then clear_wakers true x w r else r))
        ]
        | false ↦ elim (s == to_u8 closed) [ true ↦ some (ready, w, r) | false ↦ none ]
      ]
    ]

-- The waker `i` is last in the queue, in `Init`, with the sequence number of the registry.
abbrev pub IsLast : ℕ → World → Registry → Type 0
IsLast i w r =
    ((q : List ℕ) × (r.queue ≡ q ++ (i ∷ [])))
    × ((x : WakerInner) × (w.wakers i ≡ some x) × (x.seq ≡ r.seq) × (x.state ≡ 0))

-- What each answer promises.
abbrev pub Keeps : World → Registry → Option (Answer × World × Registry) → Type 0
Keeps w r none = ⊥
Keeps w r (some (pending, w', r')) = (w' ≡ w) × (r' ≡ r)
Keeps w r (some (ready, w', r')) = (w' ≡ w) × (r' ≡ r)
Keeps w r (some (registered i, w', r')) = IsLast i w' r'

reg_waker-IsLast :
    (i : ℕ) (x : WakerInner) (w : World) (r : Registry)
    → x.state ≡ 0
    → IsLast i ((reg_waker i x w r).0) ((reg_waker i x w r).1)
unfolding reg_waker
reg_waker-IsLast i x w r e =
    ((r.queue, refl), (set_seq x (add32 r.seq 1), ground arith, ground arith, ground (arith, e)))

reg_new-IsLast :
    (fresh task : ℕ) (w : World) (r : Registry) → Keeps w r (some (reg_new fresh task w r))
unfolding reg_new new_waker
reg_new-IsLast fresh task w r = reg_waker-IsLast fresh (new_waker (async task)) w r refl

-- The waker that a caller holds is one of a task, and in no state above `Closed`.
abbrev pub IsHeld : Option (ℕ × WakerInner) → Type 0
IsHeld none = Unit
IsHeld (some (_, x)) = ((t : ℕ) × (x.waker ≡ async t)) × (x.state ≤ 4)

module _ (fresh task i t : ℕ) (x : WakerInner) (w : World) (r : Registry)
    (e : x.waker ≡ async t) where
  abbrev again : WakerInner
  again = record x { state = 0 }

  abbrev polled : Option (Answer × World × Registry)
  polled = reg_waker_async fresh task (some (i, x)) w r

  woken_same :
      x.state ≡ 3 → t ≡ task → polled ≡ some (with_answer (registered i) (reg_waker i again w r))
  unfolding reg_waker_async
  woken_same s same = ground (arith, e)

  woken_other : x.state ≡ 3 → t ≢ task → polled ≡ some (reg_new fresh task (put i again w) r)
  unfolding reg_waker_async
  woken_other s other = ground (arith, e)

  waits_same : x.state < 3 → t ≡ task → polled ≡ some (pending, w, r)
  unfolding reg_waker_async
  waits_same s same = ground (arith, e)

  waits_other :
      x.state < 3 → t ≢ task → polled ≡ some (reg_new fresh task w (clear_wakers true x w r))
  unfolding reg_waker_async
  waits_other s other = ground (arith, e)

  is_closed : x.state ≡ 4 → polled ≡ some (ready, w, r)
  unfolding reg_waker_async
  is_closed s = ground (arith, e)

  abbrev Kept : Option (Answer × World × Registry) → Type 0
  Kept o = Keeps w r o

  held-Keeps : x.state ≤ 4 → Kept polled
  unfolding reg_new
  held-Keeps le = elim (ℕ_discrete x.state 4) [
    | yes c ↦ subst Kept (sym (is_closed c)) (refl, refl)
    | no nc ↦ elim (ℕ_discrete x.state 3) [
      | yes s ↦ elim (ℕ_discrete t task) [
        | yes same ↦ subst Kept (sym (woken_same s same)) (reg_waker-IsLast i again w r refl)
        | no other ↦
            subst Kept (sym (woken_other s other)) (reg_new-IsLast fresh task (put i again w) r)
      ]
      | no ns ↦ elim (ℕ_discrete t task) [
        | yes same ↦ subst Kept (sym (waits_same (omega arith) same)) (refl, refl)
        | no other ↦
            subst Kept (sym (waits_other (omega arith) other))
              (reg_new-IsLast fresh task w (clear_wakers true x w r))
      ]
    ]
  ]

-- The registration of an asynchronous waiter that holds no waker, or one of a task in no state
-- above `Closed`, does not panic; it changes nothing if it answers that the waiter stays pending
-- or that the side is closed; and otherwise the waker that the caller then holds is last in the
-- queue, in `Init`, with the sequence number of the registry.
pub reg_waker_async_lem :
    (fresh task : ℕ) (held : Option (ℕ × WakerInner)) (w : World) (r : Registry)
    → IsHeld held
    → Keeps w r (reg_waker_async fresh task held w r)
unfolding reg_waker_async
reg_waker_async_lem fresh task none w r h = reg_new-IsLast fresh task w r
reg_waker_async_lem fresh task (some (i, x)) w r ((t, e), le) = held-Keeps fresh task i t x w r e le
