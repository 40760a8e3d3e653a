-- ===== src/Registry/Busy/Fire.antt =====
-- src/waker_registry.rs: a whole fire ends, although its waiters register again meanwhile.
use mathlib.Core.Path.{subst}
use crossfire_rs.Prelude.{
  ℕ, zero, suc, ◌+◌, ◌-◌, ◌^◌, ◌≤◌, ◌<◌, ◌≡◌, refl, sym, ap, Bool, true, false, Option, none, some,
  List, [], ◌∷◌, ◌++◌, if◌then◌else◌, ◌==◌, length, arith, sub32,
}
use crossfire_rs.Waker.{WakerInner, WakeResult, next, wake}
use crossfire_rs.Waker.Laws.{wake_outcome, wake_total}
use crossfire_rs.Registry.{
  Registry, World, put, pop_live, popped, pop_queue, pop_first, after_wake, has_waker, has_select,
  is_nil, wake_selectors,
}
use crossfire_rs.Registry.Popped.{IsEnded, AreStates, put-AreStates, Found, pop_live-Found, FirstOk}
use crossfire_rs.Registry.Ends.{settled, outcome_state, woken-ends, first, first_is, first_ok}
use crossfire_rs.Registry.Busy.{register_all, fire_loop_busy, fire_busy}
use crossfire_rs.Registry.Busy.Stop.{Spread, register_all-Spread, total, loop_stops}

-- Where `pop_first` leaves more, the number is the registry's, and the queue is shorter.
FirstNext : Registry → Option (ℕ × WakerInner × Option ℕ) × World × Registry → Type 0
FirstNext r₀ (none, w, r) = Unit
FirstNext r₀ (some (i, x, none), w, r) = Unit
FirstNext r₀ (some (i, x, some n), w, r) =
    (n ≡ r₀.seq) × (r.seq ≡ r₀.seq) × (length r.queue < length r₀.queue)

if_more :
    (b : Bool) (r₀ r : Registry) (i : ℕ) (x : WakerInner) (w : World)
    → r.seq ≡ r₀.seq
    → length r.queue < length r₀.queue
    → FirstNext r₀ (some (i, x, elim b [ true ↦ none | false ↦ some r₀.seq ]), w, r)
unfolding FirstNext
if_more true r₀ r i x w e lt = tt
if_more false r₀ r i x w e lt = (refl, e, lt)

popped-FirstNext :
    (w : World) (r : Registry) (p : Option (ℕ × WakerInner) × List ℕ)
    → Found w r.queue p
    → FirstNext r (elim p.0 [
      | none ↦ (none, w, popped p.1 r)
      | some (i, x) ↦
          (some (i, x, elim (is_nil p.1) [ true ↦ none | false ↦ some r.seq ]), w, popped p.1 r)
    ])
unfolding FirstNext
popped-FirstNext w r (none, q) h = tt
popped-FirstNext w r (some (i, x), q) (e, less) = if_more (is_nil q) r (popped q r) i x w refl less

pop_queue-FirstNext : (w : World) (r : Registry) → FirstNext r (pop_queue w r)
unfolding pop_queue FirstNext
pop_queue-FirstNext w r =
    elim (has_waker r.state)
      as (λ b. FirstNext r (elim b [
        | true ↦
            (let (o, q) = pop_live w r.queue in
              elim o [
                | none ↦ (none, w, popped q r)
                | some (i, x) ↦ (
                  some (i, x, elim (is_nil q) [ true ↦ none | false ↦ some r.seq ]),
                  w,
                  popped q r,
                )
              ])
        | false ↦ (none, w, r)
      ])) [
        | true ↦
            popped-FirstNext w r (pop_live w r.queue)
              (pop_live-Found w r.queue r.queue (omega arith))
        | false ↦ tt
      ]

append-nil : (xs : List ℕ) → xs ≡ xs ++ []
append-nil [] = refl
append-nil (x ∷ xs) = ap (λ l. x ∷ l) (append-nil xs)

total_le : (between : ℕ → List ℕ) (m d n : ℕ) → d + m ≡ n → total between m ≤ total between n
total_le between m zero n e =
    let same : m ≡ n = omega arith in omega (arith, ap (total between) same)
total_le between m (suc d) zero e = absurd (omega arith)
total_le between m (suc d) (suc n) e = omega (arith, total_le between m d n (omega arith))

module _ (flags : ℕ → List Bool) (between : ℕ → List ℕ) where
  -- What follows the first wake.
  rest-ends :
      (n : ℕ) (w : World) (r₀ r : Registry)
      → (n ≡ r₀.seq) × (r.seq ≡ r₀.seq) × (length r.queue < length r₀.queue)
      → 0 < r₀.seq
      → r₀.seq + total between (suc (length r₀.queue)) < 2 ^ 32
      → AreStates w
      → let fuel = suc (length r.queue) in
        IsEnded (
          fire_loop_busy fuel (settled flags) between (sub32 n 1) (register_all (between fuel) w r))
  rest-ends n w r₀ r (e, same, less) pos lt ok =
      let fuel = suc (length r.queue) in
      let begun : Spread (sub32 n 1) r.queue r.seq (w, r) = record {
        recent = [];
        queue_is = append-nil r.queue;
        fresh = tt;
        seq_from = omega arith;
        seq_le = omega arith;
        states = ok;
      } in
      let few : total between (suc fuel) ≤ total between (suc (length r₀.queue)) =
        total_le between (suc fuel) (length r₀.queue - fuel) (suc (length r₀.queue))
          (omega arith) in
      loop_stops flags between fuel (sub32 n 1) (r.seq + length (between fuel)) r.queue
        (register_all (between fuel) w r) (omega arith)
        (register_all-Spread (sub32 n 1) r.queue r.seq (between fuel) w r (omega arith) begun)
        (omega arith)

  begin-ends :
      (r₀ : Registry) (o : Option (Option (ℕ × WakerInner × Option ℕ) × World × Registry))
      (p : Option (ℕ × WakerInner × Option ℕ) × World × Registry)
      → o ≡ some p
      → FirstOk p
      → FirstNext r₀ p
      → 0 < r₀.seq
      → r₀.seq + total between (suc (length r₀.queue)) < 2 ^ 32
      → IsEnded (elim o [
        | none ↦ none
        | some (none, w', r') ↦ some (next, w', r')
        | some (some (i, x, o_seq), w', r') ↦
            after_wake i w' r'
              (λ _ w''. elim o_seq [
                | none ↦ some (next, w'', r')
                | some seq ↦
                    (let fuel = suc (length r'.queue) in
                      fire_loop_busy fuel
                        (settled flags)
                        between
                        (sub32 seq 1)
                        (register_all (between fuel) w'' r'))
              ])
              (wake (settled flags i) x)
      ])
  unfolding FirstNext
  begin-ends r₀ o (none, w, r) e f n pos lt = rw e tt
  begin-ends r₀ o (some (i, x, none), w, r) e (there, ok) n pos lt = rw e (
      subst (λ a. IsEnded (after_wake i w r (λ _ w''. some (next, w'', r)) a))
        (sym (wake_total (flags i) x (ok i x there)))
        (woken-ends flags i w r (λ _ w''. some (next, w'', r)) (wake_outcome x) tt))
  begin-ends r₀ o (some (i, x, some seq), w, r) e (there, ok) n pos lt =
      let fuel = suc (length r.queue) in
      let again : ℕ → World → Option (WakeResult × World × Registry) = λ _ w''.
        fire_loop_busy fuel (settled flags) between (sub32 seq 1)
          (register_all (between fuel) w'' r) in
      let y = (wake_outcome x).1 in
      rw e (
        subst (λ a. IsEnded (after_wake i w r again a))
          (sym (wake_total (flags i) x (ok i x there)))
          (woken-ends flags i w r again (wake_outcome x) (
            rest-ends seq (put i y w) r₀ r n pos lt
              (put-AreStates i y w (outcome_state flags x (ok i x there)) ok))))

  -- Once its selectors have been woken, a fire on a multi registry ends although any waiters
  -- register again after each waker that it wakes and nothing else happens meanwhile: its loop
  -- stops after at most as many rounds as the queue was long when the fire began, where the
  -- registry has given a sequence number before, the registrations that come meanwhile do not
  -- bring that number to 2³², and no waiter has the number 2, which is the code of no state.
  pub fire_busy_ends :
      (w₀ w : World) (r : Registry)
      → (if has_select r.state then wake_selectors (settled flags) r.selectors w₀ else some w₀)
        ≡ some w
      → AreStates w
      → 0 < r.seq
      → r.seq + total between (suc (length r.queue)) < 2 ^ 32
      → IsEnded (fire_busy (settled flags) between w₀ r)
  unfolding fire_busy FirstNext
  fire_busy_ends w₀ w r selected ok pos lt =
      begin-ends r (pop_first (settled flags) w₀ r) (first flags w₀ w r selected ok (r.state == 0))
        (first_is flags w₀ w r selected ok (r.state == 0) refl)
        (first_ok flags w₀ w r selected ok (r.state == 0))
        (elim (r.state == 0) as (λ b. FirstNext r (first flags w₀ w r selected ok b)) [
          | true ↦ tt
          | false ↦ pop_queue-FirstNext w r
        ])
        pos lt
