-- ===== src/Registry/Busy/Stop.antt =====
-- src/waker_registry.rs: a fire stops, although its waiters register again and again.
use mathlib.Core.Path.{subst}
use crossfire_rs.Prelude.{
  ℕ, zero, suc, ◌+◌, ◌^◌, ◌≤◌, ◌<◌, ◌≡◌, ◌⊎◌, inl, inr, refl, sym, ap, ◌∙◌, Bool, true, false,
  Option, none, some, List, [], ◌∷◌, ◌++◌, if◌then◌else◌, ◌==◌, leb, length, arith, add32,
}
use crossfire_rs.Waker.{WakerInner, WakeResult, next, wake, wake_by_ref, reset_init, set_seq}
use crossfire_rs.Waker.Laws.{wake_outcome, wake_total}
use crossfire_rs.Registry.{Registry, World, put, pop_live, popped, pop_again, reg_waker, after_wake}
use crossfire_rs.Registry.Popped.{
  IsEnded, AreStates, put-AreStates, stop_or-ends, lookup, pop_skips, pop_takes,
}
use crossfire_rs.Registry.Ends.{settled, outcome_state, woken-ends}
use crossfire_rs.Registry.Busy.{register_all, fire_loop_busy}

abbrev pub SeqFrom : ℕ → Option WakerInner → Type 0
SeqFrom last none = Unit
SeqFrom last (some x) = last ≤ x.seq

-- The waiters that registered since the fire began have at least its last sequence number.
abbrev pub Fresh : ℕ → World → List ℕ → Type 0
Fresh last w [] = Unit
Fresh last w (i ∷ q) = SeqFrom last (w.wakers i) × Fresh last w q

SeqFrom-if :
    (last : ℕ) (b : Bool) (y : WakerInner) (o : Option WakerInner)
    → (b ≡ true → SeqFrom last (some y))
    → SeqFrom last o
    → SeqFrom last (if b then some y else o)
SeqFrom-if last true y o h k = h refl
SeqFrom-if last false y o h k = k

-- A waker is written that has this number, or the number that it had.
Fresh-put :
    (last i : ℕ) (y : WakerInner) (w : World) (q : List ℕ)
    → (SeqFrom last (w.wakers i) → last ≤ y.seq)
    → Fresh last w q
    → Fresh last (put i y w) q
Fresh-put last i y w [] h f = tt
Fresh-put last i y w (j ∷ q) h (f, fs) = (
  SeqFrom-if last (j == i) y (w.wakers j)
      (λ e. h (subst (λ k. SeqFrom last (w.wakers k)) (ground arith) f)) f,
  Fresh-put last i y w q h fs,
)

Fresh-append :
    (last : ℕ) (w : World) (q : List ℕ) (i : ℕ)
    → Fresh last w q
    → SeqFrom last (w.wakers i)
    → Fresh last w (q ++ (i ∷ []))
Fresh-append last w [] i f h = (h, tt)
Fresh-append last w (j ∷ q) i (f, fs) h = (f, Fresh-append last w q i fs h)

append-append : (xs ys zs : List ℕ) → (xs ++ ys) ++ zs ≡ xs ++ (ys ++ zs)
append-append [] ys zs = refl
append-append (x ∷ xs) ys zs = ap (λ l. x ∷ l) (append-append xs ys zs)

-- The queue is what is left of the old one, and then waiters that registered since.
pub record Spread (last : ℕ) (old : List ℕ) (most : ℕ) (s : World × Registry) : Type 0 where
  pub recent : List ℕ
  pub queue_is : s.1.queue ≡ old ++ recent
  pub fresh : Fresh last s.0 recent
  pub seq_from : last ≤ s.1.seq
  pub seq_le : s.1.seq ≤ most
  pub states : AreStates s.0

register-Spread :
    (last : ℕ) (old : List ℕ) (most i : ℕ) (x : WakerInner) (w : World) (r : Registry)
    → most + 1 < 2 ^ 32
    → Spread last old most (w, r)
    → Spread last old (most + 1) (reg_waker i (reset_init x) w r)
unfolding reg_waker reset_init set_seq
register-Spread last old most i x w r lt h =
    let a = h.seq_from in
    let b = h.seq_le in
    let from : last ≤ add32 r.seq 1 = omega arith in
    let y : WakerInner = set_seq (reset_init x) (add32 r.seq 1) in
    let self : (i == i) ≡ true = ground arith in
    record {
      recent = h.recent ++ (i ∷ []);
      queue_is = ap (λ q. q ++ (i ∷ [])) h.queue_is ∙ append-append old h.recent (i ∷ []);
      fresh =
          Fresh-append last (put i y w) h.recent i
            (Fresh-put last i y w h.recent (λ _. from) h.fresh)
            (subst
              (λ c.
                SeqFrom last
                  (if c then some (set_seq (reset_init x) (add32 r.seq 1)) else w.wakers i))
              (sym self) from);
      seq_from = omega arith;
      seq_le = omega arith;
      states = put-AreStates i y w (λ e. ground arith) h.states;
    }

register_all-some :
    (i : ℕ) (names : List ℕ) (x : WakerInner) (w : World) (r : Registry)
    → w.wakers i ≡ some x
    → let (w', r') = reg_waker i (reset_init x) w r in
      register_all (i ∷ names) w r ≡ register_all names w' r'
unfolding register_all
register_all-some i names x w r e = ground (arith, e)

register_all-none :
    (i : ℕ) (names : List ℕ) (w : World) (r : Registry)
    → w.wakers i ≡ none
    → register_all (i ∷ names) w r ≡ register_all names w r
unfolding register_all
register_all-none i names w r e = ground (arith, e)

raise :
    (last : ℕ) (old : List ℕ) (most more : ℕ) (s : World × Registry)
    → most ≤ more
    → Spread last old most s
    → Spread last old more s
raise last old most more s le h = record {
  recent = h.recent;
  queue_is = h.queue_is;
  fresh = h.fresh;
  seq_from = h.seq_from;
  seq_le = let b = h.seq_le in omega arith;
  states = h.states;
}

pub register_all-Spread :
    (last : ℕ) (old : List ℕ) (most : ℕ) (names : List ℕ) (w : World) (r : Registry)
    → most + length names < 2 ^ 32
    → Spread last old most (w, r)
    → Spread last old (most + length names) (register_all names w r)
unfolding register_all
register_all-Spread last old most [] w r lt h = raise last old most _ _ (omega arith) h
register_all-Spread last old most (i ∷ names) w r lt h = elim (lookup (w.wakers i)) [
  | inl e ↦
      subst (Spread last old (most + length (i ∷ names))) (sym (register_all-none i names w r e)) (
        raise last old (most + length names) _ _ (omega arith)
          (register_all-Spread last old most names w r (omega arith) h))
  | inr (x, e) ↦
      subst (Spread last old (most + length (i ∷ names))) (sym (register_all-some i names x w r e))
        (raise last old (most + 1 + length names) _ _ (omega arith) (
          register_all-Spread last old (most + 1) names _ _ (omega arith)
            (register-Spread last old most i x w r (omega arith) h)))
]

-- A pop takes a waker of the old queue, or one that has registered since.
PopAt : ℕ → ℕ → World → List ℕ → Option (ℕ × WakerInner) × List ℕ → Type 0
PopAt last len w recent (none, q) = Unit
PopAt last len w recent (some (i, x), q) =
    (w.wakers i ≡ some x)
    × ((last ≤ x.seq) ⊎ ((old : List ℕ) × (q ≡ old ++ recent) × (length old < len)))

pop_recent :
    (last len : ℕ) (w : World) (recent q : List ℕ)
    → Fresh last w q
    → PopAt last len w recent (pop_live w q)
unfolding pop_live PopAt
pop_recent last len w recent [] f = tt
pop_recent last len w recent (i ∷ q) (f, fs) = elim (lookup (w.wakers i)) [
  | inl e ↦
      subst (PopAt last len w recent) (sym (pop_skips w i q e)) (pop_recent last len w recent q fs)
  | inr (x, e) ↦
      subst (PopAt last len w recent) (sym (pop_takes w i x q e))
        (e, inl (subst (SeqFrom last) e f))
]

pop_live-PopAt :
    (last len : ℕ) (w : World) (recent old : List ℕ)
    → length old ≤ len
    → Fresh last w recent
    → PopAt last len w recent (pop_live w (old ++ recent))
unfolding pop_live PopAt
pop_live-PopAt last len w recent [] le f = pop_recent last len w recent recent f
pop_live-PopAt last len w recent (i ∷ old) le f = elim (lookup (w.wakers i)) [
  | inl e ↦
      subst (PopAt last len w recent) (sym (pop_skips w i (old ++ recent) e))
        (pop_live-PopAt last len w recent old (omega arith) f)
  | inr (x, e) ↦
      subst (PopAt last len w recent) (sym (pop_takes w i x (old ++ recent) e))
        (e, inr (old, refl, omega arith))
]

-- The waker that is taken, and what is left.
Next : ℕ → ℕ → ℕ → World → Option (ℕ × WakerInner) × Registry → Type 0
Next last len most w (none, r) = Unit
Next last len most w (some (i, x), r) =
    (w.wakers i ≡ some x)
    × ((last ≤ x.seq) ⊎ ((old : List ℕ) × (length old < len) × Spread last old most (w, r)))

popped-Next :
    (last most : ℕ) (old : List ℕ) (w : World) (r : Registry) (h : Spread last old most (w, r))
    (p : Option (ℕ × WakerInner) × List ℕ)
    → PopAt last (length old) w h.recent p
    → Next last (length old) most w (p.0, popped p.1 r)
unfolding PopAt Next
popped-Next last most old w r h (none, q) a = tt
popped-Next last most old w r h (some (i, x), q) (e, inl from) = (e, inl from)
popped-Next last most old w r h (some (i, x), q) (e, inr (old', split, less)) = (
  e,
  inr (
    old',
    less,
    record {
      recent = h.recent;
      queue_is = split;
      fresh = h.fresh;
      seq_from = h.seq_from;
      seq_le = h.seq_le;
      states = h.states;
    },
  ),
)

pop_again-Next :
    (last most : ℕ) (old : List ℕ) (w : World) (r : Registry)
    → Spread last old most (w, r)
    → Next last (length old) most w (pop_again w r)
unfolding pop_again Next
pop_again-Next last most old w r h =
    elim (r.state == 0)
      as (λ b. Next last (length old) most w (elim b [
        | true ↦ (none, r)
        | false ↦ (let (o, q) = pop_live w r.queue in (o, popped q r))
      ])) [
        | true ↦ tt
        | false ↦ popped-Next last most old w r h (pop_live w r.queue) (
            subst (λ q. PopAt last (length old) w h.recent (pop_live w q)) (sym h.queue_is)
              (pop_live-PopAt last (length old) w h.recent old (omega arith) h.fresh))
      ]

-- How many registrations come between the pops of a loop with this fuel.
abbrev pub total : (ℕ → List ℕ) → ℕ → ℕ
total between zero = 0
total between (suc fuel) = length (between fuel) + total between fuel

module _ (flags : ℕ → List Bool) (between : ℕ → List ℕ) where
  outcome_seq : (x : WakerInner) → (wake_outcome x).1.seq ≡ x.seq
  unfolding wake_by_ref
  outcome_seq x = ground arith

  woken-Spread :
      (last : ℕ) (old : List ℕ) (most i : ℕ) (x : WakerInner) (w : World) (r : Registry)
      → w.wakers i ≡ some x
      → Spread last old most (w, r)
      → Spread last old most (put i (wake_outcome x).1 w, r)
  woken-Spread last old most i x w r e h = record {
    recent = h.recent;
    queue_is = h.queue_is;
    fresh =
        Fresh-put last i (wake_outcome x).1 w h.recent
          (λ f. let from : last ≤ x.seq = subst (SeqFrom last) e f in omega (arith, outcome_seq x))
          h.fresh;
    seq_from = h.seq_from;
    seq_le = h.seq_le;
    states = put-AreStates i (wake_outcome x).1 w (outcome_state flags x (h.states i x e)) h.states;
  }

  stopped-ends :
      (stop : Bool) (w : World) (r : Registry) (o : Option (WakeResult × World × Registry))
      → stop ≡ true
      → IsEnded (elim stop [ true ↦ some (next, w, r) | false ↦ o ])
  stopped-ends true w r o e = tt
  stopped-ends false w r o e = absurd (cc)

  step-ends :
      (fuel last len most : ℕ) (w : World) (p : Option (ℕ × WakerInner) × Registry)
      → Next last len most w p
      → AreStates w
      → ((old : List ℕ) (s : World × Registry)
          → length old < len
          → Spread last old (most + length (between fuel)) s
          → IsEnded (fire_loop_busy fuel (settled flags) between last s))
      → most + length (between fuel) < 2 ^ 32
      → IsEnded (elim p.0 [
        | none ↦ some (next, w, p.1)
        | some (i, x) ↦
            after_wake i w p.1
              (λ seq w'. elim (leb last seq) [
                | true ↦ some (next, w', p.1)
                | false ↦
                    fire_loop_busy fuel
                      (settled flags)
                      between
                      last
                      (register_all (between fuel) w' p.1)
              ])
              (wake (settled flags i) x)
      ])
  unfolding Next
  step-ends fuel last len most w (none, r) n ok k lt = tt
  step-ends fuel last len most w (some (i, x), r) (e, how) ok k lt =
      let y = (wake_outcome x).1 in
      let again : ℕ → World → Option (WakeResult × World × Registry) = λ seq w'.
        elim (leb last seq) [
          | true ↦ some (next, w', r)
          | false ↦
              fire_loop_busy fuel (settled flags) between last (register_all (between fuel) w' r)
        ] in
      subst (λ o. IsEnded (after_wake i w r again o)) (sym (wake_total (flags i) x (ok i x e)))
        (woken-ends flags i w r again (wake_outcome x) (elim how [
          | inl from ↦
              let stop : leb last y.seq ≡ true = ground (arith, from, outcome_seq x) in
              stopped-ends (leb last y.seq) (put i y w) r _ stop
          | inr (old, less, h) ↦ stop_or-ends (leb last y.seq) (put i y w) r _ (
              k old _ less (
                register_all-Spread last old most (between fuel) (put i y w) r lt
                  (woken-Spread last old most i x w r e h)))
        ]))

  pub loop_stops :
      (fuel last most : ℕ) (old : List ℕ) (s : World × Registry)
      → length old < fuel
      → Spread last old most s
      → most + total between fuel < 2 ^ 32
      → IsEnded (fire_loop_busy fuel (settled flags) between last s)
  unfolding fire_loop_busy
  loop_stops zero last most old s less h lt = absurd (omega arith)
  loop_stops (suc fuel) last most old s less h lt =
      step-ends fuel last (length old) most (s.0) (pop_again s.0 s.1)
        (pop_again-Next last most old s.0 s.1 h) h.states
        (λ old' s' less' h'.
          loop_stops fuel last (most + length (between fuel)) old' s' (omega arith) h'
            (omega arith))
        (omega arith)
