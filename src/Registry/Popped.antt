-- ===== src/Registry/Popped.antt =====
-- src/waker_registry.rs: what a pop of the queue of wakers gives and leaves.
use mathlib.Core.Path.{subst}
use crossfire_rs.Prelude.{
  ◌⊎◌, inl, inr, sym, ℕ, ◌≡◌, ◌≢◌, ◌≤◌, ◌<◌, refl, Bool, true, false, Option, none, some, List, [],
  ◌∷◌, if◌then◌else◌, ◌==◌, length, arith,
}
use crossfire_rs.Waker.{WakerInner, WakeResult, next}
use crossfire_rs.Registry.{
  Registry, World, put, pop_live, popped, pop_again, pop_queue, has_waker, is_nil,
}

abbrev pub IsEnded : Option (WakeResult × World × Registry) → Type 0
IsEnded none = ⊥
IsEnded (some _) = Unit

-- No waker has the number 2, which is the code of no state.
abbrev pub AreStates : World → Type 0
AreStates w = (i : ℕ) (x : WakerInner) → w.wakers i ≡ some x → x.state ≢ 2

abbrev pub Found : World → List ℕ → Option (ℕ × WakerInner) × List ℕ → Type 0
Found w q (none, q') = Unit
Found w q (some (i, x), q') = (w.wakers i ≡ some x) × (length q' < length q)

pub lookup : (o : Option WakerInner) → (o ≡ none) ⊎ ((x : WakerInner) × (o ≡ some x))
lookup none = inl refl
lookup (some x) = inr (x, refl)

pub if_some :
    (b : Bool) (x y : WakerInner) (o : Option WakerInner)
    → x.state ≢ 2
    → (o ≡ some y → y.state ≢ 2)
    → (if b then some x else o) ≡ some y
    → y.state ≢ 2
if_some true x y o hx ho e = ground (arith, hx, e)
if_some false x y o hx ho e = ho e

pub put-AreStates :
    (i : ℕ) (x : WakerInner) (w : World) → x.state ≢ 2 → AreStates w → AreStates (put i x w)
put-AreStates i x w h ok j y e = if_some (j == i) x y (w.wakers j) h (ok j y) e

pub pop_skips :
    (w : World) (i : ℕ) (q : List ℕ) → w.wakers i ≡ none → pop_live w (i ∷ q) ≡ pop_live w q
unfolding pop_live
pop_skips w i q e = ground arith

pub pop_takes :
    (w : World) (i : ℕ) (x : WakerInner) (q : List ℕ)
    → w.wakers i ≡ some x
    → pop_live w (i ∷ q) ≡ (some (i, x), q)
unfolding pop_live
pop_takes w i x q e = ground arith

pub pop_live-Found : (w : World) (q₀ q : List ℕ) → length q ≤ length q₀ → Found w q₀ (pop_live w q)
unfolding pop_live
pop_live-Found w q₀ [] le = tt
pop_live-Found w q₀ (i ∷ q) le = elim (lookup (w.wakers i)) [
  | inl e ↦ subst (Found w q₀) (sym (pop_skips w i q e)) (pop_live-Found w q₀ q (omega arith))
  | inr (x, e) ↦ subst (Found w q₀) (sym (pop_takes w i x q e)) (e, omega arith)
]

-- A waker that is taken was in the store, and the queue is shorter.
abbrev pub PopOk : World → Registry → Option (ℕ × WakerInner) × Registry → Type 0
PopOk w r (none, r') = Unit
PopOk w r (some (i, x), r') = (w.wakers i ≡ some x) × (length r'.queue < length r.queue)

popped-PopOk :
    (w : World) (r : Registry) (p : Option (ℕ × WakerInner) × List ℕ)
    → Found w r.queue p
    → PopOk w r (p.0, popped p.1 r)
popped-PopOk w r (none, q) h = tt
popped-PopOk w r (some (i, x), q) h = h

pub pop_again-PopOk : (w : World) (r : Registry) → PopOk w r (pop_again w r)
unfolding pop_again
pop_again-PopOk w r =
    elim (r.state == 0)
      as (λ b. PopOk w r (elim b [
        | true ↦ (none, r)
        | false ↦ (let (o, q) = pop_live w r.queue in (o, popped q r))
      ])) [
        | true ↦ tt
        | false ↦
            popped-PopOk w r (pop_live w r.queue) (pop_live-Found w r.queue r.queue (omega arith))
      ]

pub stop_or-ends :
    (stop : Bool) (w : World) (r : Registry) (o : Option (WakeResult × World × Registry))
    → IsEnded o
    → IsEnded (elim stop [ true ↦ some (next, w, r) | false ↦ o ])
stop_or-ends true w r o h = tt
stop_or-ends false w r o h = h

abbrev pub FirstOk : Option (ℕ × WakerInner × Option ℕ) × World × Registry → Type 0
FirstOk (none, w, r) = Unit
FirstOk (some (i, x, _), w, r) = (w.wakers i ≡ some x) × AreStates w

popped-FirstOk :
    (w : World) (r : Registry) (p : Option (ℕ × WakerInner) × List ℕ)
    → AreStates w
    → Found w r.queue p
    → FirstOk (elim p.0 [
      | none ↦ (none, w, popped p.1 r)
      | some (i, x) ↦
          (some (i, x, elim (is_nil p.1) [ true ↦ none | false ↦ some r.seq ]), w, popped p.1 r)
    ])
popped-FirstOk w r (none, q) ok h = tt
popped-FirstOk w r (some (i, x), q) ok (e, less) = (e, ok)

pub pop_queue-FirstOk : (w : World) (r : Registry) → AreStates w → FirstOk (pop_queue w r)
unfolding pop_queue
pop_queue-FirstOk w r ok =
    elim (has_waker r.state)
      as (λ b. FirstOk (elim b [
        | true ↦
            (let (o, q) = pop_live w r.queue in
              elim o [
                | none ↦ (none, w, popped q r)
                | some (i, x) ↦ (
                  some (i, x, elim (is_nil q) [ true ↦ none | false ↦ some r.seq ]),
                  w,
                  popped q r,
                )
              ])
        | false ↦ (none, w, r)
      ])) [
        | true ↦
            popped-FirstOk w r (pop_live w r.queue) ok
              (pop_live-Found w r.queue r.queue (omega arith))
        | false ↦ tt
      ]
