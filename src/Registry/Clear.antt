-- ===== src/Registry/Clear.antt =====
-- src/waker_registry.rs: what a waiter that gives up takes from the queue.
use native.Mathlib.Decide.{ℕ_discrete}
use crossfire_rs.Prelude.{
  ℕ, ◌≡◌, ◌⊎◌, inl, inr, ◌≤◌, ◌<◌, refl, ap, Bool, true, false, Option, none, some, List, [], ◌∷◌,
  ◌++◌, if◌then◌else◌, arith,
}
use crossfire_rs.Waker.{WakerInner}
use crossfire_rs.Registry.{
  Registry, World, Cleared, go_on, drop_stop, keep_stop, process, clear_loop, clear_wakers, popped,
  has_waker,
}

-- The waker is dropped by its owner, is the one with the sequence number `old`, or is an earlier one
-- that was woken or closed.
abbrev pub IsOutdated : ℕ → Option WakerInner → Type 0
IsOutdated old none = Unit
IsOutdated old (some x) = (x.seq ≡ old) ⊎ ((x.seq < old) × (3 ≤ x.state))

abbrev pub AreOutdated : ℕ → World → List ℕ → Type 0
AreOutdated old w [] = Unit
AreOutdated old w (i ∷ q) = IsOutdated old (w.wakers i) × AreOutdated old w q

-- The wakers `gone` were taken from the front of `q`, and `rest` stays.
abbrev pub TakesOutdated : ℕ → World → List ℕ → List ℕ → Type 0
TakesOutdated old w q rest = (gone : List ℕ) × (q ≡ gone ++ rest) × AreOutdated old w gone

process-go_on :
    (oneshot : Bool) (old : ℕ) (o : Option WakerInner)
    → process oneshot old o ≡ go_on
    → IsOutdated old o
unfolding process
process-go_on oneshot old none e = tt
process-go_on oneshot old (some x) e = inr (ground arith)

process-drop_stop :
    (oneshot : Bool) (old : ℕ) (o : Option WakerInner)
    → process oneshot old o ≡ drop_stop
    → IsOutdated old o
unfolding process
process-drop_stop oneshot old none e = tt
process-drop_stop oneshot old (some x) e = elim (ℕ_discrete x.seq old) [
  | yes same ↦ inl same
  | no other ↦ inr (ground arith)
]

module _ (oneshot : Bool) (old : ℕ) (w : World) where
  one_more :
      (i : ℕ) (q rest : List ℕ)
      → IsOutdated old (w.wakers i)
      → TakesOutdated old w q rest
      → TakesOutdated old w (i ∷ q) rest
  one_more i q rest out (gone, e, outs) = (i ∷ gone, ap (λ l. i ∷ l) e, (out, outs))

  taken :
      (c : Cleared) (i : ℕ) (q rest : List ℕ)
      → (c ≡ go_on → IsOutdated old (w.wakers i))
      → (c ≡ drop_stop → IsOutdated old (w.wakers i))
      → TakesOutdated old w q rest
      → TakesOutdated old w (i ∷ q) (elim c [ go_on ↦ rest | drop_stop ↦ q | keep_stop ↦ i ∷ q ])
  taken go_on i q rest out _ more = one_more i q rest (out refl) more
  taken drop_stop i q rest _ out more = one_more i q q (out refl) ([], refl, tt)
  taken keep_stop i q rest _ _ more = ([], refl, tt)

  clear_loop-TakesOutdated : (q : List ℕ) → TakesOutdated old w q (clear_loop oneshot old w q)
  unfolding clear_loop
  clear_loop-TakesOutdated [] = ([], refl, tt)
  clear_loop-TakesOutdated (i ∷ q) =
      taken (process oneshot old (w.wakers i)) i q (clear_loop oneshot old w q)
        (process-go_on oneshot old (w.wakers i)) (process-drop_stop oneshot old (w.wakers i))
        (clear_loop-TakesOutdated q)

-- `_clear_wakers` takes only outdated wakers, from the front of the queue: those dropped by their
-- owners, those with the sequence number of the waiter that gives up, and earlier ones that were
-- woken or closed.
pub clear_safe :
    (oneshot : Bool) (old : WakerInner) (w : World) (r : Registry)
    → (gone : List ℕ) × (r.queue ≡ gone ++ (clear_wakers oneshot old w r).queue)
      × AreOutdated old.seq w gone
unfolding clear_wakers
clear_safe oneshot old w r =
    elim (has_waker r.state)
      as (λ b.
        TakesOutdated old.seq w r.queue
          (if b then popped (clear_loop oneshot old.seq w r.queue) r else r).queue) [
            | true ↦ clear_loop-TakesOutdated oneshot old.seq w r.queue
            | false ↦ ([], refl, tt)
          ]

-- The wakers of a list are dropped by their owners, or were woken or closed and are earlier than `old`.
abbrev pub AreSpent : ℕ → World → List ℕ → Type 0
AreSpent old w [] = Unit
AreSpent old w (i ∷ q) =
    ((w.wakers i ≡ none)
      ⊎ ((x : WakerInner) × (w.wakers i ≡ some x) × (3 ≤ x.state) × (x.seq < old)))
    × AreSpent old w q

loop_reaches :
    (w : World) (old : WakerInner) (xs ys : List ℕ) (j : ℕ)
    → AreSpent old.seq w xs
    → w.wakers j ≡ some old
    → clear_loop false old.seq w (xs ++ (j ∷ ys)) ≡ ys
unfolding clear_loop
loop_reaches w old [] ys j spent there = ground arith
loop_reaches w old (i ∷ xs) ys j (inl e, spent) there =
    ground (arith, loop_reaches w old xs ys j spent there)
loop_reaches w old (i ∷ xs) ys j (inr (x, e, done, low), spent) there =
    ground (arith, loop_reaches w old xs ys j spent there)

-- Where the state announces a waker, `clear_wakers` takes from the queue the wakers in front of
-- the waiter's own that are dropped by their owners, or were woken or closed and are earlier, and
-- its own, and leaves exactly those behind.
pub clear_reaches :
    (w : World) (r : Registry) (old : WakerInner) (xs ys : List ℕ) (j : ℕ)
    → has_waker r.state ≡ true
    → r.queue ≡ xs ++ (j ∷ ys)
    → AreSpent old.seq w xs
    → w.wakers j ≡ some old
    → (clear_wakers false old w r).queue ≡ ys
unfolding clear_wakers
clear_reaches w r old xs ys j flag e spent there =
    ground (arith, ap (clear_loop false old.seq w) e, loop_reaches w old xs ys j spent there)
