-- ===== src/ArrayQueue/Refine.antt =====
-- src/crossbeam/array_queue.rs: against a bounded first-in-first-out list.
use native.Mathlib.Decide.{ℕ_discrete}
use crossfire_rs.Prelude.{
  ℕ, ◌^◌, ◌<◌, ◌≡◌, refl, Bool, true, false, Option, none, some, List, [], ◌∷◌, ◌++◌, ◌==◌, length,
  arith,
}
use crossfire_rs.ArrayQueue.{ArrayQueue, push_with_ptr, pop, new}
use crossfire_rs.ArrayQueue.Rep.{Rep}
use crossfire_rs.ArrayQueue.Push.{after_push, after_push-Rep, push_room, push_full}
use crossfire_rs.ArrayQueue.Pop.{after_pop, after_pop-Rep, pop-some, pop-none}
use crossfire_rs.ArrayQueue.Fresh.{fresh, new-Rep}

-- A call, with the spurious failures of its exchanges.
pub data Op (A : Type 0) : Type 0 where
  push : List Bool → A → Op A
  take : List Bool → Op A

pub data Reply (A : Type 0) : Type 0 where
  pushed : Bool → Reply A
  taken : Option A → Reply A

module _ {A : Type 0} where
  -- The calls in order, with what each returns; a loop gets one round more than it fails spuriously.
  unfoldable pub run : ArrayQueue A → List (Op A) → Option (List (Reply A))
  run q [] = some []
  run q (push flags v ∷ ops) = elim (push_with_ptr (flags ++ (false ∷ [])) q v) [
    | none ↦ none
    | some (b, q') ↦ elim (run q' ops) [ none ↦ none | some rs ↦ some (pushed b ∷ rs) ]
  ]
  run q (take flags ∷ ops) = elim (pop (flags ++ (false ∷ [])) q) [
    | none ↦ none
    | some (o, q') ↦ elim (run q' ops) [ none ↦ none | some rs ↦ some (taken o ∷ rs) ]
  ]

  -- The same calls on a list of at most `cap` values.
  unfoldable pub run_fifo : ℕ → List A → List (Op A) → List (Reply A)
  run_fifo cap xs [] = []
  run_fifo cap xs (push _ v ∷ ops) = elim (length xs == cap) [
    | true ↦ pushed false ∷ run_fifo cap xs ops
    | false ↦ pushed true ∷ run_fifo cap (xs ++ (v ∷ [])) ops
  ]
  run_fifo cap [] (take _ ∷ ops) = taken none ∷ run_fifo cap [] ops
  run_fifo cap (x ∷ xs) (take _ ∷ ops) = taken (some x) ∷ run_fifo cap xs ops

  run_refines_from :
      {cap : ℕ} (ops : List (Op A)) (q : ArrayQueue A) (xs : List A)
      → Rep cap q xs
      → run q ops ≡ some (run_fifo cap xs ops)
  unfolding run run_fifo
  run_refines_from [] q xs r = refl
  run_refines_from {cap} (push flags v ∷ ops) q xs r = elim (ℕ_discrete (length xs) cap) [
    | yes e ↦ ground (arith, push_full r flags v e, run_refines_from ops q xs r)
    | no ne ↦
        let lt : length xs < cap = omega (arith, r.fits) in
        ground (
          arith,
          push_room r flags v lt,
          run_refines_from ops (after_push q v) (xs ++ (v ∷ [])) (after_push-Rep r v lt),
        )
  ]
  run_refines_from (take flags ∷ ops) q [] r =
      ground (arith, pop-none r flags, run_refines_from ops q [] r)
  run_refines_from (take flags ∷ ops) q (x ∷ xs) r =
      ground (arith, pop-some r flags, run_refines_from ops (after_pop q) xs (after_pop-Rep r))

  -- On a new array queue of any capacity from 1 to 2⁶³ - 1, every sequence of pushes and pops,
  -- made one after another and each with any number of spurious failures before an exchange that
  -- does not fail spuriously, ends, and answers as a list of at most that many values does,
  -- through any number of laps and past the wrap of the stamps.
  pub run_refines :
      (cap : ℕ) (ops : List (Op A))
      → 0 < cap
      → cap < 2 ^ 63
      → (q : ArrayQueue A) × (new cap ≡ some q) × (run q ops ≡ some (run_fifo cap [] ops))
  run_refines cap ops pos small =
      let (made, r) = new-Rep A cap pos small in
      (fresh A cap, made, run_refines_from ops (fresh A cap) [] r)
