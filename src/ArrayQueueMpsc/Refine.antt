-- ===== src/ArrayQueueMpsc/Refine.antt =====
-- src/crossbeam/array_queue_mpsc.rs: against the bounded first-in-first-out list of the array queue.
use native.Mathlib.Decide.{ℕ_discrete}
use crossfire_rs.Prelude.{
  ℕ, ◌+◌, ◌*◌, ◌^◌, ◌<◌, ◌≡◌, refl, true, false, Option, none, some, List, [], ◌∷◌, ◌++◌, length,
  arith,
}
use crossfire_rs.ArrayQueue.{init_slots, next_power_of_two}
use crossfire_rs.ArrayQueue.Powers.{next_power_of_two-IsPower}
use crossfire_rs.ArrayQueue.Fresh.{length-init_slots}
use crossfire_rs.ArrayQueue.Refine.{Op, push, take, Reply, pushed, taken, run_fifo}
use crossfire_rs.Laps.{AreLaps, posn-zero}
use crossfire_rs.ArrayQueueMpsc.{ArrayQueueMpsc, new, push_with_ptr, pop}
use crossfire_rs.ArrayQueueMpsc.Rep.{Rep}
use crossfire_rs.ArrayQueueMpsc.Push.{push_room, push_full}
use crossfire_rs.ArrayQueueMpsc.Pop.{pop-some, pop-none}

module _ {A : Type 0} where
  -- The calls in order, with what each returns; a push gets one round more than it fails spuriously.
  unfoldable pub run_mpsc : ArrayQueueMpsc A → List (Op A) → Option (List (Reply A))
  run_mpsc q [] = some []
  run_mpsc q (push flags v ∷ ops) = elim (push_with_ptr (flags ++ (false ∷ [])) q v) [
    | none ↦ none
    | some (b, q') ↦ elim (run_mpsc q' ops) [ none ↦ none | some rs ↦ some (pushed b ∷ rs) ]
  ]
  run_mpsc q (take _ ∷ ops) = elim (pop true q) [
    | none ↦ none
    | some (o, q') ↦ elim (run_mpsc q' ops) [ none ↦ none | some rs ↦ some (taken o ∷ rs) ]
  ]

module _ {cap lap laps : ℕ} (l : AreLaps cap lap laps) (word : lap * laps ≡ 2 ^ 32)
    {A : Type 0} where
  run_from :
      (ops : List (Op A)) (q : ArrayQueueMpsc A) (xs : List A)
      → Rep cap lap laps q xs
      → run_mpsc q ops ≡ some (run_fifo cap xs ops)
  unfolding run_mpsc run_fifo
  run_from [] q xs r = refl
  run_from (push flags v ∷ ops) q xs r = elim (ℕ_discrete (length xs) cap) [
    | yes e ↦ ground (arith, push_full l word r flags v e, run_from ops q xs r)
    | no ne ↦
        let lt : length xs < cap = omega (arith, r.fits, r.head_kept) in
        let (q', e, r') = push_room l word r flags v lt in
        ground (arith, e, run_from ops q' (xs ++ (v ∷ [])) r')
  ]
  run_from (take flags ∷ ops) q [] r = ground (arith, pop-none l word r, run_from ops q [] r)
  run_from (take flags ∷ ops) q (x ∷ xs) r =
      let (q', e, r') = pop-some l word r in ground (arith, e, run_from ops q' xs r')

abbrev pub fresh : (A : Type 0) → ℕ → ArrayQueueMpsc A
fresh A cap = record {
  sender = 0;
  recv = 0;
  buffer = init_slots cap 0;
  one_lap = next_power_of_two (cap + 1);
}

module _ (A : Type 0) (cap : ℕ) (pos : 0 < cap) (bounded : cap < 2 ^ 31) where
  abbrev lap : ℕ
  lap = next_power_of_two (cap + 1)

  abbrev laps : ℕ
  laps = (next_power_of_two-IsPower 31 (cap + 1) (omega arith)).laps

  are_laps : AreLaps cap lap laps
  are_laps =
      let f = next_power_of_two-IsPower 31 (cap + 1) (omega arith) in
      record { used = pos; room = omega (arith, f.above); wraps = f.wraps }

  word : lap * laps ≡ 2 ^ 32
  word = (next_power_of_two-IsPower 31 (cap + 1) (omega arith)).word

  fresh-Rep : Rep cap lap laps (fresh A cap) []
  fresh-Rep = record {
    freed = 0;
    kept_head = 0;
    kept_tail = 0;
    sized = length-init_slots A cap 0;
    lap_is = refl;
    head_kept = omega arith;
    tail_kept = omega arith;
    tail_sent = omega arith;
    fits = omega arith;
    sender_word = omega (arith, posn-zero are_laps);
    recv_word = omega (arith, posn-zero are_laps);
    stamped = λ j lt. absurd (omega arith);
    written = λ j lt. absurd (omega arith);
  }

  new_lem : new {A = A} cap ≡ some (fresh A cap)
  unfolding new
  new_lem = ground arith

-- On a new array queue of many senders of any capacity from 1 to 2³¹ - 1, every sequence of
-- pushes and pops, made one after another, each push with any number of spurious failures before
-- an exchange that does not fail spuriously, ends, and answers as a list of at most that many
-- values does, past every wrap of the 32-bit positions; no pop waits for a stamp.
pub mpsc_refines :
    {A : Type 0} (cap : ℕ) (ops : List (Op A))
    → 0 < cap
    → cap < 2 ^ 31
    → (q : ArrayQueueMpsc A) × (new cap ≡ some q) × (run_mpsc q ops ≡ some (run_fifo cap [] ops))
mpsc_refines {A} cap ops pos bounded = (
  fresh A cap,
  new_lem A cap pos bounded,
  run_from (are_laps A cap pos bounded) (word A cap pos bounded) ops (fresh A cap) []
      (fresh-Rep A cap pos bounded),
)
