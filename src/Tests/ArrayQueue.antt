-- ===== src/Tests/ArrayQueue.antt =====
-- Runs of src/crossbeam/array_queue.rs.
use crossfire_rs.Prelude.{ℕ, ◌≡◌, refl, arith, true, false, some, none, List, [], ◌∷◌}
use crossfire_rs.ArrayQueue.{ArrayQueue, new, push_with_ptr}
use crossfire_rs.ArrayQueue.Rep.{Rep}
use crossfire_rs.ArrayQueue.Push.{after_push, after_push-Rep, push_full}
use crossfire_rs.ArrayQueue.Fresh.{fresh, new-Rep}
use crossfire_rs.ArrayQueue.Refine.{Op, push, take, pushed, taken, run, run_fifo, run_refines}

abbrev empty : ArrayQueue ℕ
empty = fresh ℕ 2

abbrev one : ArrayQueue ℕ
one = after_push empty 7

abbrev two : ArrayQueue ℕ
two = after_push one 8

empty-Rep : Rep 2 empty []
empty-Rep = (new-Rep ℕ 2 (omega arith) (omega arith)).1

one-Rep : Rep 2 one (7 ∷ [])
one-Rep = after_push-Rep empty-Rep 7 (omega arith)

two-Rep : Rep 2 two (7 ∷ 8 ∷ [])
two-Rep = after_push-Rep one-Rep 8 (omega arith)

-- Three pushes, the last refused, a read, and a push into the slot that it freed.
abbrev calls : List (Op ℕ)
calls =
    push [] 7
    ∷ push (true ∷ []) 8
    ∷ push [] 9
    ∷ take (true ∷ [])
    ∷ push [] 9
    ∷ take []
    ∷ take []
    ∷ take []
    ∷ []

calls_answers :
    run_fifo 2 [] calls
    ≡ pushed true
      ∷ pushed true
      ∷ pushed false
      ∷ taken (some 7)
      ∷ pushed true
      ∷ taken (some 8)
      ∷ taken (some 9)
      ∷ taken none
      ∷ []
unfolding run_fifo
calls_answers = refl

run_refines_example :
    (q : ArrayQueue ℕ) × (new 2 ≡ some q) × (run q calls ≡ some (run_fifo 2 [] calls))
run_refines_example = run_refines 2 calls (omega arith) (omega arith)

push_full_example : push_with_ptr (true ∷ false ∷ []) two 9 ≡ some (false, two)
push_full_example = push_full two-Rep (true ∷ []) 9 refl
