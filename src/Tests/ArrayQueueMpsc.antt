-- ===== src/Tests/ArrayQueueMpsc.antt =====
-- A run of src/crossbeam/array_queue_mpsc.rs.
use crossfire_rs.Prelude.{ℕ, ◌≡◌, arith, true, some, List, [], ◌∷◌}
use crossfire_rs.ArrayQueue.Refine.{Op, push, take, run_fifo}
use crossfire_rs.ArrayQueueMpsc.{ArrayQueueMpsc, new}
use crossfire_rs.ArrayQueueMpsc.Refine.{run_mpsc, mpsc_refines}

-- Two pushes fill the queue, a third is refused, and after a pop there is room again.
abbrev calls : List (Op ℕ)
calls =
    push [] 7
    ∷ push (true ∷ []) 8
    ∷ push [] 9
    ∷ take []
    ∷ push [] 9
    ∷ take []
    ∷ take []
    ∷ take []
    ∷ []

mpsc_refines_example :
    (q : ArrayQueueMpsc ℕ) × (new 2 ≡ some q) × (run_mpsc q calls ≡ some (run_fifo 2 [] calls))
mpsc_refines_example = mpsc_refines 2 calls (omega arith) (omega arith)
