-- ===== src/Tests/Multiplex.antt =====
-- A run of src/select/multiplex.rs over two channels.
use crossfire_rs.Prelude.{ℕ, ◌+◌, ◌*◌, ◌≤◌, refl, false, Option, none, some, List, [], ◌∷◌, arith}
use crossfire_rs.Multiplex.{Multiplex, Tries, add_item, new, try_select_all, try_select_cached}
use crossfire_rs.Multiplex.Served.{Sound, ReadyAt}
use crossfire_rs.Multiplex.Fair.{Waits, wait_bounded}

abbrev take : List ℕ → Option ℕ × List ℕ
take [] = (none, [])
take (x ∷ xs) = (some x, xs)

abbrev tries : Tries (List ℕ) ℕ
tries = record { try_recv = take; try_recv_final = take; try_recv_cached = take }

abbrev five : List ℕ
five = 5 ∷ 6 ∷ 7 ∷ []

abbrev eight : List ℕ
eight = 8 ∷ []

-- The first receive is from the first channel, which may go on once.
abbrev two : Multiplex (List ℕ)
two = (try_select_cached tries false (add_item eight 1 (add_item five 2 new))).1

two-Sound : Sound tries 1 2 two
unfolding add_item try_select_cached try_select_all
two-Sound = record {
  same_length = refl;
  weights = (omega arith, (omega arith, tt));
  count_le = omega arith;
  in_range = omega arith;
}

second-ReadyAt : ReadyAt tries 1 two
unfolding add_item try_select_cached try_select_all
second-ReadyAt = (record { queue = eight; weight = 0; on_recvs = 0 }, refl, (refl, refl, refl))

once-Waits : Waits tries 1 2 1 two 1 (try_select_cached tries false two).1
unfolding add_item try_select_cached try_select_all
once-Waits = Waits.passed Waits.begin two (two-Sound, refl, refl) second-ReadyAt (λ e. ground arith)

wait_bounded_example : 1 ≤ 2 * (1 + 1) + 1
wait_bounded_example = wait_bounded tries 1 2 1 1 two _ two-Sound (omega arith) once-Waits
