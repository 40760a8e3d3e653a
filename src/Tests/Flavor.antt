-- ===== src/Tests/Flavor.antt =====
-- The array queue as the queue of a channel, src/flavor/array.rs, with room for two values.
use crossfire_rs.Prelude.{ℕ, ◌≡◌, arith, true, false, some, none, [], ◌∷◌}
use crossfire_rs.ArrayQueue.{ArrayQueue, push_with_ptr, try_push_oneshot, pop}
use crossfire_rs.ArrayQueue.Push.{after_push, after_push-Rep}
use crossfire_rs.ArrayQueue.Pop.{after_pop}
use crossfire_rs.ArrayQueue.Fresh.{fresh, new-Rep}
use crossfire_rs.Flavor.Array.{Held, new_with_bound, array_implements_flavor}

abbrev empty : ArrayQueue ℕ
empty = fresh ℕ 2

abbrev one : ArrayQueue ℕ
one = after_push empty 7

abbrev one_held : Held ℕ 2
one_held = record {
  queue = one;
  held = 7 ∷ [];
  rep = after_push-Rep (new-Rep ℕ 2 (omega arith) (omega arith)).1 7 (omega arith);
}

array_implements_flavor_example :
    (new_with_bound 2 ≡ some empty)
    × (push_with_ptr (true ∷ false ∷ []) one 8 ≡ some (true, after_push one 8))
    × (try_push_oneshot true one 8 ≡ (none, one))
    × (pop (true ∷ false ∷ []) one ≡ some (some 7, after_pop one))
    × (pop (true ∷ false ∷ []) one ≡ some (some 7, after_pop one))
unfolding native.Mathlib.Decide.ℕ_discrete
array_implements_flavor_example =
    array_implements_flavor ℕ 2 (omega arith) (true ∷ []) true 8 one_held
