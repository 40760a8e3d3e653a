-- ===== src/ArrayQueue/Rep.antt =====
-- src/crossbeam/array_queue.rs: a queue that no thread is working on holds the list `xs`.
use crossfire_rs.Prelude.{
  ℕ, zero, suc, ◌+◌, ◌≤◌, ◌<◌, ◌≡◌, ◌≢◌, refl, Option, none, some, List, [], ◌∷◌, ◌++◌, length,
  arith,
}
use crossfire_rs.ArrayQueue.{ArrayQueue, capacity, index_of, slot_at, advance}
use crossfire_rs.ArrayQueue.Positions.{IsLap, IsPos, pos_at, index-pos_at, pos_at-IsPos}

module _ {A : Type 0} where
  -- The value `j` places from the front.
  abbrev pub nth : List A → ℕ → Option A
  nth [] j = none
  nth (x ∷ xs) zero = some x
  nth (x ∷ xs) (suc j) = nth xs j

  pub nth-append : (xs : List A) (v : A) (j : ℕ) → j < length xs → nth (xs ++ (v ∷ [])) j ≡ nth xs j
  nth-append [] v j h = absurd (omega arith)
  nth-append (x ∷ xs) v zero h = refl
  nth-append (x ∷ xs) v (suc j) h = nth-append xs v j (omega arith)

  pub nth-append_last : (xs : List A) (v : A) → nth (xs ++ (v ∷ [])) (length xs) ≡ some v
  nth-append_last [] v = refl
  nth-append_last (x ∷ xs) v = nth-append_last xs v

  pub nth_past : (xs : List A) → nth xs (length xs) ≡ none
  nth_past [] = refl
  nth_past (x ∷ xs) = nth_past xs

-- From `head` on, the slots of `xs` are stamped as written and hold their values, and the others are
-- stamped as free.
module _ {A : Type 0} (cap : ℕ) (q : ArrayQueue A) where
  -- The position `j` places after the head.
  abbrev pub later : ℕ → ℕ
  later j = pos_at cap q.one_lap q.head j

  pub record Rep (xs : List A) : Type 0 where
    pub sized : capacity q ≡ cap
    pub lap : IsLap cap q.one_lap
    pub start : IsPos cap q.one_lap q.head
    pub fits : length xs ≤ cap
    pub tail_at : q.tail ≡ later (length xs)
    pub written : (j : ℕ) → j < length xs → (slot_at q (later j)).stamp ≡ later j + 1
    pub values : (j : ℕ) → j < length xs → (slot_at q (later j)).value ≡ nth xs j
    pub free : (j : ℕ) → length xs ≤ j → j < cap → (slot_at q (later j)).stamp ≡ later j

module _ {A : Type 0} {cap : ℕ} {q : ArrayQueue A} {xs : List A} (r : Rep cap q xs) where
  open r use {lap, start, sized}

  -- `advance` is one place further.
  pub advance-later : (j : ℕ) → j < cap → advance q (later cap q j) ≡ later cap q (j + 1)
  unfolding advance pos_at
  advance-later j lt = ground (arith, index-pos_at lap start j, start.used)

  pub advance-head : advance q q.head ≡ later cap q 1
  unfolding advance pos_at
  advance-head = ground (arith, start.used)

  -- Two places less than a lap apart have different indices.
  pub later-index_ne :
      (i j : ℕ)
      → i < cap
      → j < cap
      → i ≢ j
      → index_of q (later cap q i) ≢ index_of q (later cap q j)
  unfolding pos_at
  later-index_ne i j hi hj ne =
      ground (arith, index-pos_at lap start i, index-pos_at lap start j, start.used)

  pub index_in_range : (j : ℕ) → j ≤ cap → index_of q (later cap q j) < length q.buffer
  index_in_range j le = rw sized (pos_at-IsPos lap start j le).used
