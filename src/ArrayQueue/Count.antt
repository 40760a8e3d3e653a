-- ===== src/ArrayQueue/Count.antt =====
-- src/crossbeam/array_queue.rs: what `is_empty`, `len` and `drop` see of the values held.
use crossfire_rs.Prelude.{
  ℕ, suc, ◌+◌, ◌-◌, ◌%◌, ◌<◌, ◌≡◌, ◌≢◌, refl, sym, ◌∙◌, ap, ap₂, some, List, [], ◌∷◌, map,
  if◌then◌else◌, ltb, ◌==◌, length, get_or, arith,
}
use crossfire_rs.ArrayQueue.{ArrayQueue, capacity, no_slot, is_empty, is_full, len, drop_from, drop}
use crossfire_rs.ArrayQueue.Positions.{pos_at-zero, index-pos_at, pos_at-cap, lap_le}
use crossfire_rs.ArrayQueue.Push.{is_full_lem}
use crossfire_rs.ArrayQueue.Rep.{nth, later, Rep}

module _ {A : Type 0} {cap : ℕ} {q : ArrayQueue A} {xs : List A} (r : Rep cap q xs) where
  open r use {tail_at, values, fits, lap, start, sized}

  tail_index : q.tail % q.one_lap ≡ (
      if ltb (q.head % q.one_lap + length xs) cap
      then q.head % q.one_lap + length xs
      else q.head % q.one_lap + length xs - cap)
  tail_index = ap (λ (t : ℕ). t % q.one_lap) tail_at ∙ index-pos_at lap start (length xs) fits

  tail_of_empty : length xs ≡ 0 → q.tail ≡ q.head
  tail_of_empty e = tail_at ∙ ap (λ k. later cap q k) e ∙ pos_at-zero lap start

  tail_of_full : length xs ≡ cap → q.tail ≢ q.head
  tail_of_full e h = omega (
    arith,
    tail_at ∙ ap (λ k. later cap q k) e ∙ pos_at-cap lap start,
    lap_le lap start,
    start.small,
    start.used,
    lap.room,
  )

  -- `len` of an array queue that holds the values `xs` is their number, at every place of the
  -- head and tail.
  len_lem : len q ≡ length xs
  unfolding len
  len_lem = ground (arith, tail_index, tail_of_empty, tail_of_full, start.used, fits, sized)

  -- `is_empty` of an array queue tells exactly whether it holds no value.
  is_empty_lem : is_empty q ≡ (length xs == 0)
  unfolding is_empty
  is_empty_lem = ground (arith, tail_index, tail_of_empty, tail_of_full, start.used, fits)

  -- `is_empty`, `is_full` and `len` of an array queue that holds the values `xs` tell whether
  -- there are none, whether they are as many as the capacity, and their number, at every place of
  -- the head and tail.
  pub observers_lem :
      (is_empty q ≡ (length xs == 0)) × (is_full q ≡ (length xs == cap)) × (len q ≡ length xs)
  observers_lem = (is_empty_lem, is_full_lem r, len_lem)

  drop_value :
      (j : ℕ)
      → j < length xs
      → (get_or q.buffer
          (if ltb (q.head % q.one_lap + j) (capacity q)
            then q.head % q.one_lap + j
            else q.head % q.one_lap + j - capacity q)
          no_slot).value
        ≡ nth xs j
  drop_value j h =
      ap (λ i. (get_or q.buffer i no_slot).value)
        (rw sized (sym (index-pos_at lap start j (omega (arith, fits)))))
      ∙ values j h

  nth-suc : (y : A) (ys : List A) (j : ℕ) → nth (y ∷ ys) (suc j) ≡ nth ys j
  nth-suc y ys j = refl

  drop_from_lem :
      (ys : List A) (k : ℕ)
      → k + length ys ≡ length xs
      → ((j : ℕ) → j < length ys → nth ys j ≡ nth xs (k + j))
      → drop_from q (length ys) (q.head % q.one_lap + k) ≡ map some ys
  unfolding drop_from
  drop_from_lem [] k e h = refl
  drop_from_lem (y ∷ ys) k e h =
      ap₂ ◌∷◌
        (drop_value k (omega arith) ∙ (ap (λ i. nth xs i) (omega arith) ∙ sym (h 0 (omega arith))))
        (ap (λ i. drop_from q (length ys) i) (omega arith)
          ∙ drop_from_lem ys (k + 1) (omega arith)
              (λ j lt. h (suc j) (omega arith) ∙ ap (λ i. nth xs i) (omega arith)))

  -- Dropping an array queue that holds the values `xs` drops exactly those values, oldest first.
  pub drop_lem : drop q ≡ map some xs
  unfolding drop
  drop_lem =
      ap (λ n. drop_from q n (q.head % q.one_lap)) len_lem
      ∙ ap (λ i. drop_from q (length xs) i) (omega arith)
      ∙ drop_from_lem xs 0 (omega arith) (λ j h. ap (λ i. nth xs i) (omega arith))
