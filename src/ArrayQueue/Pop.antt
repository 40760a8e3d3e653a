-- ===== src/ArrayQueue/Pop.antt =====
-- src/crossbeam/array_queue.rs: what popping does to a queue that no other thread is working on.
use native.Mathlib.Decide.{ℕ_discrete}
use native.Mathlib.Numerals.{add-one}
use crossfire_rs.Prelude.{
  ℕ, ◌+◌, ◌%◌, ◌<◌, ◌≡◌, sym, ◌∙◌, ap, Bool, false, none, some, List, [], ◌∷◌, ◌++◌, add64, length,
  get_or, set, length-set, get_or-set_self, get_or-set_ne, arith,
}
use crossfire_rs.ArrayQueue.{Slot, ArrayQueue, index_of, slot_at, advance, no_slot, start_loop, pop}
use crossfire_rs.ArrayQueue.Positions.{
  pos_at, pos_at-cap, pos_at-suc, pos_at-IsPos, pos_at-zero, index-lap,
}
use crossfire_rs.ArrayQueue.Rep.{nth, later, Rep, advance-head, later-index_ne}
use crossfire_rs.ArrayQueue.Push.{head_stamp}

-- The queue with the value at its head taken.
abbrev pub after_pop : {A : Type 0} → ArrayQueue A → ArrayQueue A
after_pop q = record q {
  head = advance q q.head;
  buffer =
      set q.buffer (index_of q q.head) (record { stamp = add64 q.head q.one_lap; value = none });
}

module _ {A : Type 0} {cap : ℕ} {q : ArrayQueue A} {x : A} {xs : List A}
    (r : Rep cap q (x ∷ xs)) where
  open r use {tail_at, written, values, free, fits, lap, start, sized}

  later_next : (j : ℕ) → j < cap → later cap (after_pop q) j ≡ later cap q (j + 1)
  later_next j lt = ap (λ p. pos_at cap q.one_lap p j) (advance-head r) ∙ pos_at-suc lap start j lt

  zero_index : index_of q q.head ≡ index_of q (later cap q 0)
  zero_index = ap (λ (t : ℕ). t % q.one_lap) (sym (pos_at-zero lap start))

  slot_other :
      (j : ℕ)
      → j + 1 < cap
      → slot_at (after_pop q) (later cap (after_pop q) j) ≡ slot_at q (later cap q (j + 1))
  slot_other j lt =
      ap (λ (t : ℕ). get_or (after_pop q).buffer (t % q.one_lap) no_slot)
        (later_next j (omega arith))
      ∙ get_or-set_ne q.buffer _ _ _ no_slot
          (rw zero_index (later-index_ne r 0 (j + 1) (omega arith) lt (omega arith)))

  last_position : (j : ℕ) → j + 1 ≡ cap → later cap (after_pop q) j ≡ add64 q.head q.one_lap
  last_position j e = later_next j (omega arith) ∙ ap (λ k. later cap q k) e ∙ pos_at-cap lap start

  slot_last :
      (j : ℕ)
      → j + 1 ≡ cap
      → (slot_at (after_pop q) (later cap (after_pop q) j)).stamp ≡ later cap (after_pop q) j
  slot_last j e =
      ap (λ t. (get_or (after_pop q).buffer (t % q.one_lap) no_slot).stamp) (last_position j e)
      ∙ ap (λ i. (get_or (after_pop q).buffer i no_slot).stamp) (index-lap lap start)
      ∙ ap (λ (s : Slot A). s.stamp) (get_or-set_self q.buffer _ _ no_slot (rw sized start.used))
      ∙ sym (last_position j e)

  nth-cons : (j : ℕ) → nth (x ∷ xs) (j + 1) ≡ nth xs j
  nth-cons j = rw add-one

  -- A pop leaves the values behind the first.
  pub after_pop-Rep : Rep cap (after_pop q) xs
  after_pop-Rep = record {
    sized = length-set q.buffer _ _ ∙ sized;
    lap = lap;
    start = rw (advance-head r) (pos_at-IsPos lap start 1 (omega (arith, start.used)));
    fits = omega (arith, fits);
    tail_at =
        tail_at
        ∙ (ap (λ k. later cap q k) (omega arith)
            ∙ sym (later_next (length xs) (omega (arith, fits))));
    written = λ j h. cc (
      slot_other j (omega (arith, fits)),
      written (j + 1) (omega arith),
      later_next j (omega (arith, fits)),
    );
    values =
        λ j h. cc (slot_other j (omega (arith, fits)), values (j + 1) (omega arith), nth-cons j);
    free = λ j le h. elim (ℕ_discrete (j + 1) cap) [
      | yes e ↦ slot_last j e
      | no ne ↦
          cc (slot_other j (omega arith), free (j + 1) (omega arith) (omega arith), later_next j h)
    ];
  }

  start_loop-some :
      (flags : List Bool)
      → start_loop (flags ++ (false ∷ [])) q q.head
        ≡ some (
          some (record { pos = index_of q q.head; stamp = add64 q.head q.one_lap }),
          record q { head = advance q q.head },
        )
  unfolding start_loop
  start_loop-some [] = ground (arith, head_stamp r)
  start_loop-some (spurious ∷ flags) = ground (arith, head_stamp r, start_loop-some flags)

  head_value : (slot_at q q.head).value ≡ some x
  head_value = cc (values 0 (omega arith), zero_index)

  -- A pop of a queue that holds values ends, however often its exchange fails spuriously, and takes
  -- the oldest.
  pub pop-some : (flags : List Bool) → pop (flags ++ (false ∷ [])) q ≡ some (some x, after_pop q)
  unfolding pop
  pop-some flags = ground (arith, start_loop-some flags, head_value)

module _ {A : Type 0} {cap : ℕ} {q : ArrayQueue A} (r : Rep {A = A} cap q []) where
  open r use {tail_at, free, lap, start}

  empty_facts : (q.tail ≡ q.head) × ((slot_at q q.head).stamp ≡ q.head)
  empty_facts = (
    tail_at ∙ pos_at-zero lap start,
    cc (free 0 (omega arith) (omega (arith, start.used)), pos_at-zero lap start),
  )

  start_loop-none :
      (flags : List Bool) → start_loop (flags ++ (false ∷ [])) q q.head ≡ some (none, q)
  unfolding start_loop
  start_loop-none [] = ground (arith, empty_facts)
  start_loop-none (spurious ∷ flags) = ground (arith, empty_facts)

  -- A pop of an empty queue ends with nothing and changes nothing.
  pub pop-none : (flags : List Bool) → pop (flags ++ (false ∷ [])) q ≡ some (none, q)
  unfolding pop
  pop-none flags = ground (arith, start_loop-none flags)
