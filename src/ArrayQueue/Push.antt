-- ===== src/ArrayQueue/Push.antt =====
-- src/crossbeam/array_queue.rs: what pushing does to a queue that no other thread is working on.
use crossfire_rs.Prelude.{
  ℕ, ◌+◌, ◌%◌, ◌<◌, ◌≡◌, ◌≢◌, sym, ◌∙◌, ap, Bool, true, false, none, some, List, [], ◌∷◌, ◌++◌,
  if◌then◌else◌, ◌==◌, add64, length, get_or, set, length-set, get_or-set_self, get_or-set_ne,
  length-append, arith,
}
use native.Mathlib.Decide.{ℕ_discrete}
use crossfire_rs.ArrayQueue.{
  Slot, ArrayQueue, index_of, slot_at, advance, no_slot, try_push, push_loop, push_with_ptr,
  try_push_oneshot, is_full, pushed, failed,
}
use crossfire_rs.ArrayQueue.Positions.{pos_at-cap, pos_at-zero, index-lap, pos_at-no_wrap, lap_le}
use crossfire_rs.ArrayQueue.Rep.{
  nth-append, nth-append_last, later, Rep, advance-later, later-index_ne, index_in_range,
}

-- The queue with `v` written at its tail.
abbrev pub after_push : {A : Type 0} → ArrayQueue A → A → ArrayQueue A
after_push q v = record q {
  tail = advance q q.tail;
  buffer = set q.buffer (index_of q q.tail) (record { stamp = q.tail + 1; value = some v });
}

module _ {A : Type 0} {cap : ℕ} {q : ArrayQueue A} {xs : List A} (r : Rep cap q xs) where
  open r use {tail_at, written, values, free, fits, lap, start, sized}

  -- With room, the slot at the tail is free.
  room_stamp : length xs < cap → (slot_at q q.tail).stamp ≡ q.tail
  room_stamp lt = cc (free (length xs) (omega arith) lt)

  write_new :
      (v : A) (t : ℕ)
      → length xs < cap
      → t ≡ later cap q (length xs)
      → get_or
          (set q.buffer (t % q.one_lap) (record { stamp = t + 1; value = some v }))
          (later cap q (length xs) % q.one_lap)
          no_slot
        ≡ record { stamp = later cap q (length xs) + 1; value = some v }
  write_new v t lt e =
      rw e (get_or-set_self q.buffer _ _ no_slot (index_in_range r (length xs) (omega arith)))

  write_old :
      (v : A) (t j : ℕ)
      → length xs < cap
      → j < cap
      → j ≢ length xs
      → t ≡ later cap q (length xs)
      → get_or
          (set q.buffer (t % q.one_lap) (record { stamp = t + 1; value = some v }))
          (later cap q j % q.one_lap)
          no_slot
        ≡ slot_at q (later cap q j)
  write_old v t j lt hj ne e = rw e (
      get_or-set_ne q.buffer _ _ _ no_slot (later-index_ne r (length xs) j lt hj (λ h. ne (sym h))))

  -- A push with room appends its value.
  pub after_push-Rep : (v : A) → length xs < cap → Rep cap (after_push q v) (xs ++ (v ∷ []))
  after_push-Rep v lt = record {
    sized = length-set q.buffer _ _ ∙ sized;
    lap = lap;
    start = start;
    fits = omega (arith, length-append xs (v ∷ []));
    tail_at = cc (advance-later r (length xs) lt, length-append xs (v ∷ []));
    written = λ j h. elim (ℕ_discrete j (length xs)) [
      | yes e ↦ rw e (ap (λ (s : Slot A). s.stamp) (write_new v q.tail lt tail_at))
      | no ne ↦
          ap (λ (s : Slot A). s.stamp)
            (write_old v q.tail j lt (omega (arith, length-append xs (v ∷ []))) ne tail_at)
          ∙ (written j (omega (arith, length-append xs (v ∷ []))))
    ];
    values = λ j h. elim (ℕ_discrete j (length xs)) [
      | yes e ↦ rw e (
          ap (λ (s : Slot A). s.value) (write_new v q.tail lt tail_at) ∙ sym (nth-append_last xs v))
      | no ne ↦
          ap (λ (s : Slot A). s.value)
            (write_old v q.tail j lt (omega (arith, length-append xs (v ∷ []))) ne tail_at)
          ∙ values j (omega (arith, length-append xs (v ∷ [])))
          ∙ sym (nth-append xs v j (omega (arith, length-append xs (v ∷ []))))
    ];
    free = λ j le h.
        ap (λ (s : Slot A). s.stamp)
          (write_old v q.tail j lt h (λ e. absurd (omega (arith, length-append xs (v ∷ []))))
            tail_at)
        ∙ (free j (omega (arith, length-append xs (v ∷ []))) h);
  }

  try_push_room :
      (spurious : Bool) (v : A)
      → length xs < cap
      → try_push spurious q q.tail v ≡ (
          if spurious
          then (failed (slot_at q q.tail).stamp (some q.tail), q)
          else (pushed, after_push q v))
  unfolding try_push
  try_push_room spurious v lt = ground (arith, room_stamp lt)

  push_loop_room :
      (flags : List Bool) (v : A)
      → length xs < cap
      → push_loop (flags ++ (false ∷ [])) q q.tail v ≡ some (true, after_push q v)
  unfolding push_loop
  push_loop_room [] v lt = ground (arith, room_stamp lt)
  push_loop_room (spurious ∷ flags) v lt = ground (arith, room_stamp lt, push_loop_room flags v lt)

  tail_lapped : length xs ≡ cap → q.tail ≡ add64 q.head q.one_lap
  tail_lapped e = tail_at ∙ ap (λ k. later cap q k) e ∙ pos_at-cap lap start

  tail_index : length xs ≡ cap → q.tail % q.one_lap ≡ q.head % q.one_lap
  tail_index e = ap (λ (t : ℕ). t % q.one_lap) (tail_lapped e) ∙ index-lap lap start

  pub head_stamp : 0 < length xs → (slot_at q q.head).stamp ≡ q.head + 1
  head_stamp lt = cc (written 0 lt, pos_at-zero lap start)

  tail_stamp : length xs ≡ cap → (slot_at q q.tail).stamp ≡ q.head + 1
  tail_stamp e = cc (tail_index e, head_stamp (omega (arith, start.used)))

  -- In a full queue the tail is one lap ahead of the head, at the slot of the oldest value.
  full_facts :
      length xs ≡ cap
      → (add64 q.head q.one_lap ≡ q.tail)
        × ((slot_at q q.tail).stamp ≢ q.tail)
        × (add64 (slot_at q q.tail).stamp q.one_lap ≡ q.tail + 1)
  full_facts e = omega (
    arith,
    tail_lapped e,
    tail_stamp e,
    pos_at-no_wrap lap start cap,
    pos_at-cap lap start,
    start.small,
    start.used,
    lap.room,
    lap_le lap start,
  )

  push_loop_full :
      (flags : List Bool) (v : A)
      → length xs ≡ cap
      → push_loop (flags ++ (false ∷ [])) q q.tail v ≡ some (false, q)
  unfolding push_loop
  push_loop_full [] v e = ground (arith, full_facts e)
  push_loop_full (spurious ∷ flags) v e = ground (arith, full_facts e)

  -- A push on a queue with room ends, however often its exchange fails spuriously, and appends the
  -- value.
  pub push_room :
      (flags : List Bool) (v : A)
      → length xs < cap
      → push_with_ptr (flags ++ (false ∷ [])) q v ≡ some (true, after_push q v)
  unfolding push_with_ptr
  push_room flags v lt = push_loop_room flags v lt

  -- A push on a full queue ends, answers false and changes nothing.
  pub push_full :
      (flags : List Bool) (v : A)
      → length xs ≡ cap
      → push_with_ptr (flags ++ (false ∷ [])) q v ≡ some (false, q)
  unfolding push_with_ptr
  push_full flags v e = push_loop_full flags v e

  not_lapped : length xs < cap → add64 q.head q.one_lap ≢ q.tail
  not_lapped lt e = elim (ℕ_discrete (length xs) 0) [
    | yes empty ↦ omega (
      arith,
      tail_at ∙ ap (λ k. later cap q k) empty ∙ pos_at-zero lap start,
      lap_le lap start,
      start.small,
    )
    | no ne ↦ later-index_ne r (length xs) 0 lt (omega (arith, start.used)) ne (
        ap (λ (t : ℕ). t % q.one_lap) (sym tail_at ∙ sym e)
        ∙ index-lap lap start
        ∙ ap (λ (t : ℕ). t % q.one_lap) (sym (pos_at-zero lap start)))
  ]

  -- `is_full` of an array queue tells exactly whether it holds as many values as its capacity.
  pub is_full_lem : is_full q ≡ (length xs == cap)
  unfolding is_full
  is_full_lem = ground (arith, full_facts, not_lapped)

  -- `try_push_oneshot` on an array queue that holds the values `xs` refuses if they are as many
  -- as the capacity, answers nothing and changes nothing if its exchange fails spuriously, and
  -- pushes otherwise.
  pub try_push_oneshot_lem :
      (spurious : Bool) (v : A)
      → try_push_oneshot spurious q v ≡ (
          if length xs == cap
          then (some false, q)
          else if spurious
          then (none, q)
          else (some true, after_push q v))
  unfolding try_push_oneshot
  try_push_oneshot_lem spurious v = ground (arith, fits, not_lapped, full_facts, room_stamp)
