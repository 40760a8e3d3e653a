-- ===== src/ArrayQueueMpsc/Push.antt =====
-- src/crossbeam/array_queue_mpsc.rs: pushes on a queue that holds the list `xs`.
use native.Mathlib.Decide.{ℕ_discrete}
use crossfire_rs.Prelude.{
  ℕ, ◌+◌, ◌*◌, ◌%◌, ◌^◌, ◌≤◌, ◌<◌, ◌≡◌, sym, ap, ◌∙◌, Bool, true, false, none, some, List, [], ◌∷◌,
  ◌++◌, if◌then◌else◌, length, get_or, set, add32, add64, length-append, length-set,
  get_or-set_self, get_or-set_ne, arith,
}
use crossfire_rs.ArrayQueue.{Slot, no_slot}
use crossfire_rs.ArrayQueue.Rep.{nth, nth-append, nth-append_last}
use crossfire_rs.ArrayQueueSpsc.{pack, high, low}
use crossfire_rs.ArrayQueueSpsc.Keep.{small}
use crossfire_rs.Laps.{AreLaps, posn, posn_inj, index_inj}
use crossfire_rs.ArrayQueueMpsc.{
  ArrayQueueMpsc, index_of, advance, try_push, head_for, push_loop, push_with_ptr, try_push_oneshot,
}
use crossfire_rs.ArrayQueueMpsc.Rep.{
  Rep, tail_is, cached_head_is, head_is, advance_is, lap_after, index_is, in_range,
}

-- The queue after the exchange of a sender that goes on with `head`, and its writes.
abbrev pub after_push : {A : Type 0} → ArrayQueueMpsc A → ℕ → A → ArrayQueueMpsc A
after_push q head v = record q {
  sender = pack head (advance q (low q.sender));
  buffer =
      set q.buffer (index_of q (low q.sender))
        (record { stamp = add64 (low q.sender) 1; value = some v });
}

module _ {cap lap laps : ℕ} (l : AreLaps cap lap laps) (word : lap * laps ≡ 2 ^ 32) {A : Type 0}
    {q : ArrayQueueMpsc A} {xs : List A} (r : Rep cap lap laps q xs) (v : A)
    (room : length xs < cap) where
  open r use {freed, kept_head, kept_tail}

  abbrev next_slot : Slot A
  next_slot = record { stamp = posn cap lap laps (freed + length xs) + 1; value = some v }

  abbrev next_buffer : List (Slot A)
  next_buffer = set q.buffer ((freed + length xs) % cap) next_slot

  slot_is :
      set q.buffer
        (index_of q (low q.sender))
        (record { stamp = add64 (low q.sender) 1; value = some v })
      ≡ next_buffer
  slot_is =
      let stamp_is : add64 (low q.sender) 1 ≡ posn cap lap laps (freed + length xs) + 1 =
        omega (arith, tail_is l word r, small l word (freed + length xs)) in
      ap (λ i. set q.buffer i (record { stamp = add64 (low q.sender) 1; value = some v }))
        (ap (index_of q) (tail_is l word r) ∙ index_is l word r (freed + length xs))
      ∙ ap (λ k. set q.buffer ((freed + length xs) % cap) (record { stamp = k; value = some v }))
          stamp_is

  at_last : get_or next_buffer ((freed + length xs) % cap) no_slot ≡ next_slot
  at_last =
      get_or-set_self q.buffer ((freed + length xs) % cap) next_slot no_slot
        (in_range l word r (freed + length xs))

  at_before :
      (j : ℕ)
      → j < length xs
      → get_or next_buffer ((freed + j) % cap) no_slot ≡ get_or q.buffer ((freed + j) % cap) no_slot
  at_before j lt =
      get_or-set_ne q.buffer ((freed + length xs) % cap) ((freed + j) % cap) next_slot no_slot
        (λ same. omega (
          arith,
          index_inj l (freed + j) (freed + length xs) (omega arith) (omega (arith, room))
              (sym same),
        ))

  longer : length (xs ++ (v ∷ [])) ≡ length xs + 1
  longer = length-append xs (v ∷ [])

  slot_stamped :
      (j : ℕ)
      → j < length (xs ++ (v ∷ []))
      → (get_or next_buffer ((freed + j) % cap) no_slot).stamp ≡ posn cap lap laps (freed + j) + 1
  slot_stamped j lt = elim (ℕ_discrete j (length xs)) [
    | yes last ↦
        ap (λ i. (get_or next_buffer ((freed + i) % cap) no_slot).stamp) last
        ∙ ap (λ (k : Slot A). k.stamp) at_last
        ∙ ap (λ i. posn cap lap laps (freed + i) + 1) (sym last)
    | no before ↦
        let lt' : j < length xs = omega (arith, longer) in cc (at_before j lt', r.stamped j lt')
  ]

  slot_written :
      (j : ℕ)
      → j < length (xs ++ (v ∷ []))
      → (get_or next_buffer ((freed + j) % cap) no_slot).value ≡ nth (xs ++ (v ∷ [])) j
  slot_written j lt = elim (ℕ_discrete j (length xs)) [
    | yes last ↦ cc (last, at_last, nth-append_last xs v)
    | no before ↦
        let lt' : j < length xs = omega (arith, longer) in
        cc (at_before j lt', r.written j lt', nth-append xs v j lt')
  ]

  -- The queue after a push that goes on with the head that `kept` stands for.
  pub after_push-Rep :
      (kept : ℕ)
      → kept_head ≤ kept
      → kept ≤ freed
      → freed + length xs < kept + cap
      → Rep cap lap laps (after_push q (posn cap lap laps kept) v) (xs ++ (v ∷ []))
  after_push-Rep kept from to fits' = record {
    freed = freed;
    kept_head = kept;
    kept_tail = kept_tail;
    sized = length-set q.buffer (index_of q (low q.sender)) _ ∙ r.sized;
    lap_is = r.lap_is;
    head_kept = to;
    tail_kept = r.tail_kept;
    tail_sent = omega (arith, longer, r.tail_sent);
    fits = omega (arith, longer);
    sender_word =
        ap (λ p. pack (posn cap lap laps kept) (advance q p)) (tail_is l word r)
        ∙ ap (λ p. pack (posn cap lap laps kept) p) (advance_is l word r (freed + length xs))
        ∙ ap (λ n. pack (posn cap lap laps kept) (posn cap lap laps n)) (omega (arith, longer));
    recv_word = r.recv_word;
    stamped =
        λ j lt. ap (λ b. (get_or b ((freed + j) % cap) no_slot).stamp) slot_is ∙ slot_stamped j lt;
    written =
        λ j lt. ap (λ b. (get_or b ((freed + j) % cap) no_slot).value) slot_is ∙ slot_written j lt;
  }

-- How a push goes on, and that it ends.
module _ {cap lap laps : ℕ} (l : AreLaps cap lap laps) (word : lap * laps ≡ 2 ^ 32) {A : Type 0}
    {q : ArrayQueueMpsc A} {xs : List A} (r : Rep cap lap laps q xs) where
  open r use {freed, kept_head, kept_tail}

  lap_then : freed + length xs ≡ kept_head + cap → add32 (high q.sender) q.one_lap ≡ low q.sender
  lap_then e = lap_after l word r ∙ ap (posn cap lap laps) (sym e) ∙ sym (tail_is l word r)

  lap_only : add32 (high q.sender) q.one_lap ≡ low q.sender → freed + length xs ≡ kept_head + cap
  lap_only e =
      posn_inj l (freed + length xs) (kept_head + cap) r.fits (omega (arith, r.head_kept))
        (sym (tail_is l word r) ∙ sym e ∙ lap_after l word r)

  cached_only : low q.recv ≡ high q.sender → kept_head ≡ freed
  cached_only e =
      posn_inj l kept_head freed r.head_kept (omega (arith, r.fits))
        (sym (cached_head_is l word r) ∙ sym e ∙ head_is l word r)

  head_for-full : length xs ≡ cap → head_for q q.sender ≡ none
  unfolding head_for
  head_for-full e =
      let same : kept_head ≡ freed = omega (arith, r.fits, r.head_kept) in
      let cached : low q.recv ≡ high q.sender =
        head_is l word r ∙ ap (posn cap lap laps) (sym same) ∙ sym (cached_head_is l word r) in
      ground (arith, lap_then (omega arith), cached)

  head_for-room :
      length xs < cap
      → (kept : ℕ) × (head_for q q.sender ≡ some (posn cap lap laps kept))
        × (kept_head ≤ kept)
        × (kept ≤ freed)
        × (freed + length xs < kept + cap)
  unfolding head_for
  head_for-room lt = elim (ℕ_discrete (freed + length xs) (kept_head + cap)) [
    | yes e ↦ (
      freed,
      ground (arith, lap_then e, cached_only, head_is l word r),
      r.head_kept,
      omega arith,
      omega arith,
    )
    | no ne ↦ (
      kept_head,
      ground (arith, lap_only, cached_head_is l word r),
      omega arith,
      r.head_kept,
      omega (arith, r.fits),
    )
  ]

  push_loop-room :
      (flags : List Bool) (v : A) (head : ℕ)
      → head_for q q.sender ≡ some head
      → push_loop (flags ++ (false ∷ [])) q q.sender v ≡ some (true, after_push q head v)
  unfolding push_loop try_push
  push_loop-room [] v head e = ground (arith, e)
  push_loop-room (spurious ∷ flags) v head e = ground (arith, e, push_loop-room flags v head e)

  push_loop-full :
      (flags : List Bool) (v : A)
      → head_for q q.sender ≡ none
      → push_loop (flags ++ (false ∷ [])) q q.sender v ≡ some (false, q)
  unfolding push_loop
  push_loop-full [] v e = ground (arith, e)
  push_loop-full (spurious ∷ flags) v e = ground (arith, e)

  pub push_room :
      (flags : List Bool) (v : A)
      → length xs < cap
      → (q' : ArrayQueueMpsc A) × (push_with_ptr (flags ++ (false ∷ [])) q v ≡ some (true, q'))
        × Rep cap lap laps q' (xs ++ (v ∷ []))
  unfolding push_with_ptr
  push_room flags v lt =
      let (kept, e, from, to, fits) = head_for-room lt in
      let head = posn cap lap laps kept in
      (
        after_push q head v,
        push_loop-room flags v head e,
        after_push-Rep l word r v lt kept from to fits,
      )

  pub push_full :
      (flags : List Bool) (v : A)
      → length xs ≡ cap
      → push_with_ptr (flags ++ (false ∷ [])) q v ≡ some (false, q)
  unfolding push_with_ptr
  push_full flags v e = push_loop-full flags v (head_for-full e)

  -- `try_push_oneshot` on a full queue refuses, and on one with room it pushes, or changes nothing if
  -- its exchange fails spuriously.
  pub oneshot_full :
      (spurious : Bool) (v : A) → length xs ≡ cap → try_push_oneshot spurious q v ≡ (some false, q)
  unfolding try_push_oneshot
  oneshot_full spurious v e = ground (arith, head_for-full e)

  pub oneshot_room :
      (spurious : Bool) (v : A)
      → length xs < cap
      → (q' : ArrayQueueMpsc A) × (try_push_oneshot spurious q v
          ≡ (if spurious then (none, q) else (some true, q')))
        × Rep cap lap laps q' (xs ++ (v ∷ []))
  unfolding try_push_oneshot try_push
  oneshot_room spurious v lt =
      let (kept, e, from, to, fits) = head_for-room lt in
      let head = posn cap lap laps kept in
      (after_push q head v, ground (arith, e), after_push-Rep l word r v lt kept from to fits)
