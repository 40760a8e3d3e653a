-- ===== src/ArrayQueueMpsc/Pop.antt =====
-- src/crossbeam/array_queue_mpsc.rs: pops of a queue that holds the list `xs`.
use native.Mathlib.Decide.{ℕ_discrete}
use crossfire_rs.Prelude.{
  ℕ, suc, ◌+◌, ◌*◌, ◌%◌, ◌^◌, ◌≤◌, ◌<◌, ◌≡◌, ◌≢◌, sym, ap, ◌∙◌, true, none, some, List, [], ◌∷◌,
  length, get_or, set, add64, length-set, get_or-set_ne, arith,
}
use crossfire_rs.ArrayQueue.{Slot, no_slot}
use crossfire_rs.ArrayQueueSpsc.{pack, high, low}
use crossfire_rs.ArrayQueueSpsc.Keep.{small}
use crossfire_rs.Laps.{AreLaps, posn, posn_inj, index_inj}
use crossfire_rs.ArrayQueueMpsc.{
  ArrayQueueMpsc, slot_at, index_of, advance, start_read, read_at, pop,
}
use crossfire_rs.ArrayQueueMpsc.Rep.{Rep, tail_is, head_is, cached_tail_is, advance_is, index_is}

-- The queue after a read at `head` that keeps `tail`.
abbrev pub after_read : {A : Type 0} → ArrayQueueMpsc A → ℕ → ℕ → ArrayQueueMpsc A
after_read q head tail = record q {
  recv = pack tail (advance q head);
  buffer = set q.buffer (index_of q head) (record { stamp = (slot_at q head).stamp; value = none });
}

module _ {cap lap laps : ℕ} (l : AreLaps cap lap laps) (word : lap * laps ≡ 2 ^ 32) {A : Type 0}
    {q : ArrayQueueMpsc A} {x : A} {xs : List A} (r : Rep cap lap laps q (x ∷ xs)) where
  open r use {freed, kept_head, kept_tail}

  head_slot : slot_at q (low q.recv) ≡ get_or q.buffer ((freed + 0) % cap) no_slot
  head_slot =
      ap (λ i. get_or q.buffer i no_slot)
        (ap (index_of q) (head_is l word r)
          ∙ index_is l word r freed
          ∙ ap (λ n. n % cap) (omega arith))

  head_stamp : (slot_at q (low q.recv)).stamp ≡ add64 (low q.recv) 1
  head_stamp =
      let first : freed + 0 ≡ freed = omega arith in
      ap (λ (k : Slot A). k.stamp) head_slot
      ∙ r.stamped 0 (omega arith)
      ∙ ap (λ n. posn cap lap laps n + 1) first
      ∙ omega (arith, head_is l word r, small l word freed)

  head_value : (slot_at q (low q.recv)).value ≡ some x
  head_value = ap (λ (k : Slot A). k.value) head_slot ∙ r.written 0 (omega arith)

  other_slot :
      (j : ℕ) (k : Slot A)
      → j < length xs
      → get_or (set q.buffer (index_of q (low q.recv)) k) ((freed + 1 + j) % cap) no_slot
        ≡ get_or q.buffer ((freed + suc j) % cap) no_slot
  other_slot j k lt =
      get_or-set_ne q.buffer (index_of q (low q.recv)) ((freed + 1 + j) % cap) k no_slot (λ same.
        omega (
          arith,
          index_inj l freed (freed + 1 + j) (omega arith) (omega (arith, r.fits, r.head_kept))
              (sym (ap (index_of q) (head_is l word r) ∙ index_is l word r freed) ∙ same),
        ))
      ∙ ap (λ n. get_or q.buffer (n % cap) no_slot) (omega arith)

  after_read-Rep :
      (kept : ℕ)
      → freed + 1 ≤ kept
      → kept ≤ freed + 1 + length xs
      → Rep cap lap laps (after_read q (low q.recv) (posn cap lap laps kept)) xs
  after_read-Rep kept from to = record {
    freed = freed + 1;
    kept_head = kept_head;
    kept_tail = kept;
    sized = length-set q.buffer (index_of q (low q.recv)) _ ∙ r.sized;
    lap_is = r.lap_is;
    head_kept = omega (arith, r.head_kept);
    tail_kept = from;
    tail_sent = to;
    fits = omega (arith, r.fits);
    sender_word =
        r.sender_word
        ∙ ap (λ n. pack (posn cap lap laps kept_head) (posn cap lap laps n)) (omega arith);
    recv_word =
        ap (λ p. pack (posn cap lap laps kept) p)
          (ap (advance q) (head_is l word r) ∙ advance_is l word r freed);
    stamped = λ j lt.
        ap (λ (k : Slot A). k.stamp) (other_slot j _ lt)
        ∙ r.stamped (suc j) (omega arith)
        ∙ ap (λ n. posn cap lap laps n + 1) (omega arith);
    written =
        λ j lt. ap (λ (k : Slot A). k.value) (other_slot j _ lt) ∙ r.written (suc j) (omega arith);
  }

  tail_only : high q.recv ≡ low q.recv → kept_tail ≡ freed
  tail_only e = sym (
      posn_inj l freed kept_tail r.tail_kept (omega (arith, r.tail_sent, r.fits, r.head_kept))
        (sym (head_is l word r) ∙ sym e ∙ cached_tail_is l word r))

  not_empty : low q.recv ≢ low q.sender
  not_empty e = omega (
    arith,
    posn_inj l freed (freed + length (x ∷ xs)) (omega arith) (omega (arith, r.fits, r.head_kept))
        (sym (head_is l word r) ∙ e ∙ tail_is l word r),
  )

  seen :
      (kept : ℕ) × (start_read true q ≡ some (low q.recv, posn cap lap laps kept))
      × (freed + 1 ≤ kept)
      × (kept ≤ freed + 1 + length xs)
  unfolding start_read
  seen = elim (ℕ_discrete kept_tail freed) [
    | yes e ↦ (
      freed + length (x ∷ xs),
      ground (
        arith,
        not_empty,
        tail_is l word r,
        cached_tail_is l word r ∙ ap (posn cap lap laps) e ∙ sym (head_is l word r),
      ),
      omega arith,
      omega arith,
    )
    | no ne ↦ (
      kept_tail,
      ground (arith, tail_only, cached_tail_is l word r),
      omega (arith, r.tail_kept),
      omega (arith, r.tail_sent),
    )
  ]

  pub pop-some : (q' : ArrayQueueMpsc A) × (pop true q ≡ some (some x, q')) × Rep cap lap laps q' xs
  unfolding pop read_at
  pop-some =
      let (kept, e, from, to) = seen in
      (
        after_read q (low q.recv) (posn cap lap laps kept),
        ground (arith, e, head_stamp, head_value),
        after_read-Rep kept from to,
      )

module _ {cap lap laps : ℕ} (l : AreLaps cap lap laps) (word : lap * laps ≡ 2 ^ 32) {A : Type 0}
    {q : ArrayQueueMpsc A} (r : Rep cap lap laps q []) where
  pub pop-none : pop true q ≡ some (none, q)
  unfolding pop start_read
  pop-none =
      let same : r.freed + 0 ≡ r.kept_tail = omega (arith, r.tail_kept, r.tail_sent) in
      ground (
        arith,
        tail_is l word r ∙ ap (posn cap lap laps) (omega arith) ∙ sym (head_is l word r),
        cached_tail_is l word r
            ∙ ap (posn cap lap laps) (omega (arith, same))
            ∙ sym (head_is l word r),
      )
