-- ===== src/ArrayQueueSpsc/Safety.antt =====
-- src/crossbeam/array_queue_spsc.rs: what holds in every state that a sender and a receiver reach.
use crossfire_rs.Prelude.{
  ℕ, zero, suc, ◌+◌, ◌*◌, ◌^◌, ◌≤◌, ◌<◌, ◌≡◌, ◌≢◌, refl, sym, ◌∙◌, false, Option, none, some, List,
  [], ◌∷◌, ◌++◌, map, length, get_or, arith,
}
use crossfire_rs.ArrayQueue.Rep.{nth}
use crossfire_rs.Laps.{AreLaps, index_inj, posn_inj}
use crossfire_rs.ArrayQueueSpsc.{Tx, write, Rx, take, capacity, index_of, slot_at, tx_step, rx_step}
use crossfire_rs.ArrayQueueSpsc.System.{System, Reach}
use crossfire_rs.ArrayQueueSpsc.Sound.{sound}
use crossfire_rs.ArrayQueueSpsc.Inv.{Counts, Holds}
use crossfire_rs.ArrayQueueSpsc.Keep.{head_is, tail_is}
use crossfire_rs.ArrayQueueSpsc.Values.{
  taken_value, at_tail, at_head, room, sent_more, freeing_sent, in_range,
}

nth-some : {A : Type 0} (xs : List A) (j : ℕ) → j < length xs → (x : A) × (nth xs j ≡ some x)
nth-some [] j lt = absurd (omega arith)
nth-some (x ∷ xs) zero lt = (x, refl)
nth-some (x ∷ xs) (suc j) lt = nth-some xs j (omega arith)

prefix :
    {A : Type 0} (taken : List (Option A)) (written : List A)
    → length taken ≤ length written
    → ((j : ℕ) → j < length taken → get_or taken j none ≡ nth written j)
    → (rest : List A) × (map some written ≡ taken ++ map some rest)
prefix [] written le h = (written, refl)
prefix (o ∷ taken) [] le h = absurd (omega arith)
prefix (o ∷ taken) (x ∷ written) le h =
    let (rest, e) = prefix taken written (omega arith) (λ j lt. h (suc j) (omega arith)) in
    (rest, cc (h 0 (omega arith), e))

module _ {cap lap laps : ℕ} (l : AreLaps cap lap laps) (word : lap * laps ≡ 2 ^ 32) {A : Type 0}
    {s : System A} (c : Counts cap lap laps s) (h : Holds cap s) where
  counts_le : length s.taken ≤ length s.written
  counts_le = omega (arith, c.taken_count, c.written_count, freeing_sent l c h)

  is_prefix : (rest : List A) × (map some s.written ≡ s.taken ++ map some rest)
  is_prefix = prefix s.taken s.written counts_le h.ordered

  other_slot :
      (v : A) (tail head_cached head tail_cached : ℕ)
      → s.tx ≡ write v tail head_cached
      → s.rx ≡ take head tail_cached
      → index_of s.queue tail ≢ index_of s.queue head
  other_slot v tail hc head tc et er same = omega (
    arith,
    index_inj l s.freed s.sent (omega (arith, sent_more l c h head tc er))
        (omega (arith, room l c h v tail hc et, c.head_seen))
        (sym (at_head l c h head tc er) ∙ sym same ∙ at_tail l c h v tail hc et),
    sent_more l c h head tc er,
  )

  value_there :
      (head tail_cached : ℕ)
      → s.rx ≡ take head tail_cached
      → (index_of s.queue head < capacity s.queue) × ((x : A) × (slot_at s.queue head ≡ some x))
  value_there head tc er =
      let (x, e) =
        nth-some s.written s.freed (omega (arith, sent_more l c h head tc er, c.written_count)) in
      (
        rw (at_head l c h head tc er) (in_range l c h s.freed),
        (x, taken_value l c h head tc er ∙ e),
      )

  full_exact :
      (v : A) (tail head_cached : ℕ)
      → s.tx ≡ Tx.check v tail head_cached
      → (tx_step s.tx s.queue).0 ≡ Tx.idle (some false)
      → s.sent ≡ s.freed + cap
  unfolding tx_step
  full_exact v tail hc et answer =
      ground (arith, et, answer, head_is l word c, c.tx_facts, posn_inj l s.kept_head s.freed)

  empty_exact :
      (head : ℕ)
      → s.rx ≡ Rx.check head
      → (rx_step s.rx s.queue).0 ≡ Rx.idle (some none)
      → s.sent ≡ s.freed
  unfolding rx_step
  empty_exact head er answer =
      ground (arith, er, answer, tail_is l word c, c.rx_facts, posn_inj l s.freed s.sent)

module _ {A : Type 0} {cap : ℕ} {s : System A} (r : Reach cap s) where
  -- However the sender and the receiver of an array queue of one sender and one receiver
  -- interleave, from a new queue of any capacity on, the values taken from slots are, in order,
  -- the first of the values written, every slot that is read holds a value, and the values
  -- published and not yet freed are never more than the capacity.
  pub fifo :
      (rest : List A) × (map some s.written ≡ s.taken ++ map some rest)
      × (s.freed ≤ s.sent)
      × (s.sent ≤ s.freed + cap)
  fifo =
      let (_, _, l, w, c, h) = sound r in
      let (rest, e) = is_prefix l w c h in
      (
        rest,
        e,
        omega (arith, c.tail_kept, c.tail_seen, c.tail_sent),
        omega (arith, c.fits, c.head_kept, c.head_seen),
      )

  -- While the sender of an array queue of one sender and one receiver is about to write a slot
  -- and the receiver is about to read one, the two slots differ.
  pub no_race :
      (v : A) (tail head_cached head tail_cached : ℕ)
      → s.tx ≡ write v tail head_cached
      → s.rx ≡ take head tail_cached
      → index_of s.queue tail ≢ index_of s.queue head
  no_race v tail hc head tc et er =
      let (_, _, l, w, c, h) = sound r in other_slot l w c h v tail hc head tc et er

  -- When the receiver of an array queue of one sender and one receiver is about to read a slot,
  -- the index, which the code does not check, is below the capacity, and the slot holds a value.
  pub reads_written :
      (head tail_cached : ℕ)
      → s.rx ≡ take head tail_cached
      → (index_of s.queue head < capacity s.queue) × ((x : A) × (slot_at s.queue head ≡ some x))
  reads_written head tc er = let (_, _, l, w, c, h) = sound r in value_there l w c h head tc er

  -- A push to an array queue of one sender and one receiver is refused only if, when it looks at
  -- the receiver's word, as many values are published and not yet freed as the capacity.
  pub push_refused_exact :
      (v : A) (tail head_cached : ℕ)
      → s.tx ≡ Tx.check v tail head_cached
      → (tx_step s.tx s.queue).0 ≡ Tx.idle (some false)
      → s.sent ≡ s.freed + cap
  push_refused_exact = let (_, _, l, w, c, h) = sound r in full_exact l w c h

  -- A pop of an array queue of one sender and one receiver that looks at the sender's word
  -- answers nothing only if, when it looks, every value published is freed.
  pub pop_none_exact :
      (head : ℕ)
      → s.rx ≡ Rx.check head
      → (rx_step s.rx s.queue).0 ≡ Rx.idle (some none)
      → s.sent ≡ s.freed
  pop_none_exact = let (_, _, l, w, c, h) = sound r in empty_exact l w c h
