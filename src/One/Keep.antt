-- ===== src/One/Keep.antt =====
-- src/flavor/one.rs: what every step on the two slots keeps.
use crossfire_rs.Prelude.{
  ℕ, ◌+◌, ◌*◌, ◌%◌, ◌^◌, ◌≤◌, ◌<◌, ◌≡◌, refl, sym, ap, ◌∙◌, none, some, List, [], ◌∷◌, ◌++◌, length,
  length-append, arith, add16,
}
use mathlib.Core.Path.{subst}
use crossfire_rs.ArrayQueue.Rep.{nth, nth-append, nth-append_last}
use crossfire_rs.One.{Slot}
use crossfire_rs.One.System.{Sending, Receiving, Lane}
use crossfire_rs.One.Inv.{
  LaneInv, WritersFrom, ReadersFrom, WritersFrom-grows, WritersFrom-append, ReadersFrom-append,
  writer_at, reader_at,
}

pub nil_of_length : {B : Type 0} → (xs : List B) → length xs ≡ 0 → xs ≡ []
nil_of_length [] e = refl
nil_of_length (x ∷ xs) e = absurd (omega arith)

module _ {A : Type 0} where
  -- Whose stamp is in the slot is the first of its list, and nobody of the other list has it.
  pub first_writer :
      (p : ℕ) (pushed : List A) (popped : ℕ) (k : Slot A) (l : Lane A)
      → (i : LaneInv p pushed popped k l) → (before after : List (Sending A)) (w : Sending A)
      → l.writers ≡ before ++ (w ∷ after)
      → k.stamp ≡ w.tail
      → (before ≡ []) × (i.wrote ≡ i.took)
  first_writer p pushed popped k l i before after w e turn =
      let tails =
        writer_at pushed (p + 2 * i.wrote) before after w
          (subst (WritersFrom pushed (p + 2 * i.wrote)) e i.writers_from) in
      let few = i.few in
      let lens = ap length e ∙ length-append before (w ∷ after) in
      let st = sym i.stamped ∙ turn ∙ tails in
      let le = i.took_le in
      let le' = i.wrote_le in (nil_of_length before (omega arith), omega arith)

  pub first_reader :
      (p : ℕ) (pushed : List A) (popped : ℕ) (k : Slot A) (l : Lane A)
      → (i : LaneInv p pushed popped k l) → (before after : List Receiving) (r : Receiving)
      → l.readers ≡ before ++ (r ∷ after)
      → k.stamp ≡ r.new_head
      → (before ≡ []) × (i.wrote ≡ i.took + 1)
  first_reader p pushed popped k l i before after r e turn =
      let heads =
        reader_at (p + 2 * i.took) before after r
          (subst (ReadersFrom (p + 2 * i.took)) e i.readers_from) in
      let few = i.few in
      let lens = ap length e ∙ length-append before (r ∷ after) in
      let st = sym i.stamped ∙ turn ∙ heads in
      let le = i.took_le in
      let le' = i.wrote_le in (nil_of_length before (omega arith), omega arith)

  -- A push with the next number, to its own slot and to the other one.
  pub push_here :
      (p : ℕ) (pushed : List A) (popped : ℕ) (k : Slot A) (l : Lane A) (v : A)
      → LaneInv p pushed popped k l
      → length pushed % 2 ≡ p
      → length l.writers + length l.readers < 2 ^ 15
      → LaneInv p (pushed ++ (v ∷ [])) popped k (record l {
        writers =
            l.writers
            ++ (record { item = v; tail = length pushed % 2 ^ 16; number = length pushed } ∷ []);
      })
  push_here p pushed popped k l v i par few =
      let at : length pushed ≡ p + 2 * i.wrote + 2 * length l.writers = omega arith in
      record {
        wrote = i.wrote;
        took = i.took;
        took_le = i.took_le;
        wrote_le = i.wrote_le;
        stamped = i.stamped;
        writers_from =
            WritersFrom-append (pushed ++ (v ∷ [])) (p + 2 * i.wrote) l.writers _
              (WritersFrom-grows pushed v _ _ i.writers_from)
              (
                at,
                ap (λ m. m % 2 ^ 16) at,
                ap (nth (pushed ++ (v ∷ []))) (sym at) ∙ nth-append_last pushed v,
                tt,
              );
        readers_from = i.readers_from;
        writes_claimed = omega (arith, length-append pushed (v ∷ []), length-append l.writers);
        reads_claimed = i.reads_claimed;
        holds = λ e. i.holds e ∙ sym (nth-append pushed v _ (omega arith));
        few = omega (arith, length-append l.writers);
      }

  pub push_there :
      (p : ℕ) (pushed : List A) (popped : ℕ) (k : Slot A) (l : Lane A) (v : A)
      → LaneInv p pushed popped k l
      → (length pushed + 1) % 2 ≡ p
      → LaneInv p (pushed ++ (v ∷ [])) popped k l
  push_there p pushed popped k l v i par = record {
    wrote = i.wrote;
    took = i.took;
    took_le = i.took_le;
    wrote_le = i.wrote_le;
    stamped = i.stamped;
    writers_from = WritersFrom-grows pushed v _ _ i.writers_from;
    readers_from = i.readers_from;
    writes_claimed = omega (arith, length-append pushed (v ∷ []));
    reads_claimed = i.reads_claimed;
    holds = λ e. i.holds e ∙ sym (nth-append pushed v _ (omega arith));
    few = i.few;
  }

  -- The pop with the next number, likewise.
  pub pop_here :
      (p : ℕ) (pushed : List A) (popped : ℕ) (k : Slot A) (l : Lane A)
      → LaneInv p pushed popped k l
      → popped % 2 ≡ p
      → length l.writers + length l.readers < 2 ^ 15
      → LaneInv p pushed (popped + 1) k (record l {
        readers = l.readers ++ (record { new_head = (popped + 1) % 2 ^ 16; number = popped } ∷ []);
      })
  pop_here p pushed popped k l i par few =
      let at : popped ≡ p + 2 * i.took + 2 * length l.readers = omega arith in
      record {
        wrote = i.wrote;
        took = i.took;
        took_le = i.took_le;
        wrote_le = i.wrote_le;
        stamped = i.stamped;
        writers_from = i.writers_from;
        readers_from =
            ReadersFrom-append (p + 2 * i.took) l.readers _ i.readers_from
              (at, ap (λ m. (m + 1) % 2 ^ 16) at, tt);
        writes_claimed = i.writes_claimed;
        reads_claimed = omega (arith, length-append l.readers);
        holds = i.holds;
        few = omega (arith, length-append l.readers);
      }

  pub pop_there :
      (p : ℕ) (pushed : List A) (popped : ℕ) (k : Slot A) (l : Lane A)
      → LaneInv p pushed popped k l
      → (popped + 1) % 2 ≡ p
      → LaneInv p pushed (popped + 1) k l
  pop_there p pushed popped k l i par = record {
    wrote = i.wrote;
    took = i.took;
    took_le = i.took_le;
    wrote_le = i.wrote_le;
    stamped = i.stamped;
    writers_from = i.writers_from;
    readers_from = i.readers_from;
    writes_claimed = i.writes_claimed;
    reads_claimed = omega arith;
    holds = i.holds;
    few = i.few;
  }

  -- The write of the thread whose turn it is.
  pub write_here :
      (p : ℕ) (pushed : List A) (popped : ℕ) (k : Slot A) (l : Lane A)
      → LaneInv p pushed popped k l
      → (before after : List (Sending A)) (w : Sending A) → l.writers ≡ before ++ (w ∷ after)
      → k.stamp ≡ w.tail
      → LaneInv p pushed popped
          (record { value = some w.item; stamp = add16 w.tail 1 })
          (record l { writers = before ++ after })
  write_here p pushed popped k l i before after w e turn =
      let (nil, same) = first_writer p pushed popped k l i before after w e turn in
      let e' : l.writers ≡ w ∷ after = e ∙ ap (λ xs. xs ++ (w ∷ after)) nil in
      let (n, t, item, rest) = subst (WritersFrom pushed (p + 2 * i.wrote)) e' i.writers_from in
      let cut : before ++ after ≡ after = ap (λ xs. xs ++ after) nil in
      let len = ap length e' in
      let len' = ap length cut in
      record {
        wrote = i.wrote + 1;
        took = i.took;
        took_le = omega arith;
        wrote_le = omega arith;
        stamped = omega arith;
        writers_from =
            subst (λ xs. WritersFrom pushed (p + 2 * (i.wrote + 1)) xs) (sym cut)
              (subst (λ m. WritersFrom pushed m after) (omega arith) rest);
        readers_from = i.readers_from;
        writes_claimed = omega arith;
        reads_claimed = i.reads_claimed;
        holds = λ _. sym item ∙ ap (nth pushed) (omega arith);
        few = omega arith;
      }

  pub read_here :
      (p : ℕ) (pushed : List A) (popped : ℕ) (k : Slot A) (l : Lane A)
      → LaneInv p pushed popped k l
      → (before after : List Receiving) (r : Receiving) → l.readers ≡ before ++ (r ∷ after)
      → k.stamp ≡ r.new_head
      → popped ≤ length pushed
      → LaneInv p pushed popped
          (record { value = none; stamp = add16 r.new_head 1 })
          (record l { readers = before ++ after })
        × (r.number < length pushed)
        × (k.value ≡ nth pushed r.number)
  read_here p pushed popped k l i before after r e turn le =
      let (nil, other) = first_reader p pushed popped k l i before after r e turn in
      let e' : l.readers ≡ r ∷ after = e ∙ ap (λ xs. xs ++ (r ∷ after)) nil in
      let (n, t, rest) = subst (ReadersFrom (p + 2 * i.took)) e' i.readers_from in
      let cut : before ++ after ≡ after = ap (λ xs. xs ++ after) nil in
      let len = ap length e' in
      let len' = ap length cut in
      let kept : LaneInv p pushed popped (record { value = none; stamp = add16 r.new_head 1 })
          (record l { readers = before ++ after }) =
        record {
          wrote = i.wrote;
          took = i.took + 1;
          took_le = omega arith;
          wrote_le = omega arith;
          stamped = omega arith;
          writers_from = i.writers_from;
          readers_from =
              subst (λ xs. ReadersFrom (p + 2 * (i.took + 1)) xs) (sym cut)
                (subst (λ m. ReadersFrom m after) (omega arith) rest);
          writes_claimed = i.writes_claimed;
          reads_claimed = omega arith;
          holds = λ more. absurd (omega arith);
          few = omega arith;
        } in
      (kept, omega arith, i.holds other ∙ ap (nth pushed) (sym n))
