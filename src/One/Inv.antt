-- ===== src/One/Inv.antt =====
-- src/flavor/one.rs: what the stamps of the slots say of the threads that wait for them.
use crossfire_rs.Prelude.{
  ℕ, zero, suc, ◌+◌, ◌-◌, ◌*◌, ◌/◌, ◌%◌, ◌^◌, ◌≤◌, ◌<◌, ◌≡◌, sym, ap, ◌∙◌, Option, some, List, [],
  ◌∷◌, ◌++◌, length, length-append, arith,
}
use crossfire_rs.ArrayQueue.Rep.{nth, nth-append}
use crossfire_rs.One.{Slot, pack}
use crossfire_rs.One.System.{Sending, Receiving, Lane, System, start}

-- The readers of a slot have every other number from `k` on.
abbrev pub ReadersFrom : ℕ → List Receiving → Type 0
ReadersFrom k [] = Unit
ReadersFrom k (r ∷ rs) = (r.number ≡ k) × (r.new_head ≡ (k + 1) % 2 ^ 16) × ReadersFrom (k + 2) rs

module _ {A : Type 0} where
  -- The writers of a slot have every other number from `k` on, with the items pushed at these numbers.
  abbrev pub WritersFrom : List A → ℕ → List (Sending A) → Type 0
  WritersFrom pushed k [] = Unit
  WritersFrom pushed k (w ∷ ws) =
      (w.number ≡ k)
      × (w.tail ≡ k % 2 ^ 16)
      × (nth pushed k ≡ some w.item)
      × WritersFrom pushed (k + 2) ws

  -- What was got by the pops with these numbers.
  abbrev pub GotRight : List A → List (ℕ × Option A) → Type 0
  GotRight pushed [] = Unit
  GotRight pushed ((n, o) ∷ got) = (n < length pushed) × (o ≡ nth pushed n) × GotRight pushed got

  -- The slot `p`, after `wrote` writes and `took` reads of it.
  pub record LaneInv (p : ℕ) (pushed : List A) (popped : ℕ) (k : Slot A) (l : Lane A) : Type 0 where
    pub wrote : ℕ
    pub took : ℕ
    pub took_le : took ≤ wrote
    pub wrote_le : wrote ≤ took + 1
    pub stamped : k.stamp ≡ (p + wrote + took) % 2 ^ 16
    pub writers_from : WritersFrom pushed (p + 2 * wrote) l.writers
    pub readers_from : ReadersFrom (p + 2 * took) l.readers
    pub writes_claimed : wrote + length l.writers ≡ (length pushed + 1 - p) / 2
    pub reads_claimed : took + length l.readers ≡ (popped + 1 - p) / 2
    pub holds : wrote ≡ took + 1 → k.value ≡ nth pushed (p + 2 * took)
    pub few : length l.writers + length l.readers ≤ 2 ^ 15

  pub record Inv (s : System A) : Type 0 where
    pub popped_le : s.popped ≤ length s.pushed
    pub pushed_le : length s.pushed ≤ s.popped + 1
    pub word : s.queue.pos ≡ pack (s.popped % 2 ^ 16) (length s.pushed % 2 ^ 16)
    pub lane_0 : LaneInv 0 s.pushed s.popped s.queue.slot_0 s.lane_0
    pub lane_1 : LaneInv 1 s.pushed s.popped s.queue.slot_1 s.lane_1
    pub got_right : GotRight s.pushed s.got

  pub Inv-start : Inv (start {A = A})
  Inv-start = record {
    popped_le = omega arith;
    pushed_le = omega arith;
    word = omega arith;
    lane_0 = record {
      wrote = 0;
      took = 0;
      took_le = omega arith;
      wrote_le = omega arith;
      stamped = omega arith;
      writers_from = tt;
      readers_from = tt;
      writes_claimed = omega arith;
      reads_claimed = omega arith;
      holds = λ e. absurd (omega arith);
      few = omega arith;
    };
    lane_1 = record {
      wrote = 0;
      took = 0;
      took_le = omega arith;
      wrote_le = omega arith;
      stamped = omega arith;
      writers_from = tt;
      readers_from = tt;
      writes_claimed = omega arith;
      reads_claimed = omega arith;
      holds = λ e. absurd (omega arith);
      few = omega arith;
    };
    got_right = tt;
  }

  -- A list of numbers that goes on, and a list of values that goes on.
  pub nth_grows :
      (xs : List A) (v : A) (j : ℕ) (x : A) → nth xs j ≡ some x → nth (xs ++ (v ∷ [])) j ≡ some x
  nth_grows [] v j x e = absurd (cc)
  nth_grows (y ∷ xs) v zero x e = e
  nth_grows (y ∷ xs) v (suc j) x e = nth_grows xs v j x e

  pub WritersFrom-grows :
      (pushed : List A) (v : A) (k : ℕ) (ws : List (Sending A))
      → WritersFrom pushed k ws
      → WritersFrom (pushed ++ (v ∷ [])) k ws
  WritersFrom-grows pushed v k [] h = tt
  WritersFrom-grows pushed v k (w ∷ ws) (n, t, i, h) =
      (n, t, nth_grows pushed v k w.item i, WritersFrom-grows pushed v (k + 2) ws h)

  pub WritersFrom-append :
      (pushed : List A) (k : ℕ) (ws : List (Sending A)) (w : Sending A)
      → WritersFrom pushed k ws
      → WritersFrom pushed (k + 2 * length ws) (w ∷ [])
      → WritersFrom pushed k (ws ++ (w ∷ []))
  WritersFrom-append pushed k [] w h (n, t, i, _) = ground arith
  WritersFrom-append pushed k (x ∷ ws) w (n, t, i, h) last =
      (n, t, i, WritersFrom-append pushed (k + 2) ws w h (ground arith))

  pub GotRight-grows :
      (pushed : List A) (v : A) (got : List (ℕ × Option A))
      → GotRight pushed got
      → GotRight (pushed ++ (v ∷ [])) got
  GotRight-grows pushed v [] h = tt
  GotRight-grows pushed v ((n, o) ∷ got) (lt, e, h) = (
    omega (arith, length-append pushed (v ∷ [])),
    e ∙ sym (nth-append pushed v n lt),
    GotRight-grows pushed v got h,
  )

  -- The entry behind `before` has the number of its place.
  pub writer_at :
      (pushed : List A) (k : ℕ) (before after : List (Sending A)) (w : Sending A)
      → WritersFrom pushed k (before ++ (w ∷ after))
      → w.tail ≡ (k + 2 * length before) % 2 ^ 16
  writer_at pushed k [] after w (n, t, i, h) = t ∙ ap (λ m. m % 2 ^ 16) (omega arith)
  writer_at pushed k (x ∷ before) after w (n, t, i, h) =
      writer_at pushed (k + 2) before after w h ∙ ap (λ m. m % 2 ^ 16) (omega arith)

pub ReadersFrom-append :
    (k : ℕ) (rs : List Receiving) (r : Receiving)
    → ReadersFrom k rs
    → ReadersFrom (k + 2 * length rs) (r ∷ [])
    → ReadersFrom k (rs ++ (r ∷ []))
ReadersFrom-append k [] r h last = ground arith
ReadersFrom-append k (x ∷ rs) r (n, t, h) last =
    (n, t, ReadersFrom-append (k + 2) rs r h (ground arith))

pub reader_at :
    (k : ℕ) (before after : List Receiving) (r : Receiving)
    → ReadersFrom k (before ++ (r ∷ after))
    → r.new_head ≡ (k + 2 * length before + 1) % 2 ^ 16
reader_at k [] after r (n, t, h) = t ∙ ap (λ m. m % 2 ^ 16) (omega arith)
reader_at k (x ∷ before) after r (n, t, h) =
    reader_at (k + 2) before after r h ∙ ap (λ m. m % 2 ^ 16) (omega arith)
