-- ===== src/OneMpsc/Inv.antt =====
-- src/flavor/one_mpsc.rs: what the stamps say of the writers and of the receiver.
use mathlib.Core.Path.{subst}
use crossfire_rs.Prelude.{
  ℕ, ◌+◌, ◌-◌, ◌*◌, ◌/◌, ◌%◌, ◌^◌, ◌≤◌, ◌<◌, ◌≡◌, refl, sym, ap, ◌∙◌, some, List, [], ◌∷◌, ◌++◌,
  length, ◌==◌, if◌then◌else◌, length-append, arith, add16,
}
use crossfire_rs.ArrayQueue.Rep.{nth, nth-append, nth-append_last}
use crossfire_rs.One.{Slot, pack, is_odd}
use crossfire_rs.One.Inv.{GotRight, nth_grows}
use crossfire_rs.OneMpsc.System.{Sending, Receiver, idle, freeing, reading, System, start}

-- What the receiver knows, by the numbers of pushes, of pops that freed the word, and of reads.
abbrev pub At : Receiver → ℕ → ℕ → ℕ → Type 0
At idle pushed popped reads = reads ≡ popped
At (freeing b h) pushed popped reads =
    (reads ≡ popped) × (pushed ≡ popped + 1) × (b ≡ is_odd popped) × (h ≡ (popped + 1) % 2 ^ 16)
At (reading b h) pushed popped reads =
    (popped ≡ reads + 1) × (b ≡ is_odd reads) × (h ≡ (reads + 1) % 2 ^ 16)

nil_of_length : {B : Type 0} → (xs : List B) → length xs ≡ 0 → xs ≡ []
nil_of_length [] e = refl
nil_of_length (x ∷ xs) e = absurd (omega arith)

module _ {A : Type 0} where
  -- At most one sender has claimed the slot `p` and not written, the one with its next number.
  abbrev pub Pending : ℕ → List A → ℕ → List (Sending A) → Type 0
  Pending p pushed wrote [] = Unit
  Pending p pushed wrote (w ∷ ws) =
      (ws ≡ []) × (w.tail ≡ (p + 2 * wrote) % 2 ^ 16) × (nth pushed (p + 2 * wrote) ≡ some w.item)

  -- The slot `p` after `wrote` writes, where `reads` reads of both slots are done.
  pub record LaneInv (p : ℕ) (pushed : List A) (reads : ℕ) (k : Slot A) (ws : List (Sending A))
      : Type 0 where
    pub wrote : ℕ
    pub stamped : k.stamp ≡ (if wrote == 0 then p else (p + 2 * wrote - 1) % 2 ^ 16)
    pub pending : Pending p pushed wrote ws
    pub claims : wrote + length ws ≡ (length pushed + 1 - p) / 2
    pub written : (reads + 1 - p) / 2 ≤ wrote
    pub holds : 0 < wrote → k.value ≡ nth pushed (p + 2 * (wrote - 1))

  pub record Inv (s : System A) : Type 0 where
    pub popped_le : s.popped ≤ length s.pushed
    pub pushed_le : length s.pushed ≤ s.popped + 1
    pub word : s.queue.pos ≡ pack (s.popped % 2 ^ 16) (length s.pushed % 2 ^ 16)
    pub lane_0 : LaneInv 0 s.pushed s.reads s.queue.slot_0 s.writers_0
    pub lane_1 : LaneInv 1 s.pushed s.reads s.queue.slot_1 s.writers_1
    pub at : At s.receiver (length s.pushed) s.popped s.reads
    pub got_right : GotRight s.pushed s.got

  pub Inv-start : Inv (start {A = A})
  Inv-start = record {
    popped_le = omega arith;
    pushed_le = omega arith;
    word = omega arith;
    lane_0 = record {
      wrote = 0;
      stamped = refl;
      pending = tt;
      claims = omega arith;
      written = omega arith;
      holds = λ e. absurd (omega arith);
    };
    lane_1 = record {
      wrote = 0;
      stamped = refl;
      pending = tt;
      claims = omega arith;
      written = omega arith;
      holds = λ e. absurd (omega arith);
    };
    at = refl;
    got_right = tt;
  }

  Pending-grows :
      (p : ℕ) (pushed : List A) (wrote : ℕ) (ws : List (Sending A)) (v : A)
      → Pending p pushed wrote ws
      → Pending p (pushed ++ (v ∷ [])) wrote ws
  Pending-grows p pushed wrote [] v h = tt
  Pending-grows p pushed wrote (w ∷ ws) v (n, t, i) =
      (n, t, nth_grows pushed v (p + 2 * wrote) w.item i)

  -- A push with the next number: the slot has no writer left.
  pub push_here :
      (p : ℕ) (pushed : List A) (reads : ℕ) (k : Slot A) (ws : List (Sending A)) (v : A)
      → LaneInv p pushed reads k ws
      → length pushed % 2 ≡ p
      → length pushed ≤ reads + 1
      → LaneInv p
          (pushed ++ (v ∷ []))
          reads
          k
          (record { item = v; tail = length pushed % 2 ^ 16 } ∷ ws)
  push_here p pushed reads k ws v i par le =
      let c = i.claims in
      let wr = i.written in
      let at : length pushed ≡ p + 2 * i.wrote = omega arith in
      record {
        wrote = i.wrote;
        stamped = i.stamped;
        pending = (
          nil_of_length ws (omega arith),
          ap (λ m. m % 2 ^ 16) at,
          ap (nth (pushed ++ (v ∷ []))) (sym at) ∙ nth-append_last pushed v,
        );
        claims = omega (arith, length-append pushed (v ∷ []));
        written = i.written;
        holds = λ e. i.holds e ∙ sym (nth-append pushed v _ (omega arith));
      }

  pub push_there :
      (p : ℕ) (pushed : List A) (reads : ℕ) (k : Slot A) (ws : List (Sending A)) (v : A)
      → LaneInv p pushed reads k ws
      → (length pushed + 1) % 2 ≡ p
      → LaneInv p (pushed ++ (v ∷ [])) reads k ws
  push_there p pushed reads k ws v i par =
      let c = i.claims in
      record {
        wrote = i.wrote;
        stamped = i.stamped;
        pending = Pending-grows p pushed i.wrote ws v i.pending;
        claims = omega (arith, length-append pushed (v ∷ []));
        written = i.written;
        holds = λ e. i.holds e ∙ sym (nth-append pushed v _ (omega arith));
      }

  -- The write of the only sender of the slot.
  pub write_here :
      (p : ℕ) (pushed : List A) (reads : ℕ) (k : Slot A) (before behind : List (Sending A))
      (w : Sending A)
      → LaneInv p pushed reads k (before ++ (w ∷ behind))
      → p < 2
      → LaneInv p pushed reads
          (record { value = some w.item; stamp = add16 w.tail 1 })
          (before ++ behind)
  write_here p pushed reads k [] behind w i lt =
      let (n, t, item) = i.pending in
      let c = i.claims in
      let wr = i.written in
      let len = ap length n in
      record {
        wrote = i.wrote + 1;
        stamped = ground arith;
        pending = subst (Pending p pushed (i.wrote + 1)) (sym n) tt;
        claims = omega arith;
        written = omega arith;
        holds = λ e. sym item ∙ ap (nth pushed) (omega arith);
      }
  write_here p pushed reads k (x ∷ before) behind w i lt =
      let (n, t, item) = i.pending in
      let len = ap length n in absurd (omega (arith, length-append before (w ∷ behind)))

  -- The read of the value with the number `reads`.
  pub read_here :
      (p : ℕ) (pushed : List A) (reads : ℕ) (k : Slot A) (ws : List (Sending A))
      → LaneInv p pushed reads k ws
      → p < 2
      → reads % 2 ≡ p
      → length pushed ≤ reads + 2
      → k.stamp ≡ (reads + 1) % 2 ^ 16
      → LaneInv p pushed (reads + 1) k ws
        × (k.value ≡ nth pushed reads)
        × (ws ≡ [])
        × (reads < length pushed)
  read_here p pushed reads k ws i lt par le turn =
      let c = i.claims in
      let wr = i.written in
      let st = i.stamped in
      let done : p + 2 * i.wrote ≡ reads + 2 = ground arith in
      (
        record {
          wrote = i.wrote;
          stamped = i.stamped;
          pending = i.pending;
          claims = i.claims;
          written = omega arith;
          holds = i.holds;
        },
        i.holds (omega arith) ∙ ap (nth pushed) (omega arith),
        nil_of_length ws (omega arith),
        omega arith,
      )

  pub read_there :
      (p : ℕ) (pushed : List A) (reads : ℕ) (k : Slot A) (ws : List (Sending A))
      → LaneInv p pushed reads k ws
      → (reads + 1) % 2 ≡ p
      → LaneInv p pushed (reads + 1) k ws
  read_there p pushed reads k ws i par =
      let wr = i.written in
      record {
        wrote = i.wrote;
        stamped = i.stamped;
        pending = i.pending;
        claims = i.claims;
        written = omega arith;
        holds = i.holds;
      }
