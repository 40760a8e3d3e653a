-- ===== src/OneMpsc/Receive.antt =====
-- src/flavor/one_mpsc.rs: every step of the receiver keeps the invariant.
use mathlib.Core.Path.{subst}
use crossfire_rs.Prelude.{
  ℕ, ◌+◌, ◌/◌, ◌%◌, ◌^◌, ◌≡◌, ◌≢◌, ◌⊎◌, inl, inr, sym, Bool, true, false, none, some, length, ◌==◌,
  arith, Bool-cases,
}
use crossfire_rs.One.{One, Slot, is_odd, slot_at}
use crossfire_rs.OneMpsc.{start_read, free, read}
use crossfire_rs.OneMpsc.System.{
  Receiver, idle, freeing, reading, System, after_start, after_read, receiver_by,
}
use crossfire_rs.OneMpsc.Inv.{At, Inv, read_here, read_there}

module _ {A : Type 0} where
  start_read-cases :
      (q : One A)
      → (start_read q ≡ none)
        ⊎ ((q.pos / 2 ^ 16 % 2 ^ 16 ≢ q.pos % 2 ^ 16)
            × (start_read q ≡ some (is_odd (q.pos / 2 ^ 16 % 2 ^ 16), q.pos % 2 ^ 16)))
  unfolding start_read
  start_read-cases q = elim (Bool-cases (q.pos / 2 ^ 16 % 2 ^ 16 == q.pos % 2 ^ 16)) [
    | inl y ↦ inl (ground arith)
    | inr n ↦ inr (ground arith, ground arith)
  ]

  pub read-cases :
      (h : ℕ) (k : Slot A) → (read h k ≡ none) ⊎ ((k.stamp ≡ h) × (read h k ≡ some k.value))
  unfolding read
  read-cases h k = elim (Bool-cases (k.stamp == h)) [
    | inl y ↦ inr (ground arith, ground arith)
    | inr n ↦ inl (ground arith)
  ]

  started-Inv :
      (s : System A)
      → s.receiver ≡ idle
      → Inv s
      → s.queue.pos / 2 ^ 16 % 2 ^ 16 ≢ s.queue.pos % 2 ^ 16
      → Inv (record s {
        receiver = freeing (is_odd (s.queue.pos / 2 ^ 16 % 2 ^ 16)) (s.queue.pos % 2 ^ 16);
      })
  started-Inv s e i ne =
      let word = i.word in
      let le = i.popped_le in
      let le' = i.pushed_le in
      let more : length s.pushed ≡ s.popped + 1 = grind arith in
      record {
        popped_le = i.popped_le;
        pushed_le = i.pushed_le;
        word = i.word;
        lane_0 = i.lane_0;
        lane_1 = i.lane_1;
        at = (ground (arith, e, i.at), more, ground arith, omega arith);
        got_right = i.got_right;
      }

  freed-Inv :
      (b : Bool) (h : ℕ) (s : System A)
      → s.receiver ≡ freeing b h
      → Inv s
      → Inv (record s { queue = free h s.queue; receiver = reading b h; popped = s.popped + 1 })
  freed-Inv b h s e i =
      let (same, more, par, head) = subst (λ r. At r (length s.pushed) s.popped s.reads) e i.at in
      record {
        popped_le = omega arith;
        pushed_le = omega arith;
        word = omega arith;
        lane_0 = i.lane_0;
        lane_1 = i.lane_1;
        at = (omega arith, ground arith, omega arith);
        got_right = i.got_right;
      }

  done-Inv :
      (b : Bool) (h : ℕ) (s : System A)
      → s.receiver ≡ reading b h
      → Inv s
      → (slot_at b s.queue).stamp ≡ h
      → Inv (after_read (some (slot_at b s.queue).value) s)
  done-Inv false h s e i turn =
      let (one, par, head) = subst (λ r. At r (length s.pushed) s.popped s.reads) e i.at in
      let le' = i.pushed_le in
      let (kept, v, _, lt) =
        read_here 0 s.pushed s.reads s.queue.slot_0 s.writers_0 i.lane_0 (omega arith)
          (ground arith) (omega arith) (omega arith) in
      record {
        popped_le = i.popped_le;
        pushed_le = i.pushed_le;
        word = i.word;
        lane_0 = kept;
        lane_1 = read_there 1 s.pushed s.reads s.queue.slot_1 s.writers_1 i.lane_1 (ground arith);
        at = omega arith;
        got_right = (lt, v, i.got_right);
      }
  done-Inv true h s e i turn =
      let (one, par, head) = subst (λ r. At r (length s.pushed) s.popped s.reads) e i.at in
      let le' = i.pushed_le in
      let (kept, v, _, lt) =
        read_here 1 s.pushed s.reads s.queue.slot_1 s.writers_1 i.lane_1 (omega arith)
          (ground arith) (omega arith) (omega arith) in
      record {
        popped_le = i.popped_le;
        pushed_le = i.pushed_le;
        word = i.word;
        lane_0 = read_there 0 s.pushed s.reads s.queue.slot_0 s.writers_0 i.lane_0 (ground arith);
        lane_1 = kept;
        at = omega arith;
        got_right = (lt, v, i.got_right);
      }

  pub receive-Inv : (r : Receiver) (s : System A) → s.receiver ≡ r → Inv s → Inv (receiver_by r s)
  receive-Inv idle s e i = elim (start_read-cases s.queue) [
    | inl nothing ↦ subst (λ o. Inv (after_start o s)) (sym nothing) i
    | inr (ne, found) ↦ subst (λ o. Inv (after_start o s)) (sym found) (started-Inv s e i ne)
  ]
  receive-Inv (freeing b h) s e i = freed-Inv b h s e i
  receive-Inv (reading b h) s e i = elim (read-cases h (slot_at b s.queue)) [
    | inl wait ↦ subst (λ o. Inv (after_read o s)) (sym wait) i
    | inr (turn, through) ↦
        subst (λ o. Inv (after_read o s)) (sym through) (done-Inv b h s e i turn)
  ]
