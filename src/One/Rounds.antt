-- ===== src/One/Rounds.antt =====
-- src/flavor/one.rs: the claims of the packed word keep the invariant.
use mathlib.Core.Path.{subst}
use crossfire_rs.Prelude.{
  ℕ, ◌+◌, ◌/◌, ◌%◌, ◌^◌, ◌<◌, ◌≡◌, ◌≢◌, ◌⊎◌, inl, inr, refl, sym, ap, ◌∙◌, Bool, true, false, [],
  ◌∷◌, length, ◌==◌, length-append, arith, add16, Bool-cases,
}
use crossfire_rs.One.{One, retry, refused, claimed, pack, is_odd, push_round, read_round}
use crossfire_rs.One.System.{System, at_work, after_push, after_pop}
use crossfire_rs.One.Inv.{Inv, GotRight-grows}
use crossfire_rs.One.Keep.{push_here, push_there, pop_here, pop_there}

module _ {A : Type 0} where
  -- The three ends of a round.
  push_round-cases :
      (sp : Bool) (loaded : ℕ) (q : One A)
      → (push_round sp loaded q ≡ (retry q.pos, q))
        ⊎ (push_round sp loaded q ≡ (refused, q))
        ⊎ ((q.pos / 2 ^ 16 % 2 ^ 16 ≡ q.pos % 2 ^ 16)
            × (push_round sp loaded q ≡ (
              claimed (is_odd (q.pos % 2 ^ 16)) (q.pos % 2 ^ 16),
              record q { pos = pack (q.pos / 2 ^ 16 % 2 ^ 16) (add16 (q.pos % 2 ^ 16) 1) },
            )))
  unfolding push_round
  push_round-cases true loaded q = elim (Bool-cases (loaded / 2 ^ 16 % 2 ^ 16 == loaded % 2 ^ 16)) [
    | inl y ↦ inl (ground arith)
    | inr n ↦ inr (inl (ground arith))
  ]
  push_round-cases false loaded q =
      elim (Bool-cases (loaded / 2 ^ 16 % 2 ^ 16 == loaded % 2 ^ 16)) [
        | inl y ↦ elim (Bool-cases (q.pos == loaded)) [
          | inl e ↦ inr (inr (ground arith, ground arith))
          | inr d ↦ inl (ground arith)
        ]
        | inr n ↦ inr (inl (ground arith))
      ]

  claim_push :
      (b : Bool) (s : System A) (v : A)
      → is_odd (length s.pushed % 2 ^ 16) ≡ b
      → at_work s < 2 ^ 15
      → length s.pushed ≡ s.popped
      → Inv s
      → Inv (
          after_push
            (
              claimed b (length s.pushed % 2 ^ 16),
              record s.queue {
                pos = pack (s.popped % 2 ^ 16) (add16 (length s.pushed % 2 ^ 16) 1);
              },
            )
            v
            s)
  unfolding after_push
  claim_push false s v par few eq i = record {
    popped_le = omega (arith, length-append s.pushed (v ∷ []));
    pushed_le = omega (arith, length-append s.pushed (v ∷ []));
    word = omega (arith, length-append s.pushed (v ∷ []));
    lane_0 =
        push_here 0 s.pushed s.popped s.queue.slot_0 s.lane_0 v i.lane_0 (ground arith)
          (omega arith);
    lane_1 = push_there 1 s.pushed s.popped s.queue.slot_1 s.lane_1 v i.lane_1 (ground arith);
    got_right = GotRight-grows s.pushed v s.got i.got_right;
  }
  claim_push true s v par few eq i = record {
    popped_le = omega (arith, length-append s.pushed (v ∷ []));
    pushed_le = omega (arith, length-append s.pushed (v ∷ []));
    word = omega (arith, length-append s.pushed (v ∷ []));
    lane_0 = push_there 0 s.pushed s.popped s.queue.slot_0 s.lane_0 v i.lane_0 (ground arith);
    lane_1 =
        push_here 1 s.pushed s.popped s.queue.slot_1 s.lane_1 v i.lane_1 (ground arith)
          (omega arith);
    got_right = GotRight-grows s.pushed v s.got i.got_right;
  }

  claim_pop :
      (b : Bool) (s : System A)
      → is_odd (s.popped % 2 ^ 16) ≡ b
      → at_work s < 2 ^ 15
      → length s.pushed ≡ s.popped + 1
      → Inv s
      → Inv (
          after_pop
            (
              claimed b ((s.popped + 1) % 2 ^ 16),
              record s.queue { pos = pack ((s.popped + 1) % 2 ^ 16) ((s.popped + 1) % 2 ^ 16) },
            )
            s)
  unfolding after_pop
  claim_pop false s par few eq i = record {
    popped_le = omega arith;
    pushed_le = omega arith;
    word = omega arith;
    lane_0 =
        pop_here 0 s.pushed s.popped s.queue.slot_0 s.lane_0 i.lane_0 (ground arith) (omega arith);
    lane_1 = pop_there 1 s.pushed s.popped s.queue.slot_1 s.lane_1 i.lane_1 (ground arith);
    got_right = i.got_right;
  }
  claim_pop true s par few eq i = record {
    popped_le = omega arith;
    pushed_le = omega arith;
    word = omega arith;
    lane_0 = pop_there 0 s.pushed s.popped s.queue.slot_0 s.lane_0 i.lane_0 (ground arith);
    lane_1 =
        pop_here 1 s.pushed s.popped s.queue.slot_1 s.lane_1 i.lane_1 (ground arith) (omega arith);
    got_right = i.got_right;
  }

  read_round-cases :
      (sp : Bool) (loaded : ℕ) (q : One A)
      → (read_round sp loaded q ≡ (retry q.pos, q))
        ⊎ (read_round sp loaded q ≡ (refused, q))
        ⊎ ((q.pos / 2 ^ 16 % 2 ^ 16 ≢ q.pos % 2 ^ 16)
            × (read_round sp loaded q ≡ (
              claimed (is_odd (q.pos / 2 ^ 16 % 2 ^ 16)) (q.pos % 2 ^ 16),
              record q { pos = pack (q.pos % 2 ^ 16) (q.pos % 2 ^ 16) },
            )))
  unfolding read_round
  read_round-cases true loaded q = elim (Bool-cases (loaded / 2 ^ 16 % 2 ^ 16 == loaded % 2 ^ 16)) [
    | inl y ↦ inr (inl (ground arith))
    | inr n ↦ inl (ground arith)
  ]
  read_round-cases false loaded q =
      elim (Bool-cases (loaded / 2 ^ 16 % 2 ^ 16 == loaded % 2 ^ 16)) [
        | inl y ↦ inr (inl (ground arith))
        | inr n ↦ elim (Bool-cases (q.pos == loaded)) [
          | inl e ↦ inr (inr (ground arith, ground arith))
          | inr d ↦ inl (ground arith)
        ]
      ]

  pub push-Inv :
      (sp : Bool) (loaded : ℕ) (v : A) (s : System A)
      → at_work s < 2 ^ 15
      → Inv s
      → Inv (after_push (push_round sp loaded s.queue) v s)
  unfolding after_push
  push-Inv sp loaded v s few i = elim (push_round-cases sp loaded s.queue) [
    | inl e ↦ subst (λ x. Inv (after_push x v s)) (sym e) i
    | inr (inl e) ↦ subst (λ x. Inv (after_push x v s)) (sym e) i
    | inr (inr (eq, e)) ↦
        let head : s.queue.pos / 2 ^ 16 % 2 ^ 16 ≡ s.popped % 2 ^ 16 = omega arith in
        let tail : s.queue.pos % 2 ^ 16 ≡ length s.pushed % 2 ^ 16 = omega arith in
        subst (λ x. Inv (after_push x v s))
          (sym (
            e
            ∙ ap
                (λ m. (
                  claimed (is_odd m) m,
                  record s.queue { pos = pack (s.queue.pos / 2 ^ 16 % 2 ^ 16) (add16 m 1) },
                ))
                tail
            ∙ ap
                (λ m. (
                  claimed (is_odd (length s.pushed % 2 ^ 16)) (length s.pushed % 2 ^ 16),
                  record s.queue { pos = pack m (add16 (length s.pushed % 2 ^ 16) 1) },
                ))
                head))
          (claim_push _ s v refl few (omega arith) i)
  ]

  pub pop-Inv :
      (sp : Bool) (loaded : ℕ) (s : System A)
      → at_work s < 2 ^ 15
      → Inv s
      → Inv (after_pop (read_round sp loaded s.queue) s)
  unfolding after_pop
  pop-Inv sp loaded s few i = elim (read_round-cases sp loaded s.queue) [
    | inl e ↦ subst (λ x. Inv (after_pop x s)) (sym e) i
    | inr (inl e) ↦ subst (λ x. Inv (after_pop x s)) (sym e) i
    | inr (inr (ne, e)) ↦
        let more : length s.pushed ≡ s.popped + 1 = grind arith in
        let head : s.queue.pos / 2 ^ 16 % 2 ^ 16 ≡ s.popped % 2 ^ 16 = omega arith in
        let tail : s.queue.pos % 2 ^ 16 ≡ (s.popped + 1) % 2 ^ 16 = omega arith in
        subst (λ x. Inv (after_pop x s))
          (sym (
            e
            ∙ ap
                (λ m. (
                  claimed (is_odd (s.queue.pos / 2 ^ 16 % 2 ^ 16)) m,
                  record s.queue { pos = pack m m },
                ))
                tail
            ∙ ap
                (λ m. (
                  claimed (is_odd m) ((s.popped + 1) % 2 ^ 16),
                  record s.queue { pos = pack ((s.popped + 1) % 2 ^ 16) ((s.popped + 1) % 2 ^ 16) },
                ))
                head))
          (claim_pop _ s refl few more i)
  ]
