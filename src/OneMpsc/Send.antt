-- ===== src/OneMpsc/Send.antt =====
-- src/flavor/one_mpsc.rs: every step of a sender keeps the invariant.
use mathlib.Core.Path.{subst}
use crossfire_rs.Prelude.{
  ℕ, ◌/◌, ◌%◌, ◌^◌, ◌≡◌, ◌⊎◌, inl, inr, refl, sym, ap, ◌∙◌, Bool, true, false, List, [], ◌∷◌, ◌++◌,
  length, ◌==◌, length-append, arith, add16, Bool-cases,
}
use crossfire_rs.One.{One, retry, refused, claimed, pack, is_odd}
use crossfire_rs.One.Inv.{GotRight-grows}
use crossfire_rs.OneMpsc.{push_round}
use crossfire_rs.OneMpsc.System.{Sending, System, writers_at, after_push, after_write}
use crossfire_rs.OneMpsc.Inv.{LaneInv, Inv, push_here, push_there, write_here}

module _ {A : Type 0} where
  push_round-cases :
      (sp : Bool) (loaded : ℕ) (q : One A)
      → (push_round sp loaded q ≡ (retry q.pos, q))
        ⊎ (push_round sp loaded q ≡ (refused, q))
        ⊎ ((q.pos / 2 ^ 16 % 2 ^ 16 ≡ q.pos % 2 ^ 16)
            × (push_round sp loaded q ≡ (
              claimed (is_odd (q.pos % 2 ^ 16)) (q.pos % 2 ^ 16),
              record q { pos = pack (q.pos / 2 ^ 16 % 2 ^ 16) (add16 (q.pos % 2 ^ 16) 1) },
            )))
  unfolding push_round
  push_round-cases true loaded q = elim (Bool-cases (loaded / 2 ^ 16 % 2 ^ 16 == loaded % 2 ^ 16)) [
    | inl y ↦ inl (ground arith)
    | inr n ↦ inr (inl (ground arith))
  ]
  push_round-cases false loaded q =
      elim (Bool-cases (loaded / 2 ^ 16 % 2 ^ 16 == loaded % 2 ^ 16)) [
        | inl y ↦ elim (Bool-cases (q.pos == loaded)) [
          | inl e ↦ inr (inr (ground arith, ground arith))
          | inr d ↦ inl (ground arith)
        ]
        | inr n ↦ inr (inl (ground arith))
      ]

  claim_push :
      (b : Bool) (s : System A) (v : A)
      → is_odd (length s.pushed % 2 ^ 16) ≡ b
      → length s.pushed ≡ s.popped
      → Inv s
      → Inv (
          after_push
            (
              claimed b (length s.pushed % 2 ^ 16),
              record s.queue {
                pos = pack (s.popped % 2 ^ 16) (add16 (length s.pushed % 2 ^ 16) 1);
              },
            )
            v
            s)
  claim_push false s v par eq i = record {
    popped_le = omega (arith, length-append s.pushed (v ∷ []));
    pushed_le = omega (arith, length-append s.pushed (v ∷ []));
    word = omega (arith, length-append s.pushed (v ∷ []));
    lane_0 =
        push_here 0 s.pushed s.reads s.queue.slot_0 s.writers_0 v i.lane_0 (ground arith)
          (ground (arith, i.at));
    lane_1 = push_there 1 s.pushed s.reads s.queue.slot_1 s.writers_1 v i.lane_1 (ground arith);
    at = ground (arith, i.at, length-append s.pushed (v ∷ []));
    got_right = GotRight-grows s.pushed v s.got i.got_right;
  }
  claim_push true s v par eq i = record {
    popped_le = omega (arith, length-append s.pushed (v ∷ []));
    pushed_le = omega (arith, length-append s.pushed (v ∷ []));
    word = omega (arith, length-append s.pushed (v ∷ []));
    lane_0 = push_there 0 s.pushed s.reads s.queue.slot_0 s.writers_0 v i.lane_0 (ground arith);
    lane_1 =
        push_here 1 s.pushed s.reads s.queue.slot_1 s.writers_1 v i.lane_1 (ground arith)
          (ground (arith, i.at));
    at = ground (arith, i.at, length-append s.pushed (v ∷ []));
    got_right = GotRight-grows s.pushed v s.got i.got_right;
  }

  pub push-Inv :
      (sp : Bool) (loaded : ℕ) (v : A) (s : System A)
      → Inv s
      → Inv (after_push (push_round sp loaded s.queue) v s)
  push-Inv sp loaded v s i = elim (push_round-cases sp loaded s.queue) [
    | inl e ↦ subst (λ x. Inv (after_push x v s)) (sym e) i
    | inr (inl e) ↦ subst (λ x. Inv (after_push x v s)) (sym e) i
    | inr (inr (eq, e)) ↦
        let head : s.queue.pos / 2 ^ 16 % 2 ^ 16 ≡ s.popped % 2 ^ 16 = omega arith in
        let tail : s.queue.pos % 2 ^ 16 ≡ length s.pushed % 2 ^ 16 = omega arith in
        subst (λ x. Inv (after_push x v s))
          (sym (
            e
            ∙ ap
                (λ m. (
                  claimed (is_odd m) m,
                  record s.queue { pos = pack (s.queue.pos / 2 ^ 16 % 2 ^ 16) (add16 m 1) },
                ))
                tail
            ∙ ap
                (λ m. (
                  claimed (is_odd (length s.pushed % 2 ^ 16)) (length s.pushed % 2 ^ 16),
                  record s.queue { pos = pack m (add16 (length s.pushed % 2 ^ 16) 1) },
                ))
                head))
          (claim_push _ s v refl (omega arith) i)
  ]

  pub write-Inv :
      (b : Bool) (before behind : List (Sending A)) (w : Sending A) (s : System A)
      → writers_at b s ≡ before ++ (w ∷ behind)
      → Inv s
      → Inv (after_write b w (before ++ behind) s)
  write-Inv false before behind w s e i = record {
    popped_le = i.popped_le;
    pushed_le = i.pushed_le;
    word = i.word;
    lane_0 =
        write_here 0 s.pushed s.reads s.queue.slot_0 before behind w
          (subst (LaneInv 0 s.pushed s.reads s.queue.slot_0) e i.lane_0) (omega arith);
    lane_1 = i.lane_1;
    at = i.at;
    got_right = i.got_right;
  }
  write-Inv true before behind w s e i = record {
    popped_le = i.popped_le;
    pushed_le = i.pushed_le;
    word = i.word;
    lane_0 = i.lane_0;
    lane_1 =
        write_here 1 s.pushed s.reads s.queue.slot_1 before behind w
          (subst (LaneInv 1 s.pushed s.reads s.queue.slot_1) e i.lane_1) (omega arith);
    at = i.at;
    got_right = i.got_right;
  }
