-- ===== src/Flavor.antt =====
-- src/flavor/mod.rs: what a channel asks of its bounded queue, as a record of operations and laws.
--
-- A call takes a flag for what the environment decides, a stale load or a spurious failure. `values`
-- tells what the queue holds, the oldest first. `try_send` and `try_recv` may fail for no reason, and
-- `try_recv` not if the flag is false; `try_send_oneshot` and `try_recv_final` say that the queue is
-- full, or empty, only if it is.
pub mod Array
use crossfire_rs.Prelude.{
  ℕ, zero, suc, ◌+◌, ◌≤◌, ◌<◌, ◌≡◌, ap, ◌∙◌, refl, sym, Bool, true, false, Option, none, some, List,
  [], ◌∷◌, ◌++◌, if◌then◌else◌, length, arith,
}

module _ {A : Type 0} where
  abbrev pub is_some : Option A → Bool
  is_some none = false
  is_some (some _) = true

  -- The values of a queue before `try_recv` took one, if it did.
  abbrev pub prepend : Option A → List A → List A
  prepend none xs = xs
  prepend (some x) xs = x ∷ xs

  -- The values of a queue after `try_send` put one in, if it did.
  abbrev pub append_if : Bool → A → List A → List A
  append_if true v xs = xs ++ (v ∷ [])
  append_if false v xs = xs

abbrev pub done : Option Bool → Bool
done none = false
done (some b) = b

pub record Flavor (A : Type 0) : Type 1 where
  pub Queue : Type 0
  pub values : Queue → List A
  pub capacity : ℕ
  pub try_send : Bool → A → Queue → Bool × Queue
  pub try_send_oneshot : Bool → A → Queue → Option Bool × Queue
  pub try_recv : Bool → Queue → Option A × Queue
  pub try_recv_final : Bool → Queue → Option A × Queue
  pub capacity_pos : 0 < capacity
  pub values_le : (q : Queue) → length (values q) ≤ capacity
  pub try_send_values :
      (flag : Bool) (v : A) (q : Queue)
      → values (try_send flag v q).1 ≡ append_if (try_send flag v q).0 v (values q)
  pub oneshot_values :
      (flag : Bool) (v : A) (q : Queue)
      → values (try_send_oneshot flag v q).1
        ≡ append_if (done (try_send_oneshot flag v q).0) v (values q)
  pub oneshot_full :
      (flag : Bool) (v : A) (q : Queue)
      → (try_send_oneshot flag v q).0 ≡ some false
      → length (values q) ≡ capacity
  pub try_recv_values :
      (flag : Bool) (q : Queue)
      → prepend (try_recv flag q).0 (values (try_recv flag q).1) ≡ values q
  pub try_recv_empty : (q : Queue) → is_some (try_recv false q).0 ≡ false → length (values q) ≡ 0
  pub final_values :
      (flag : Bool) (q : Queue)
      → prepend (try_recv_final flag q).0 (values (try_recv_final flag q).1) ≡ values q
  pub final_empty :
      (flag : Bool) (q : Queue) → is_some (try_recv_final flag q).0 ≡ false → length (values q) ≡ 0

abbrev pub size : {A : Type 0} (F : Flavor A) → F.Queue → ℕ
size F q = length (F.values q)

length-append_if :
    {A : Type 0} (b : Bool) (v : A) (xs : List A)
    → length (append_if b v xs) ≡ (if b then length xs + 1 else length xs)
length-append_if false v xs = refl
length-append_if true v [] = refl
length-append_if true v (x ∷ xs) = omega (arith, length-append_if true v xs)

length-prepend :
    {A : Type 0} (o : Option A) (xs : List A)
    → length (prepend o xs) ≡ (if is_some o then length xs + 1 else length xs)
length-prepend none xs = refl
length-prepend (some x) xs = omega arith

module _ {A : Type 0} (F : Flavor A) where
  pub size-try_send :
      (flag : Bool) (v : A) (q : F.Queue)
      → size F (F.try_send flag v q).1
        ≡ (if (F.try_send flag v q).0 then size F q + 1 else size F q)
  size-try_send flag v q =
      ap length (F.try_send_values flag v q)
      ∙ length-append_if (F.try_send flag v q).0 v (F.values q)

  pub size-oneshot :
      (flag : Bool) (v : A) (q : F.Queue)
      → size F (F.try_send_oneshot flag v q).1
        ≡ (if done (F.try_send_oneshot flag v q).0 then size F q + 1 else size F q)
  size-oneshot flag v q =
      ap length (F.oneshot_values flag v q)
      ∙ length-append_if (done (F.try_send_oneshot flag v q).0) v (F.values q)

  pub size-try_recv :
      (flag : Bool) (q : F.Queue)
      → (if is_some (F.try_recv flag q).0
          then size F (F.try_recv flag q).1 + 1
          else size F (F.try_recv flag q).1)
        ≡ size F q
  size-try_recv flag q =
      sym (length-prepend (F.try_recv flag q).0 (F.values (F.try_recv flag q).1))
      ∙ ap length (F.try_recv_values flag q)

  pub size-final :
      (flag : Bool) (q : F.Queue)
      → (if is_some (F.try_recv_final flag q).0
          then size F (F.try_recv_final flag q).1 + 1
          else size F (F.try_recv_final flag q).1)
        ≡ size F q
  size-final flag q =
      sym (length-prepend (F.try_recv_final flag q).0 (F.values (F.try_recv_final flag q).1))
      ∙ ap length (F.final_values flag q)
