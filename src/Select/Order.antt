-- ===== src/Select/Order.antt =====
-- src/select/select.rs: which channel is selected.
use mathlib.Core.Path.{subst}
use native.Mathlib.Decide.{ℕ_discrete}
use native.Mathlib.Nat.{mod-lt}
use crossfire_rs.Prelude.{
  ℕ, ◌+◌, ◌<◌, ◌≡◌, ◌⊎◌, inl, inr, refl, sym, ap, ◌∙◌, Bool, true, Option, none, some,
  if◌then◌else◌, leb, length, arith,
}
use crossfire_rs.ArrayQueue.Rep.{nth}
use crossfire_rs.Select.{
  SelectMode, rr, rand, bias, RecvHandle, Select, SelectResult, xorshift, begin_by,
  try_select_begin, try_select_all, TrySelect, selected, disconnected, answer, try_select,
}
use crossfire_rs.Select.Chosen.{wrapped, ahead, IsReady, Chosen, try_select_loop-Chosen}

begin_by-in_range :
    {Q : Type 0}
    → (m : SelectMode) (s : Select Q) → 0 < length s.handlers
    → (begin_by m s).0 < length s.handlers
begin_by-in_range rr s h = ground arith
begin_by-in_range bias s h = h
begin_by-in_range rand s h = mod-lt (xorshift s.rng) h

-- A select of at least one channel begins at one of them.
pub try_select_begin-in_range :
    {Q : Type 0}
    → (s : Select Q) → 0 < length s.handlers
    → (try_select_begin s).0 < length s.handlers
unfolding try_select_begin
try_select_begin-in_range s h = begin_by-in_range s.mode s h

module _ {Q T : Type 0} (flavor_try_select : Bool → Q → Option T × Q) where
  -- The search of a select from any index on, where the channel `j` is ready, selects a channel
  -- that comes no later than `j` in the round, and answers its address, with the place of the
  -- item that the channel's flavor claimed as it was asked, or with the null token only if the
  -- flavor had no item, the look is a final one and the channel has no sender; it leaves the
  -- channel `j` alone if it is another, and in round-robin mode the next index is the one behind
  -- the channel selected.
  pub select_first :
      (idx j : ℕ) (h : RecvHandle Q) (final : Bool) (s : Select Q)
      → j < length s.handlers
      → nth s.handlers j ≡ some h
      → IsReady flavor_try_select final h
      → Chosen flavor_try_select final s
          (length s.handlers)
          idx
          j
          h
          s.mode
          (try_select_all flavor_try_select final idx s)
  select_first idx j h final s lt at ready =
      try_select_loop-Chosen flavor_try_select (length s.handlers) idx j h final (length s.handlers)
        s ready (ground arith) lt refl at

  -- The round-robin search begins at the next index, or at 0.
  begins_rr :
      (m : SelectMode) (s : Select Q)
      → m ≡ rr
      → begin_by m s ≡ (wrapped (length s.handlers) s.next_index, s)
  begins_rr m s e = ap (λ x. begin_by x s) e

  -- A select in round-robin mode comes to the channel `j`, or nearer to it.
  abbrev pub RoundTurn : ℕ → ℕ → ℕ → TrySelect flavor_try_select × Select Q → Type 0
  RoundTurn len next j r =
      (x : SelectResult T) × (r.0 ≡ selected x)
      × (length r.1.handlers ≡ len)
      × (r.1.mode ≡ rr)
      × ((r.1.next_index ≡ j + 1) ⊎ (ahead len r.1.next_index j < ahead len next j))

  Chosen-RoundTurn :
      (s₀ : Select Q) (len next idx j : ℕ) (h : RecvHandle Q)
      (r : Option (SelectResult T) × Select Q)
      → idx ≡ wrapped len next
      → j < len
      → Chosen flavor_try_select true s₀ len idx j h rr r
      → RoundTurn len next j (answer flavor_try_select r)
  Chosen-RoundTurn s₀ len next idx j h (none, s) e lt c = absurd (let w = c.selects in cc)
  Chosen-RoundTurn s₀ len next idx j h (some x, s) e lt c = (
    x,
    refl,
    c.same_length,
    c.same_mode,
    elim (ℕ_discrete c.index j) [
      | yes own ↦ inl (c.next refl ∙ ap (λ k. k + 1) own)
      | no ne ↦
          let a = c.next refl in let b = c.not_behind in let d = c.index_lt in inr (ground arith)
    ],
  )

  -- `try_select` in round-robin mode, where the channel `j` is ready, selects some channel, and
  -- after that the next search begins right behind `j`, or looks at fewer channels before `j`
  -- than this one did.
  pub rr_turn :
      (j : ℕ) (h : RecvHandle Q) (s : Select Q)
      → s.mode ≡ rr
      → j < length s.handlers
      → nth s.handlers j ≡ some h
      → IsReady flavor_try_select true h
      → RoundTurn (length s.handlers) s.next_index j (try_select flavor_try_select s)
  unfolding try_select try_select_begin
  rr_turn j h s m lt at ready =
      let len = length s.handlers in
      let some_channel : leb 1 len ≡ true = ground arith in
      subst
        (λ c. RoundTurn len s.next_index j (
          if c
          then (let (idx, s') = begin_by s.mode s in
              answer flavor_try_select (try_select_all flavor_try_select true idx s'))
          else (disconnected, s)))
        (sym some_channel)
        (subst
          (λ p. RoundTurn len s.next_index j (
            let (idx, s') = p in
            answer flavor_try_select (try_select_all flavor_try_select true idx s')))
          (sym (begins_rr s.mode s m))
          (Chosen-RoundTurn s len s.next_index (wrapped len s.next_index) j h _ refl lt (
            subst
              (λ k.
                Chosen flavor_try_select true s len (wrapped len s.next_index) j h k
                  (try_select_all flavor_try_select true (wrapped len s.next_index) s))
              m (select_first (wrapped len s.next_index) j h true s lt at ready))))
