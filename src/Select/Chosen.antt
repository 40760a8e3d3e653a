-- ===== src/Select/Chosen.antt =====
-- src/select/select.rs: what the search of a select comes to.
use mathlib.Core.Path.{subst}
use native.Mathlib.Decide.{ℕ_discrete}
use crossfire_rs.Prelude.{
  ℕ, zero, suc, ◌+◌, ◌-◌, ◌≤◌, ◌<◌, ◌≡◌, ◌≢◌, ◌⊎◌, inl, inr, refl, sym, ap, ◌∙◌, Bool, true, false,
  ◌&&◌, ◌==◌, Option, none, some, List, [], ◌∷◌, if◌then◌else◌, leb, length, set, length-set, arith,
}
use crossfire_rs.ArrayQueue.Rep.{nth}
use crossfire_rs.Flavor.{is_some}
use crossfire_rs.Multiplex.Turns.{nth-set_ne, nth-some}
use crossfire_rs.Select.{
  SelectMode, rr, Token, at, null, token_of, ChannelShared, RecvHandle, Select, SelectResult,
  shared_try_select, put_handle, next_by, look_result, look_at, try_select_loop,
}

-- The index that is looked at.
abbrev pub wrapped : ℕ → ℕ → ℕ
wrapped len idx = if leb len idx then 0 else idx

-- How many channels a search from `idx` on looks at before `j`.
abbrev pub ahead : ℕ → ℕ → ℕ → ℕ
ahead len idx j = if leb (wrapped len idx) j then j - wrapped len idx else j + len - wrapped len idx

nth-set_self :
    {B : Type 0} → (xs : List B) (i : ℕ) (v : B) → i < length xs → nth (set xs i v) i ≡ some v
nth-set_self [] i v h = absurd (omega arith)
nth-set_self (x ∷ xs) zero v h = refl
nth-set_self (x ∷ xs) (suc i) v h = nth-set_self xs i v (omega arith)

module _ {Q T : Type 0} (flavor_try_select : Bool → Q → Option T × Q) where
  -- The channel is selected if it is looked at.
  abbrev pub IsReady : Bool → RecvHandle Q → Type 0
  IsReady final h = is_some (shared_try_select flavor_try_select final h.shared).0 ≡ true

  -- The channel `c` that was looked at is `d` now, and the token is the place of the item that its
  -- flavor claimed, or null as it is closed, where the flavor found nothing at the last look.
  abbrev pub Answered : Bool → ChannelShared Q → Token T → ChannelShared Q → Type 0
  Answered final c t d =
      let (o, q) = flavor_try_select final c.inner in
      (d ≡ record c { inner = q })
      × (((x : T) × (o ≡ some x) × (t ≡ at x))
          ⊎ ((o ≡ none) × (t ≡ null) × (final ≡ true) × (c.tx_count ≡ 0)))

  -- The channel `i` is selected, which is not behind `j` in the round from `idx` on, and the channel
  -- `j` is left as it is if it is another.
  pub record Chosen (final : Bool) (s : Select Q) (len idx j : ℕ) (h : RecvHandle Q)
      (mode : SelectMode) (r : Option (SelectResult T) × Select Q) : Type 0 where
    pub index : ℕ
    pub before : RecvHandle Q
    pub handle : RecvHandle Q
    pub token : Token T
    pub selects : r.0 ≡ some (record { channel = handle.channel; token = token })
    pub was : nth s.handlers index ≡ some before
    pub same_channel : handle.channel ≡ before.channel
    pub answered : Answered final before.shared token handle.shared
    pub there : nth r.1.handlers index ≡ some handle
    pub index_lt : index < len
    pub not_behind : ahead len idx index ≤ ahead len idx j
    pub kept : (index ≡ j) ⊎ ((index ≢ j) × (nth r.1.handlers j ≡ some h))
    pub same_length : length r.1.handlers ≡ len
    pub same_mode : r.1.mode ≡ mode
    pub next : mode ≡ rr → r.1.next_index ≡ index + 1

  abbrev AnsweredBy : Bool → ChannelShared Q → Option (Token T) × ChannelShared Q → Type 0
  AnsweredBy final c (none, d) = Unit
  AnsweredBy final c (some t, d) = Answered final c t d

  closed_answer :
      (c : ChannelShared Q) (q : Q)
      → flavor_try_select true c.inner ≡ (none, q)
      → (b : Bool) → (c.tx_count == 0) ≡ b
      → AnsweredBy true c (if b then some null else none, record c { inner = q })
  closed_answer c q e true z =
      (ap (λ r. record c { inner = r.1 }) (sym e), inr (ap (λ r. r.0) e, refl, refl, ground arith))
  closed_answer c q e false z = tt

  -- What `token_of` makes of the flavor's answer `p`.
  shared_answer :
      (final : Bool) (c : ChannelShared Q) (p : Option T × Q)
      → flavor_try_select final c.inner ≡ p
      → AnsweredBy final c
          (token_of flavor_try_select (final && c.tx_count == 0) p.0, record c { inner = p.1 })
  shared_answer final c (some x, q) e =
      (ap (λ r. record c { inner = r.1 }) (sym e), inl (x, ap (λ r. r.0) e, refl))
  shared_answer true c (none, q) e = closed_answer c q e (c.tx_count == 0) refl
  shared_answer false c (none, q) e = tt

  shared_try_select-Answered :
      (final : Bool) (c : ChannelShared Q)
      → AnsweredBy final c (shared_try_select flavor_try_select final c)
  shared_try_select-Answered final c = shared_answer final c (flavor_try_select final c.inner) refl

  abbrev go_on :
      Bool → ℕ → ℕ → Option (SelectResult T) × Select Q → Option (SelectResult T) × Select Q
  go_on final n i r =
      let (o, s') = r in
      elim o [ some x ↦ (some x, s') | none ↦ try_select_loop flavor_try_select final n (i + 1) s' ]

  next_by_rr :
      (mode : SelectMode) (i next : ℕ) → mode ≡ rr → next_by flavor_try_select mode i next ≡ i + 1
  next_by_rr mode i next e = ap (λ m. next_by flavor_try_select m i next) e

  own_look :
      (len idx j : ℕ) (h : RecvHandle Q) (final : Bool) (n : ℕ)
      (r : Option (Token T) × ChannelShared Q) (s : Select Q)
      → AnsweredBy final h.shared r
      → is_some r.0 ≡ true
      → length s.handlers ≡ len
      → j < len
      → nth s.handlers j ≡ some h
      → Chosen final s len idx j h s.mode (go_on final n j (look_result flavor_try_select j h r s))
  own_look len idx j h final n (none, c) s a y l lt has = absurd (cc)
  own_look len idx j h final n (some t, c) s a y l lt has = record {
    index = j;
    before = h;
    was = has;
    same_channel = refl;
    answered = a;
    handle = record h { shared = c };
    token = t;
    selects = refl;
    there = nth-set_self s.handlers j _ (omega arith);
    index_lt = lt;
    not_behind = omega arith;
    kept = inl refl;
    same_length = length-set s.handlers j _ ∙ l;
    same_mode = refl;
    next = next_by_rr s.mode j s.next_index;
  }

  other_look :
      (len idx j : ℕ) (h : RecvHandle Q) (final : Bool) (n i : ℕ) (g : RecvHandle Q)
      (r : Option (Token T) × ChannelShared Q) (s : Select Q)
      → AnsweredBy final g.shared r
      → nth s.handlers i ≡ some g
      → i < len
      → i ≢ j
      → ahead len idx i ≡ 0
      → ((k : ℕ)
          → k < len
          → ahead len (i + 1) k ≤ ahead len (i + 1) j
          → (ahead len idx k ≤ ahead len idx j) × (k ≢ i))
      → length s.handlers ≡ len
      → nth s.handlers j ≡ some h
      → ((s' : Select Q)
          → length s'.handlers ≡ len
          → nth s'.handlers j ≡ some h
          → Chosen final s' len
              (i + 1)
              j
              h
              s'.mode
              (try_select_loop flavor_try_select final n (i + 1) s'))
      → Chosen final s len idx j h s.mode (go_on final n i (look_result flavor_try_select i g r s))
  other_look len idx j h final n i g (some t, c) s a own lt ne first order l has rest = record {
    index = i;
    before = g;
    was = own;
    same_channel = refl;
    answered = a;
    handle = record g { shared = c };
    token = t;
    selects = refl;
    there = nth-set_self s.handlers i _ (omega arith);
    index_lt = lt;
    not_behind = omega arith;
    kept = inr (ne, nth-set_ne s.handlers i j _ ne ∙ has);
    same_length = length-set s.handlers i _ ∙ l;
    same_mode = refl;
    next = next_by_rr s.mode i s.next_index;
  }
  other_look len idx j h final n i g (none, c) s a own lt ne first order l has rest =
      let r =
        rest (put_handle flavor_try_select i (record g { shared = c }) s)
          (length-set s.handlers i _ ∙ l) (nth-set_ne s.handlers i j _ ne ∙ has) in
      record {
        index = r.index;
        before = r.before;
        was =
            sym (
              nth-set_ne s.handlers i r.index _
                (λ e. (order r.index r.index_lt r.not_behind).1 (sym e)))
            ∙ r.was;
        same_channel = r.same_channel;
        answered = r.answered;
        handle = r.handle;
        token = r.token;
        selects = r.selects;
        there = r.there;
        index_lt = r.index_lt;
        not_behind = (order r.index r.index_lt r.not_behind).0;
        kept = r.kept;
        same_length = r.same_length;
        same_mode = r.same_mode;
        next = r.next;
      }

  pub try_select_loop-Chosen :
      (len idx j : ℕ) (h : RecvHandle Q) (final : Bool) (n : ℕ) (s : Select Q)
      → IsReady final h
      → ahead len idx j < n
      → j < len
      → length s.handlers ≡ len
      → nth s.handlers j ≡ some h
      → Chosen final s len idx j h s.mode (try_select_loop flavor_try_select final n idx s)
  unfolding try_select_loop
  try_select_loop-Chosen len idx j h final zero s ready le lt l has = absurd (omega arith)
  try_select_loop-Chosen len idx j h final (suc n) s ready le lt l has =
      let i = wrapped (length s.handlers) idx in
      let i_lt : i < len = ground arith in
      elim (ℕ_discrete i j) [
        | yes e ↦
            let there : nth s.handlers i ≡ some h = ap (nth s.handlers) e ∙ has in
            subst
              (λ o.
                Chosen final s len idx j h s.mode
                  (go_on final n i (look_at flavor_try_select final i o s)))
              (sym there)
              (subst
                (λ k. Chosen final s len idx j h s.mode (
                  go_on final n k (
                    look_result flavor_try_select k h
                      (shared_try_select flavor_try_select final h.shared) s)))
                (sym e)
                (own_look len idx j h final n (shared_try_select flavor_try_select final h.shared) s
                  (shared_try_select-Answered final h.shared) ready l lt has))
        | no ne ↦
            let (g, there) = nth-some s.handlers i (omega arith) in
            subst
              (λ o.
                Chosen final s len idx j h s.mode
                  (go_on final n i (look_at flavor_try_select final i o s)))
              (sym there)
              (other_look len idx j h final n i g
                (shared_try_select flavor_try_select final g.shared) s
                (shared_try_select-Answered final g.shared) there i_lt ne (ground arith)
                (λ k k_lt behind. (ground arith, λ e. ground arith)) l has
                (λ s' l' has'.
                  try_select_loop-Chosen len (i + 1) j h final n s' ready (ground arith) lt l'
                    has'))
      ]
