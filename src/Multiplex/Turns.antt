-- ===== src/Multiplex/Turns.antt =====
-- src/select/multiplex.rs: the order in which the channels get their turn.
use mathlib.Core.Path.{subst}
use native.Mathlib.Decide.{ℕ_discrete}
use crossfire_rs.Prelude.{
  ℕ, zero, suc, ◌+◌, ◌-◌, ◌≤◌, ◌<◌, ◌≡◌, ◌≢◌, ◌⊎◌, inl, inr, refl, sym, ap, ◌∙◌, Bool, true, false,
  Option, none, some, List, [], ◌∷◌, if◌then◌else◌, ltb, length, set, length-set, arith,
}
use crossfire_rs.ArrayQueue.Rep.{nth}
use crossfire_rs.Flavor.{is_some}
use crossfire_rs.Multiplex.{
  MultiplexHandle, Multiplex, Tries, next_idx, try_of, put_handle, look_result, look_at,
  try_select_all,
}

-- How many channels the search that starts behind `idx` looks at, up to and with `j`.
abbrev pub dist : ℕ → ℕ → ℕ → ℕ
dist len idx j = if ltb idx j then j - idx else j + len - idx

pub nth-set_ne :
    {B : Type 0} → (xs : List B) (i j : ℕ) (v : B) → i ≢ j → nth (set xs i v) j ≡ nth xs j
nth-set_ne [] i j v ne = refl
nth-set_ne (x ∷ xs) zero zero v ne = absurd (ne refl)
nth-set_ne (x ∷ xs) zero (suc j) v ne = refl
nth-set_ne (x ∷ xs) (suc i) zero v ne = refl
nth-set_ne (x ∷ xs) (suc i) (suc j) v ne = nth-set_ne xs i j v (λ e. ne (ap suc e))

pub nth-some : {B : Type 0} → (xs : List B) (i : ℕ) → i < length xs → (x : B) × (nth xs i ≡ some x)
nth-some [] i h = absurd (omega arith)
nth-some (x ∷ xs) zero h = (x, refl)
nth-some (x ∷ xs) (suc i) h = nth-some xs i (omega arith)

module _ {Q A : Type 0} (tries : Tries Q A) where
  -- Every try of the queue receives.
  abbrev pub IsReady : Q → Type 0
  IsReady q =
      (is_some (tries.try_recv q).0 ≡ true)
      × (is_some (tries.try_recv_final q).0 ≡ true)
      × (is_some (tries.try_recv_cached q).0 ≡ true)

  -- The weights are at most `W`.
  abbrev pub Weights : ℕ → List (MultiplexHandle Q) → Type 0
  Weights W [] = Unit
  Weights W (h ∷ hs) = (h.weight ≤ W) × Weights W hs

  Weights-set :
      (W : ℕ) (hs : List (MultiplexHandle Q)) (i : ℕ) (h : MultiplexHandle Q)
      → h.weight ≤ W
      → Weights W hs
      → Weights W (set hs i h)
  Weights-set W [] i h le ws = tt
  Weights-set W (x ∷ hs) zero h le (w, ws) = (le, ws)
  Weights-set W (x ∷ hs) (suc i) h le (w, ws) = (w, Weights-set W hs i h le ws)

  Weights-nth :
      (W : ℕ) (hs : List (MultiplexHandle Q)) (i : ℕ) (h : MultiplexHandle Q)
      → nth hs i ≡ some h
      → Weights W hs
      → h.weight ≤ W
  Weights-nth W [] i h e ws = absurd (cc)
  Weights-nth W (x ∷ hs) zero h e (w, ws) = ground (arith, w)
  Weights-nth W (x ∷ hs) (suc i) h e (w, ws) = Weights-nth W hs i h e ws

  -- A handle is put back with the same weight.
  pub Weights-put :
      (W : ℕ) (hs : List (MultiplexHandle Q)) (i : ℕ) (g h : MultiplexHandle Q)
      → nth hs i ≡ some g
      → h.weight ≡ g.weight
      → Weights W hs
      → Weights W (set hs i h)
  Weights-put W hs i g h at same ws =
      let le = Weights-nth W hs i g at ws in Weights-set W hs i h (omega arith) ws

  -- A search that starts behind `idx`, while the channel `j` is ready, receives from it, or from a
  -- channel before it in the round, and leaves the channel `j` as it is.
  pub record Turn (W len idx j : ℕ) (h : MultiplexHandle Q) (r : Option A × Multiplex Q)
      : Type 0 where
    pub receives : is_some r.0 ≡ true
    pub same_length : length r.1.handlers ≡ len
    pub weights : Weights W r.1.handlers
    pub count_le : r.1.count ≤ W
    pub in_range : r.1.last_idx < len
    pub nearer :
        (r.1.last_idx ≡ j)
        ⊎ ((dist len r.1.last_idx j < dist len idx j)
            × (r.1.last_idx ≢ j)
            × (nth r.1.handlers j ≡ some h))

  -- The channel `j` among `len` channels.
  pub record Among (W len j : ℕ) (h : MultiplexHandle Q) (m : Multiplex Q) : Type 0 where
    pub same_length : length m.handlers ≡ len
    pub weights : Weights W m.handlers
    pub below : j < len
    pub there : nth m.handlers j ≡ some h

  -- Another handle than that of `j` is put back with the same weight.
  pub Among-put :
      (W len j : ℕ) (h : MultiplexHandle Q) (i : ℕ) (g g' : MultiplexHandle Q) (m : Multiplex Q)
      → i ≢ j
      → nth m.handlers i ≡ some g
      → g'.weight ≡ g.weight
      → Among W len j h m
      → Among W len j h (put_handle tries i g' m)
  Among-put W len j h i g g' m ne at same a = record {
    same_length = length-set m.handlers i g' ∙ a.same_length;
    weights = Weights-put W m.handlers i g g' at same a.weights;
    below = a.below;
    there = nth-set_ne m.handlers i j g' ne ∙ a.there;
  }

  abbrev go_on : Bool → ℕ → ℕ → Option A × Multiplex Q → Option A × Multiplex Q
  go_on final n i r =
      let (o, m') = r in elim o [ some x ↦ (some x, m') | none ↦ try_select_all tries final n i m' ]

  -- The channel `i` is looked at, which is another one.
  other-Turn :
      (W len idx j : ℕ) (h : MultiplexHandle Q) (final : Bool) (n i : ℕ) (g : MultiplexHandle Q)
      (r : Option A × Q) (m : Multiplex Q)
      → i < len
      → i ≢ j
      → dist len idx j ≡ dist len i j + 1
      → nth m.handlers i ≡ some g
      → Among W len j h m
      → ((m' : Multiplex Q)
          → Among W len j h m'
          → Turn W len i j h (try_select_all tries final n i m'))
      → Turn W len idx j h (go_on final n i (look_result tries i g r m))
  other-Turn W len idx j h final n i g (some x, q) m lt ne d e a rest = record {
    receives = refl;
    same_length = length-set m.handlers i _ ∙ a.same_length;
    weights = Weights-put W m.handlers i g _ e refl a.weights;
    count_le = Weights-nth W m.handlers i g e a.weights;
    in_range = lt;
    nearer = inr (omega arith, ne, nth-set_ne m.handlers i j _ ne ∙ a.there);
  }
  other-Turn W len idx j h final n i g (none, q) m lt ne d e a rest =
      let t =
        rest (put_handle tries i (record g { queue = q }) m)
          (Among-put W len j h i g (record g { queue = q }) m ne e refl a) in
      record {
        receives = t.receives;
        same_length = t.same_length;
        weights = t.weights;
        count_le = t.count_le;
        in_range = t.in_range;
        nearer = elim t.nearer [
          | inl same ↦ inl same
          | inr (closer, ne', there) ↦ inr (omega arith, ne', there)
        ];
      }

  own-Turn :
      (W len idx j : ℕ) (h : MultiplexHandle Q) (final : Bool) (n : ℕ) (r : Option A × Q)
      (m : Multiplex Q)
      → is_some r.0 ≡ true
      → Among W len j h m
      → Turn W len idx j h (go_on final n j (look_result tries j h r m))
  own-Turn W len idx j h final n (none, q) m y a = absurd (cc)
  own-Turn W len idx j h final n (some x, q) m y a = record {
    receives = refl;
    same_length = length-set m.handlers j _ ∙ a.same_length;
    weights = Weights-put W m.handlers j h _ a.there refl a.weights;
    count_le = Weights-nth W m.handlers j h a.there a.weights;
    in_range = a.below;
    nearer = inl refl;
  }

  try_of-ready : (final : Bool) (q : Q) → IsReady q → is_some (try_of tries final q).0 ≡ true
  try_of-ready true q (_, y, _) = y
  try_of-ready false q (y, _, _) = y

  -- A search of at least as many channels as stand between comes to the channel `j`, or to one before.
  pub try_select_all-Turn :
      (W len idx j : ℕ) (h : MultiplexHandle Q) (final : Bool) (n : ℕ) (m : Multiplex Q)
      → IsReady h.queue
      → idx < len
      → dist len idx j ≤ n
      → Among W len j h m
      → Turn W len idx j h (try_select_all tries final n idx m)
  unfolding try_select_all
  try_select_all-Turn W len idx j h final zero m ready lt le a =
      let b = a.below in absurd (ground arith)
  try_select_all-Turn W len idx j h final (suc n) m ready lt le a =
      let b = a.below in
      let l = a.same_length in
      let i = next_idx (length m.handlers) idx in
      let i_lt : i < len = ground arith in
      elim (ℕ_discrete i j) [
        | yes e ↦
            let at : nth m.handlers i ≡ some h = ap (nth m.handlers) e ∙ a.there in
            subst (λ o. Turn W len idx j h (go_on final n i (look_at tries final i o m))) (sym at)
              (subst
                (λ k.
                  Turn W len idx j h
                    (go_on final n k (look_result tries k h (try_of tries final h.queue) m)))
                (sym e)
                (own-Turn W len idx j h final n (try_of tries final h.queue) m
                  (try_of-ready final h.queue ready) a))
        | no ne ↦
            let (g, at) = nth-some m.handlers i (omega arith) in
            let d : dist len idx j ≡ dist len i j + 1 = ground arith in
            subst (λ o. Turn W len idx j h (go_on final n i (look_at tries final i o m))) (sym at)
              (other-Turn W len idx j h final n i g (try_of tries final g.queue) m i_lt ne d at a
                (λ m' a'. try_select_all-Turn W len i j h final n m' ready i_lt (omega arith) a'))
      ]
