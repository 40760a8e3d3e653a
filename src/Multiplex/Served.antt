-- ===== src/Multiplex/Served.antt =====
-- src/select/multiplex.rs: what one receive makes of a channel that is ready.
use mathlib.Core.Path.{subst}
use native.Mathlib.Decide.{ℕ_discrete}
use crossfire_rs.Prelude.{
  ℕ, ◌-◌, ◌≤◌, ◌<◌, ◌≡◌, ◌≢◌, ◌⊎◌, inl, inr, refl, sym, ap, ◌∙◌, Bool, true, false, Option, none,
  some, if◌then◌else◌, ltb, length, length-set, Bool-cases, arith,
}
use crossfire_rs.ArrayQueue.Rep.{nth}
use crossfire_rs.Flavor.{is_some}
use crossfire_rs.Multiplex.{
  MultiplexHandle, Multiplex, Tries, put_handle, cached_result, cached_at, try_select_all,
  try_select_cached,
}
use crossfire_rs.Multiplex.Turns.{
  nth-some, IsReady, Weights, Weights-put, Among-put, Turn, Among, try_select_all-Turn,
}
use crossfire_rs.Multiplex.Measure.{measure, measure_ne, measure_less}

module _ {Q A : Type 0} (tries : Tries Q A) where
  -- What a receive makes of a multiplexer whose channel `j` is ready.
  pub record Served (W len j : ℕ) (h : MultiplexHandle Q) (m : Multiplex Q)
      (r : Option A × Multiplex Q) : Type 0 where
    pub receives : is_some r.0 ≡ true
    pub same_length : length r.1.handlers ≡ len
    pub weights : Weights tries W r.1.handlers
    pub count_le : r.1.count ≤ W
    pub in_range : r.1.last_idx < len
    pub nearer :
        (r.1.last_idx ≡ j)
        ⊎ ((measure W len j r.1.last_idx r.1.count < measure W len j m.last_idx m.count)
            × (r.1.last_idx ≢ j))

  Turn-Served :
      (W len j : ℕ) (h : MultiplexHandle Q) (m : Multiplex Q) (r : Option A × Multiplex Q)
      → ((m.last_idx ≡ j) → m.count ≡ 0)
      → Turn tries W len m.last_idx j h r
      → Served W len j h m r
  Turn-Served W len j h m r fresh t = record {
    receives = t.receives;
    same_length = t.same_length;
    weights = t.weights;
    count_le = t.count_le;
    in_range = t.in_range;
    nearer = elim t.nearer [
      | inl same ↦ inl same
      | inr (closer, ne, _) ↦
          let le = t.count_le in
          inr
            (measure_less W len j m.last_idx m.count r.1.last_idx r.1.count fresh ne closer le, ne)
    ];
  }

  cached-Served :
      (W len j : ℕ) (h : MultiplexHandle Q) (g : MultiplexHandle Q) (m : Multiplex Q)
      (r : Option A × Q)
      → IsReady tries h.queue
      → nth m.handlers m.last_idx ≡ some g
      → (m.last_idx ≡ j → is_some r.0 ≡ true)
      → m.last_idx < len
      → m.count ≤ W
      → 0 < m.count
      → Among tries W len j h m
      → Served W len j h m (cached_result tries false g r m)
  cached-Served W len j h g m (some x, q) ready at own lt le more a = record {
    receives = refl;
    same_length = length-set m.handlers m.last_idx _ ∙ a.same_length;
    weights = Weights-put tries W m.handlers m.last_idx g _ at refl a.weights;
    count_le = omega arith;
    in_range = lt;
    nearer = elim (ℕ_discrete m.last_idx j) [
      | yes e ↦ inl e
      | no ne ↦ inr (
        let a = measure_ne W len j m.last_idx m.count (λ e. absurd (ne e)) in
            let b = measure_ne W len j m.last_idx (m.count - 1) (λ e. absurd (ne e)) in omega arith,
        ne,
      )
    ];
  }
  cached-Served W len j h g m (none, q) ready at own lt le more a =
      let ne : m.last_idx ≢ j = λ e. let f = own e in absurd (cc) in
      let b = a.below in
      let l = a.same_length in
      Turn-Served W len j h m _ (λ e. absurd (ne e))
        (try_select_all-Turn tries W len m.last_idx j h false (length m.handlers - 1)
          (put_handle tries m.last_idx (record g { queue = q }) m) ready lt (ground arith)
          (Among-put tries W len j h m.last_idx g (record g { queue = q }) m ne at refl a))

  -- A multiplexer of `len` channels with weights up to `W`, as it is between calls.
  pub record Sound (W len : ℕ) (m : Multiplex Q) : Type 0 where
    pub same_length : length m.handlers ≡ len
    pub weights : Weights tries W m.handlers
    pub count_le : m.count ≤ W
    pub in_range : m.last_idx < len

  -- The channel `j` is ready.
  abbrev pub ReadyAt : ℕ → Multiplex Q → Type 0
  ReadyAt j m = (h : MultiplexHandle Q) × (nth m.handlers j ≡ some h) × IsReady tries h.queue

  -- Whether the cached try of a channel receives.
  abbrev cached_some : Option (MultiplexHandle Q) → Bool
  cached_some none = true
  cached_some (some g) = is_some (tries.try_recv_cached g.queue).0

  cached_at-Served :
      (W len j : ℕ) (h : MultiplexHandle Q) (m : Multiplex Q)
      → j < len
      → nth m.handlers j ≡ some h
      → IsReady tries h.queue
      → 0 < m.count
      → Sound W len m
      → Served W len j h m (cached_at tries false (nth m.handlers m.last_idx) m)
  cached_at-Served W len j h m lt at ready more s =
      let (g, e) =
        nth-some m.handlers m.last_idx
          (let l = s.same_length in let r = s.in_range in omega arith) in
      let (_, _, third) = ready in
      subst (λ o. Served W len j h m (cached_at tries false o m)) (sym e)
        (cached-Served W len j h g m (tries.try_recv_cached g.queue) ready e
          (λ l. ap cached_some (sym e ∙ ap (nth m.handlers) l ∙ at) ∙ third) s.in_range s.count_le
          more
          (record { same_length = s.same_length; weights = s.weights; below = lt; there = at }))

  -- What a receive comes to, whether it may stay with the last channel or not.
  pub receive-Served :
      (W len j : ℕ) (h : MultiplexHandle Q) (m : Multiplex Q)
      → Sound W len m
      → j < len
      → nth m.handlers j ≡ some h
      → IsReady tries h.queue
      → Served W len j h m (try_select_cached tries false m)
  unfolding try_select_cached
  receive-Served W len j h m s lt at ready = elim (Bool-cases (ltb 0 m.count)) [
    | inl more ↦
        subst
          (λ c. Served W len j h m (
            if c
            then cached_at tries false (nth m.handlers m.last_idx) m
            else try_select_all tries false (length m.handlers) m.last_idx m))
          (sym more) (cached_at-Served W len j h m lt at ready (ground arith) s)
    | inr over ↦
        subst
          (λ c. Served W len j h m (
            if c
            then cached_at tries false (nth m.handlers m.last_idx) m
            else try_select_all tries false (length m.handlers) m.last_idx m))
          (sym over)
          (let l = s.same_length in
            let r = s.in_range in
            Turn-Served W len j h m _ (λ e. ground arith)
              (try_select_all-Turn tries W len m.last_idx j h false (length m.handlers) m ready
                s.in_range (ground arith)
                (record {
                  same_length = s.same_length;
                  weights = s.weights;
                  below = lt;
                  there = at;
                })))
  ]
