-- ===== src/Multiplex/Fair.antt =====
-- src/select/multiplex.rs: no channel that has items waits for ever.
use mathlib.Core.Path.{subst}
use crossfire_rs.Prelude.{
  ℕ, suc, ◌+◌, ◌*◌, ◌≤◌, ◌<◌, ◌≡◌, ◌≢◌, ◌⊎◌, inl, inr, refl, sym, ap₂, Bool, true, false, Option,
  none, some, if◌then◌else◌, ltb, length, Bool-cases, arith,
}
use crossfire_rs.Flavor.{is_some}
use crossfire_rs.Multiplex.{
  Multiplex, Tries, try_select_all, try_select_cached, TryRecv, received, empty, disconnected,
  answer, try_recv,
}
use crossfire_rs.Multiplex.Turns.{try_select_all-Turn}
use crossfire_rs.Multiplex.Measure.{measure, measure_le}
use crossfire_rs.Multiplex.Served.{Sound, ReadyAt, receive-Served}

module _ {Q A : Type 0} (tries : Tries Q A) where
  -- A search on channels of which `j` is ready finds a value, and it is from `j` or brings the search
  -- nearer to `j`.
  pub turn_comes :
      (W len j : ℕ) (m : Multiplex Q)
      → Sound tries W len m
      → j < len
      → ReadyAt tries j m
      → let r = try_select_cached tries false m in
        (is_some r.0 ≡ true)
        × Sound tries W len r.1
        × ((r.1.last_idx ≡ j)
            ⊎ (measure W len j r.1.last_idx r.1.count < measure W len j m.last_idx m.count))
  turn_comes W len j m s lt (h, at, ready) =
      let v = receive-Served tries W len j h m s lt at ready in
      (
        v.receives,
        record {
          same_length = v.same_length;
          weights = v.weights;
          count_le = v.count_le;
          in_range = v.in_range;
        },
        elim v.nearer [ inl same ↦ inl same | inr (less, _) ↦ inr less ],
      )

  -- What others may do to the multiplexer between two receives: the queues change.
  abbrev pub Between : ℕ → ℕ → Multiplex Q → Multiplex Q → Type 0
  Between W len m m' = Sound tries W len m' × (m'.last_idx ≡ m.last_idx) × (m'.count ≡ m.count)

  -- That many receives, one after another, none of them from the channel `j`, which is ready each time.
  pub data Waits (W len j : ℕ) (m : Multiplex Q) : ℕ → Multiplex Q → Type 0 where
    begin : Waits W len j m 0 m
    passed :
        {n : ℕ} {m' : Multiplex Q}
        → Waits W len j m n m'
        → (m'' : Multiplex Q) → Between W len m' m''
        → ReadyAt tries j m''
        → (try_select_cached tries false m'').1.last_idx ≢ j
        → Waits W len j m (suc n) (try_select_cached tries false m'').1

  wait_measure :
      {W len j : ℕ} {m : Multiplex Q} {n : ℕ} {m' : Multiplex Q}
      → j < len
      → Waits W len j m n m'
      → n + measure W len j m'.last_idx m'.count ≤ measure W len j m.last_idx m.count
  wait_measure lt begin = omega arith
  wait_measure {W} {len} {j} {m} {n} {m'} lt (passed w m2 (s, l, c) ready ne) =
      let before = wait_measure lt w in
      let (_, _, turn) = turn_comes W len j m2 s lt ready in
      let less : measure W len j (try_select_cached tries false m2).1.last_idx
            (try_select_cached tries false m2).1.count
          < measure W len j m2.last_idx m2.count =
        elim turn [ inl e ↦ absurd (ne e) | inr less ↦ less ] in
      let same = ap₂ (measure W len j) l c in omega arith

  -- Between receives of a multiplexer of `len` channels, whose handles carry weights of at most
  -- `W` and whose queues others change in between, at most `len * (W + 1) + W` receives in a row
  -- pass over a channel that is ready at each of them.
  pub wait_bounded :
      (W len j n : ℕ) (m m' : Multiplex Q)
      → Sound tries W len m
      → j < len
      → Waits W len j m n m'
      → n ≤ len * (W + 1) + W
  wait_bounded W len j n m m' s lt w =
      let total = wait_measure lt w in
      let most = measure_le W len j m.last_idx m.count lt s.count_le in omega arith

  found :
      (r : Option A × Multiplex Q) (e : TryRecv tries)
      → is_some r.0 ≡ true
      → (x : A) × ((answer tries e r).0 ≡ received x)
  found (none, m) e y = absurd (cc)
  found (some x, m) e y = (x, refl)

  -- `try_recv` receives a value if some channel is ready.
  pub try_recv_finds :
      (W len j : ℕ) (m : Multiplex Q)
      → Sound tries W len m
      → j < len
      → ReadyAt tries j m
      → (x : A) × ((try_recv tries m).0 ≡ received x)
  unfolding try_recv
  try_recv_finds W len j m s lt (h, at, ready) =
      let l = s.same_length in
      let r = s.in_range in
      let search = λ (final : Bool).
        (try_select_all-Turn tries W len m.last_idx j h final (length m.handlers) m ready s.in_range
          (ground arith)
          (record {
            same_length = s.same_length;
            weights = s.weights;
            below = lt;
            there = at;
          })).receives in
      elim (Bool-cases (ltb 0 m.opened)) [
        | inl y ↦
            subst
              (λ c.
                (x : A) × ((if c
                    then answer tries empty
                        (try_select_all tries false (length m.handlers) m.last_idx m)
                    else answer tries disconnected
                        (try_select_all tries true (length m.handlers) m.last_idx m)).0
                  ≡ received x))
              (sym y) (found _ empty (search false))
        | inr n ↦
            subst
              (λ c.
                (x : A) × ((if c
                    then answer tries empty
                        (try_select_all tries false (length m.handlers) m.last_idx m)
                    else answer tries disconnected
                        (try_select_all tries true (length m.handlers) m.last_idx m)).0
                  ≡ received x))
              (sym n) (found _ disconnected (search true))
      ]
