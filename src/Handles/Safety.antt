-- ===== src/Handles/Safety.antt =====
-- src/shared.rs, src/weak.rs: when the other side is told that a side is gone.
use mathlib.Core.Path.{subst}
use crossfire_rs.Prelude.{
  ℕ, ◌+◌, ◌-◌, ◌≤◌, ◌<◌, ◌≡◌, ◌↔◌, refl, true, ◌||◌, if◌then◌else◌, ◌==◌, List, [], ◌∷◌, ◌++◌,
  arith,
}
use crossfire_rs.Handles.{
  Upgrade, refused, upgraded, again, try_add_tx_round, close_tx, System, clone_tx, drop_tx,
  after_round, Step, clones, drops, begins_upgrade, upgrades, closes, Reach, begin, next,
}

-- A count of 0 was loaded only if there is no handle.
abbrev pub Loaded : ℕ → List ℕ → Type 0
Loaded h [] = Unit
Loaded h (c ∷ cs) = (c ≡ 0 → h ≡ 0) × Loaded h cs

Loaded-mono : (h h' : ℕ) (cs : List ℕ) → (h ≡ 0 → h' ≡ 0) → Loaded h cs → Loaded h' cs
Loaded-mono h h' [] f l = tt
Loaded-mono h h' (c ∷ cs) f (z, l) = (λ e. f (z e), Loaded-mono h h' cs f l)

Loaded-at :
    (h : ℕ) (before behind : List ℕ) (c : ℕ) → Loaded h (before ++ (c ∷ behind)) → c ≡ 0 → h ≡ 0
Loaded-at h [] behind c (z, l) = z
Loaded-at h (b ∷ before) behind c (z, l) = Loaded-at h before behind c l

Loaded-remove :
    (h : ℕ) (before behind : List ℕ) (c : ℕ)
    → Loaded h (before ++ (c ∷ behind))
    → Loaded h (before ++ behind)
Loaded-remove h [] behind c (z, l) = l
Loaded-remove h (b ∷ before) behind c (z, l) = (z, Loaded-remove h before behind c l)

Loaded-replace :
    (h : ℕ) (before behind : List ℕ) (c d : ℕ)
    → (d ≡ 0 → h ≡ 0)
    → Loaded h (before ++ (c ∷ behind))
    → Loaded h (before ++ (d ∷ behind))
Loaded-replace h [] behind c d f (z, l) = (f, l)
Loaded-replace h (b ∷ before) behind c d f (z, l) = (z, Loaded-replace h before behind c d f l)

pub record Inv (s : System) : Type 0 where
  pub counted : s.tx_count ≡ s.handles
  pub closed_once : s.closing + s.closes ≡ (if s.handles == 0 then 1 else 0)
  pub loaded : Loaded s.handles s.upgrading
  pub refused_late : (s.refusals == 0 || s.handles == 0) ≡ true

-- What a round of an upgrade says of the count that it finds.
RoundFacts : ℕ → ℕ → Upgrade × ℕ → Type 0
RoundFacts c n (refused, m) = (m ≡ n) × (c ≡ 0)
RoundFacts c n (upgraded, m) = (m ≡ n + 1) × (0 < n)
RoundFacts c n (again d, m) = (m ≡ n) × (d ≡ n)

round_facts : (c n : ℕ) → RoundFacts c n (try_add_tx_round c n)
unfolding try_add_tx_round RoundFacts
round_facts c n = ground arith

after_round-Inv :
    (before behind : List ℕ) (c : ℕ) (r : Upgrade × ℕ) (s : System)
    → s.upgrading ≡ before ++ (c ∷ behind)
    → RoundFacts c s.tx_count r
    → Inv s
    → Inv (after_round before behind r s)
unfolding RoundFacts
after_round-Inv before behind c (refused, m) s e (same, z) inv =
    let l = subst (Loaded s.handles) e inv.loaded in
    let gone : s.handles ≡ 0 = Loaded-at s.handles before behind c l z in
    record {
      counted = omega (arith, inv.counted);
      closed_once = inv.closed_once;
      loaded = Loaded-remove s.handles before behind c l;
      refused_late = ground arith;
    }
after_round-Inv before behind c (upgraded, m) s e (more, pos) inv =
    let l = subst (Loaded s.handles) e inv.loaded in
    let k = inv.counted in
    let once = inv.closed_once in
    let late = inv.refused_late in
    record {
      counted = omega arith;
      closed_once = ground arith;
      loaded =
          Loaded-mono s.handles (s.handles + 1) (before ++ behind) (λ z. absurd (omega arith))
            (Loaded-remove s.handles before behind c l);
      refused_late = ground arith;
    }
after_round-Inv before behind c (again d, m) s e (same, found) inv =
    let l = subst (Loaded s.handles) e inv.loaded in
    let k = inv.counted in
    record {
      counted = omega arith;
      closed_once = inv.closed_once;
      loaded = Loaded-replace s.handles before behind c d (λ z. omega arith) l;
      refused_late = inv.refused_late;
    }

clone_tx-Inv : (s : System) → 0 < s.handles → Inv s → Inv (clone_tx s)
clone_tx-Inv s h inv =
    let once = inv.closed_once in
    let late = inv.refused_late in
    record {
      counted = omega (arith, inv.counted);
      closed_once = ground arith;
      loaded =
          Loaded-mono s.handles (s.handles + 1) s.upgrading (λ z. absurd (omega arith)) inv.loaded;
      refused_late = ground arith;
    }

drop_tx-Inv : (s : System) → 0 < s.handles → Inv s → Inv (drop_tx s)
unfolding close_tx
drop_tx-Inv s h inv =
    let k = inv.counted in
    let once = inv.closed_once in
    let late = inv.refused_late in
    record {
      counted = omega arith;
      closed_once = ground arith;
      loaded = Loaded-mono s.handles (s.handles - 1) s.upgrading (λ z. omega arith) inv.loaded;
      refused_late = ground arith;
    }

Step-Inv : {s t : System} → Step s t → Inv s → Inv t
Step-Inv {s} (clones h) inv = clone_tx-Inv s h inv
Step-Inv {s} (drops h) inv = drop_tx-Inv s h inv
Step-Inv {s} begins_upgrade inv = record {
  counted = inv.counted;
  closed_once = inv.closed_once;
  loaded = (λ z. let k = inv.counted in omega arith, inv.loaded);
  refused_late = inv.refused_late;
}
Step-Inv {s} (upgrades before behind c e) inv =
    after_round-Inv before behind c (try_add_tx_round c s.tx_count) s e (round_facts c s.tx_count)
      inv
Step-Inv {s} (closes h) inv = record {
  counted = inv.counted;
  closed_once = let once = inv.closed_once in omega arith;
  loaded = inv.loaded;
  refused_late = inv.refused_late;
}

Reach-Inv : {s : System} → Reach s → Inv s
Reach-Inv begin = record { counted = refl; closed_once = refl; loaded = tt; refused_late = refl }
Reach-Inv (next r st) = Step-Inv st (Reach-Inv r)

-- However clones, drops and upgrades of weak references of the senders of a channel interleave,
-- the count is the number of handles, the registry of the receivers is closed, or about to be,
-- exactly once when there is none and not before, and an upgrade was refused only if there is
-- none.
pub closed_once_gone :
    {s : System}
    → Reach s
    → (s.tx_count ≡ s.handles)
      × (s.closing + s.closes ≤ 1)
      × (s.closing + s.closes ≡ 1 ↔ s.handles ≡ 0)
      × (0 < s.refusals → s.handles ≡ 0)
closed_once_gone {s} r =
    let inv = Reach-Inv r in
    let k = inv.counted in
    let once = inv.closed_once in
    let late = inv.refused_late in
    (k, ground arith, (ground arith, ground arith), λ h. ground arith)
