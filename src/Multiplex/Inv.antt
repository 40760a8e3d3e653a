-- ===== src/Multiplex/Inv.antt =====
-- src/select/multiplex.rs: what a waiting receiver and the senders know of each other.
use mathlib.Core.Path.{subst}
use crossfire_rs.Prelude.{
  ℕ, zero, suc, ◌+◌, ◌≤◌, ◌<◌, ◌≡◌, ◌⊎◌, inl, inr, refl, sym, ap, ◌∙◌, Bool, true, false, not, ◌&&◌,
  ◌||◌, if◌then◌else◌, ◌==◌, ltb, leb, arith,
}
use crossfire_rs.Multiplex.{next_idx}
use crossfire_rs.Multiplex.Turns.{dist}
use crossfire_rs.Multiplex.System.{
  Phase, first, spinning, final, is_final, Receiver, idle, cached, search, resetting, storing,
  hinting, counting, parking, checking, System, Choice, send, fire, close, close_wake, wake, unpark,
  take, search_step, receiver_step, Step, sends, fires, closes, close_wakes, wakes, unparks,
  receives, Reach, begin, next,
}

-- The waker is in the cell, or a thread has it, or it was woken.
abbrev pub registered : System → Bool
registered s = s.cell || ltb 0 s.waking || s.woken

module _ (len j : ℕ) where
  -- An item of channel `j`, or the end of the last channel, is announced.
  abbrev pub announced : System → Bool
  announced s = ltb 0 (s.firing j) || ltb 0 s.waking || s.woken

  abbrev pub end_announced : System → Bool
  end_announced s = ltb 0 s.closing || ltb 0 s.waking || s.woken

  -- The thread that woke the receiver has unparked it, or is going to.
  abbrev pub unparks_follow : System → Bool
  unparks_follow s = not s.woken || s.token || ltb 0 s.unparking

  abbrev is_closed : Phase → Bool
  is_closed (final closed) = closed
  is_closed _ = false

  abbrev pub Facts : Receiver → System → Type 0
  Facts (search p idx n) s =
      (idx < len)
      × (n ≤ len)
      × ((not (is_final p) || registered s && unparks_follow s) ≡ true)
      × ((not (is_final p) || leb (dist len idx j) n || s.items j == 0 || announced s) ≡ true)
      × ((not (is_final p) || is_closed p || ltb 0 s.opened || end_announced s) ≡ true)
      × ((not (is_closed p) || s.opened == 0 && (leb (dist len idx j) n || s.items j == 0)) ≡ true)
  Facts storing s = unparks_follow s ≡ true
  Facts hinting s = (registered s && unparks_follow s) ≡ true
  Facts counting s = (registered s && unparks_follow s) ≡ true
  Facts parking s =
      ((registered s && unparks_follow s) ≡ true)
      × ((s.items j == 0 || announced s) ≡ true)
      × ((ltb 0 s.opened || end_announced s) ≡ true)
  Facts checking s =
      (registered s ≡ true)
      × ((s.items j == 0 || announced s) ≡ true)
      × ((ltb 0 s.opened || end_announced s) ≡ true)
  Facts _ s = Unit

  pub record Inv (s : System) : Type 0 where
    pub start_lt : s.start_idx < len
    pub last_lt : s.last_idx < len
    pub hint_lt : s.hint < len
    pub facts : Facts s.receiver s

  module _ (lt : j < len) where
    send-Inv :
        (i : ℕ) (r : Receiver) (s : System)
        → s.receiver ≡ r
        → i < len
        → 0 < s.opened
        → Inv s
        → Inv (send len i s)
    unfolding send
    send-Inv i r s e h o inv = ground arith

    fire-Inv :
        (i : ℕ) (r : Receiver) (s : System)
        → s.receiver ≡ r
        → i < len
        → 0 < s.firing i
        → Inv s
        → Inv (fire len i s)
    unfolding fire
    fire-Inv i r s e h o inv = ground arith

    close-Inv :
        (r : Receiver) (s : System) → s.receiver ≡ r → 0 < s.opened → Inv s → Inv (close len s)
    unfolding close
    close-Inv r s e o inv = ground arith

    close_wake-Inv :
        (i : ℕ) (r : Receiver) (s : System)
        → s.receiver ≡ r
        → i < len
        → 0 < s.closing
        → Inv s
        → Inv (close_wake len i s)
    unfolding close_wake
    close_wake-Inv i r s e h o inv = ground arith

    wake-Inv :
        (r : Receiver) (s : System) → s.receiver ≡ r → 0 < s.waking → Inv s → Inv (wake len s)
    unfolding wake
    wake-Inv r s e o inv = ground arith

    unpark-Inv :
        (r : Receiver) (s : System) → s.receiver ≡ r → 0 < s.unparking → Inv s → Inv (unpark len s)
    unfolding unpark
    unpark-Inv r s e o inv = ground arith

    next_dist :
        (idx : ℕ)
        → idx < len
        → (next_idx len idx < len)
          × ((next_idx len idx ≡ j) ⊎ (dist len idx j ≡ dist len (next_idx len idx) j + 1))
    next_dist idx h = ground arith

    far : (i n : ℕ) → i ≡ j → suc n ≤ len → leb (dist len i j) n ≡ false
    far i n e le = ground arith

    -- The channel `i` is empty, and the search goes on behind it.
    pass_other :
        (closed : Bool) (idx i n : ℕ) (s : System)
        → i < len
        → dist len idx j ≡ dist len i j + 1
        → Facts (search (final closed) idx (suc n)) s
        → Facts (search (final closed) i n) s
    pass_other closed idx i n s lt' d (a, b, f, g, h, k) =
        let near : leb (dist len idx j) (suc n) ≡ leb (dist len i j) n = ground arith in
        (lt', omega arith, f, ground (arith, g, near), h, ground (arith, k, near))

    pass_own :
        (closed : Bool) (idx i n : ℕ) (s : System)
        → i ≡ j
        → s.items i ≡ 0
        → Facts (search (final closed) idx (suc n)) s
        → Facts (search (final closed) i n) s
    pass_own closed idx i n s e none_there (a, b, f, g, h, k) =
        let z : s.items j ≡ 0 = ap s.items (sym e) ∙ none_there in
        (omega arith, omega arith, f, ground (arith, z), h, ground (arith, z, k))

    final_look :
        (closed : Bool) (idx n : ℕ) (s : System)
        → Facts (search (final closed) idx (suc n)) s
        → s.items (next_idx len idx) ≡ 0
        → Facts (search (final closed) (next_idx len idx) n) s
    final_look closed idx n s f z =
        let (lt', turn) = next_dist idx f.0 in
        elim turn [
          | inl own ↦ pass_own closed idx (next_idx len idx) n s own z f
          | inr d ↦ pass_other closed idx (next_idx len idx) n s lt' d f
        ]

    final_step-Inv :
        (closed : Bool) (idx n : ℕ) (b : Bool) (s : System)
        → s.receiver ≡ search (final closed) idx (suc n)
        → ltb 0 (s.items (next_idx len idx)) ≡ b
        → Inv s
        → Inv (
            if b && true
            then take len (next_idx len idx) s
            else record s { receiver = search (final closed) (next_idx len idx) n })
    final_step-Inv closed idx n true s e y inv =
        let f = subst (λ r. Facts r s) e inv.facts in
        record {
          start_lt = inv.start_lt;
          last_lt = (next_dist idx f.0).0;
          hint_lt = inv.hint_lt;
          facts = tt;
        }
    final_step-Inv closed idx n false s e z inv =
        let f = subst (λ r. Facts r s) e inv.facts in
        record {
          start_lt = inv.start_lt;
          last_lt = inv.last_lt;
          hint_lt = inv.hint_lt;
          facts = final_look closed idx n s f (ground arith);
        }

    search_step-Inv :
        (p : Phase) (idx n : ℕ) (c : Choice) (s : System)
        → s.receiver ≡ search p idx n
        → Inv s
        → Inv (search_step len p idx n c s)
    unfolding search_step
    search_step-Inv first idx zero c s e inv = ground arith
    search_step-Inv spinning idx zero c s e inv = ground arith
    search_step-Inv (final closed) idx zero c s e inv = ground arith
    search_step-Inv first idx (suc n) c s e inv = ground arith
    search_step-Inv spinning idx (suc n) c s e inv = ground arith
    search_step-Inv (final closed) idx (suc n) c s e inv =
        final_step-Inv closed idx n (ltb 0 (s.items (next_idx len idx))) s e refl inv

    receiver_step-Inv :
        (c : Choice) (r : Receiver) (s : System)
        → s.receiver ≡ r
        → Inv s
        → Inv (receiver_step len c s)
    unfolding receiver_step
    receiver_step-Inv c idle s e inv = ground arith
    receiver_step-Inv c cached s e inv = ground arith
    receiver_step-Inv c (search p idx n) s e inv = ground (arith, search_step-Inv p idx n c s e)
    receiver_step-Inv c resetting s e inv = ground arith
    receiver_step-Inv c storing s e inv = ground arith
    receiver_step-Inv c hinting s e inv = ground arith
    receiver_step-Inv c counting s e inv = ground arith
    receiver_step-Inv c parking s e inv = ground arith
    receiver_step-Inv c checking s e inv = ground arith

    Step-Inv : {s t : System} → Step len s t → Inv s → Inv t
    Step-Inv {s} (sends i h o) inv = send-Inv i s.receiver s refl h o inv
    Step-Inv {s} (fires i h o) inv = fire-Inv i s.receiver s refl h o inv
    Step-Inv {s} (closes o) inv = close-Inv s.receiver s refl o inv
    Step-Inv {s} (close_wakes i h o) inv = close_wake-Inv i s.receiver s refl h o inv
    Step-Inv {s} (wakes o) inv = wake-Inv s.receiver s refl o inv
    Step-Inv {s} (unparks o) inv = unpark-Inv s.receiver s refl o inv
    Step-Inv {s} (receives c) inv = receiver_step-Inv c s.receiver s refl inv

    pub Reach-Inv : {s : System} → Reach len s → Inv s
    Reach-Inv begin = record {
      start_lt = omega arith;
      last_lt = omega arith;
      hint_lt = omega arith;
      facts = tt;
    }
    Reach-Inv (next r st) = Step-Inv st (Reach-Inv r)
