-- ===== src/Handles.antt =====
-- src/shared.rs, src/weak.rs: the senders of a channel that is cloned, and its weak references.
--
-- Of either side of a channel there is a count of its handles. What is said here of the senders, with
-- `tx_count`, `add_tx` and `close_tx`, the code does with the receivers as well, who have no weak
-- references. Nobody can have 2⁶⁴ handles, so the count does not wrap.
pub mod Safety
use crossfire_rs.Prelude.{
  ℕ, ◌+◌, ◌-◌, ◌≤◌, ◌<◌, ◌≡◌, Bool, true, false, ◌&&◌, not, if◌then◌else◌, ◌==◌, leb, Option, none,
  some, List, [], ◌∷◌, ◌++◌,
}

-- What a round of the loop of `try_add_tx` comes to, at the count that it loaded before.
pub data Upgrade : Type 0 where
  refused : Upgrade
  upgraded : Upgrade
  again : ℕ → Upgrade

unfoldable pub try_add_tx_round : ℕ → ℕ → Upgrade × ℕ
try_add_tx_round count tx_count =
    if count == 0
    then (refused, tx_count)
    else if tx_count == count
    then (upgraded, count + 1)
    else (again tx_count, tx_count)

-- The old count, and whether the other side is to be closed, which is done after.
unfoldable pub close_tx : ℕ → Bool × ℕ
close_tx tx_count = (leb tx_count 1, tx_count - 1)

-- The handles; the threads that upgrade a weak reference, each with the count it loaded; the threads
-- that dropped the last handle and are about to close the registry of the other side; and how often
-- that was done, and how many upgrades were refused.
pub record System : Type 0 where
  pub tx_count : ℕ
  pub handles : ℕ
  pub upgrading : List ℕ
  pub closing : ℕ
  pub closes : ℕ
  pub refusals : ℕ

abbrev pub start : System
start = record { tx_count = 1; handles = 1; upgrading = []; closing = 0; closes = 0; refusals = 0 }

-- `clone`, and the conversion from and to an asynchronous sender, which clones and then drops.
abbrev pub clone_tx : System → System
clone_tx s = record s { tx_count = s.tx_count + 1; handles = s.handles + 1 }

abbrev pub after_close : Bool × ℕ → System → System
after_close (last, n) s = record s {
  tx_count = n;
  handles = s.handles - 1;
  closing = s.closing + (if last then 1 else 0);
}

abbrev pub drop_tx : System → System
drop_tx s = after_close (close_tx s.tx_count) s

-- `upgrade`: the first load, and a round.
abbrev pub begin_upgrade : System → System
begin_upgrade s = record s { upgrading = s.tx_count ∷ s.upgrading }

abbrev pub after_round : List ℕ → List ℕ → Upgrade × ℕ → System → System
after_round before behind (refused, n) s = record s {
  tx_count = n;
  upgrading = before ++ behind;
  refusals = s.refusals + 1;
}
after_round before behind (upgraded, n) s = record s {
  tx_count = n;
  upgrading = before ++ behind;
  handles = s.handles + 1;
}
after_round before behind (again c, n) s = record s {
  tx_count = n;
  upgrading = before ++ (c ∷ behind);
}

abbrev pub upgrade_round : List ℕ → ℕ → List ℕ → System → System
upgrade_round before c behind s = after_round before behind (try_add_tx_round c s.tx_count) s

pub data Step (s : System) : System → Type 0 where
  clones : 0 < s.handles → Step s (clone_tx s)
  drops : 0 < s.handles → Step s (drop_tx s)
  begins_upgrade : Step s (begin_upgrade s)
  upgrades :
      (before behind : List ℕ) (c : ℕ)
      → s.upgrading ≡ before ++ (c ∷ behind)
      → Step s (upgrade_round before c behind s)
  closes : 0 < s.closing → Step s (record s { closing = s.closing - 1; closes = s.closes + 1 })

pub data Reach : System → Type 0 where
  begin : Reach start
  next : {s t : System} → Reach s → Step s t → Reach t
