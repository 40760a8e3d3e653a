-- ===== src/Multiplex/Park.antt =====
-- src/select/multiplex.rs: a receiver that waits is woken.
use crossfire_rs.Prelude.{ℕ, ◌<◌, ◌≡◌, true, false, arith}
use crossfire_rs.Multiplex.System.{final, search, parking, System, Reach}
use crossfire_rs.Multiplex.Inv.{Reach-Inv}

module _ (len j : ℕ) (lt : j < len) where
  -- While the receiver of a multiplexer waits in `park`, with no token and no thread that unparks
  -- it, is about to wake it, has closed a channel or has sent to the channel `j` and not fired
  -- yet, however its searches and the senders interleaved before, the channel `j` is empty, some
  -- channel is open, and its waker is in the cell.
  pub parked_woken :
      {s : System}
      → Reach len s
      → s.receiver ≡ parking
      → s.token ≡ false
      → s.unparking ≡ 0
      → s.waking ≡ 0
      → s.closing ≡ 0
      → s.firing j ≡ 0
      → (s.items j ≡ 0) × (0 < s.opened) × (s.cell ≡ true)
  parked_woken {s} r p t u w c f = let inv = Reach-Inv len j lt r in ground (arith, inv.facts)

  -- When the final search of a receive from a multiplexer comes to its end after all channels
  -- were seen closed, so that it answers `Disconnected`, every channel is empty and all are
  -- closed.
  pub disconnected_empty :
      {s : System} {idx : ℕ}
      → Reach len s
      → s.receiver ≡ search (final true) idx 0
      → (s.items j ≡ 0) × (s.opened ≡ 0)
  disconnected_empty {s} {idx} r p = let inv = Reach-Inv len j lt r in ground (arith, inv.facts)
