-- ===== src/Tests/Handles.antt =====
-- A run of src/shared.rs and src/weak.rs: the last sender is dropped while a weak one is upgraded.
use crossfire_rs.Prelude.{◌+◌, ◌≤◌, ◌<◌, ◌≡◌, ◌↔◌, refl, [], arith}
use crossfire_rs.Handles.{
  System, start, begin_upgrade, drop_tx, upgrade_round, try_add_tx_round, close_tx, Reach, begin,
  next, begins_upgrade, drops, upgrades,
}
use crossfire_rs.Handles.Safety.{closed_once_gone}

-- The count was loaded before the drop.
abbrev gone : System
gone = upgrade_round [] 0 [] (upgrade_round [] 1 [] (drop_tx (begin_upgrade start)))

gone-Reach : Reach gone
unfolding close_tx try_add_tx_round
gone-Reach =
    next (next (next (next begin begins_upgrade) (drops (omega arith))) (upgrades [] [] 1 refl))
      (upgrades [] [] 0 refl)

closed_once_gone_example :
    (gone.tx_count ≡ gone.handles)
    × (gone.closing + gone.closes ≤ 1)
    × (gone.closing + gone.closes ≡ 1 ↔ gone.handles ≡ 0)
    × (0 < gone.refusals → gone.handles ≡ 0)
closed_once_gone_example = closed_once_gone gone-Reach
