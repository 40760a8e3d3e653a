-- ===== src/Tests/Select.antt =====
-- A run of src/select/select.rs over two channels.
use crossfire_rs.Prelude.{ℕ, refl, Bool, true, false, Option, none, some, List, [], ◌∷◌, arith}
use crossfire_rs.Select.{
  rr, ChannelShared, RecvHandle, Select, add, new_with, try_select_all, try_select,
}
use crossfire_rs.Select.Chosen.{Chosen}
use crossfire_rs.Select.Order.{RoundTurn, select_first, rr_turn}

abbrev take : Bool → List ℕ → Option ℕ × List ℕ
take final [] = (none, [])
take final (x ∷ xs) = (some x, xs)

abbrev holding : List ℕ → ChannelShared (List ℕ)
holding xs = record { inner = xs; tx_count = 1 }

-- The first channel, at the address 100, is empty.
abbrev both : Select (List ℕ)
both = add (holding (8 ∷ [])) 200 (add (holding []) 100 (new_with rr 0))

abbrev second : RecvHandle (List ℕ)
second = record { shared = holding (8 ∷ []); registered = false; channel = 200 }

select_first_example : Chosen take true both 2 0 1 second rr (try_select_all take true 0 both)
select_first_example = select_first take 0 1 second true both (omega arith) refl refl

rr_turn_example : RoundTurn take 2 0 1 (try_select take both)
rr_turn_example = rr_turn take 1 second both refl (omega arith) refl refl
