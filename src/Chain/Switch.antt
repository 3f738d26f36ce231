-- ===== src/Chain/Switch.antt =====
-- Moving from one tip to another: `PlanChainSwitch` of src/chain/block_index.cpp. An entry that the walk holds is
-- the entry as the index has it, and two are the same where their hashes are.
pub mod Paths
pub mod Retreat
pub mod Meet
pub mod Fork
use amarian_amr.Base.{
  ℕ, zero, suc, ◌+◌, Bool, true, false, not, ◌&&◌, Option, none, some, List, [], ◌∷◌, ◌++◌, ltb,
  if◌then◌else◌, ◌==◌, nat_eq, list_eq,
}
use amarian_amr.Chain.Index.{BlockIndex, Entry, parent_of}

pub record ChainSwitch : Type 0 where
  pub fork_point : Option Entry
  pub disconnect : List Entry
  pub connect : List Entry

-- A walk towards the root: where it stands, and what it has passed.
pub record Passage : Type 0 where
  pub stand : Option Entry
  pub passed : List Entry

pub record BothWalks : Type 0 where
  pub older : Option Entry
  pub newer : Option Entry
  pub disconnect : List Entry
  pub connect : List Entry

-- Whether an entry is higher than where the other walk stands, or that one is past the root.
abbrev pub is_above : Option Entry → Entry → Bool
is_above none e = true
is_above (some other) e = ltb other.height e.height

-- The loop that brings the deeper branch up to the other's height.
unfoldable pub retreat : BlockIndex → ℕ → Option Entry → Option Entry → List Entry → Passage
retreat ix zero other walk passed = record { stand = walk; passed = passed }
retreat ix (suc fuel) other none passed = record { stand = none; passed = passed }
retreat ix (suc fuel) other (some e) passed =
    let rest = retreat ix fuel other (parent_of ix (some e)) (passed ++ e ∷ []) in
    if is_above other e then rest else record { stand = some e; passed = passed }

-- The loop that steps both back until they meet.
unfoldable pub step_back :
    BlockIndex → ℕ → Option Entry → Option Entry → List Entry → List Entry → BothWalks
step_back ix zero older newer out back = record {
  older = older;
  newer = newer;
  disconnect = out;
  connect = back;
}
step_back ix (suc fuel) none newer out back = record {
  older = none;
  newer = newer;
  disconnect = out;
  connect = back;
}
step_back ix (suc fuel) (some a) none out back = record {
  older = some a;
  newer = none;
  disconnect = out;
  connect = back;
}
step_back ix (suc fuel) (some a) (some c) out back =
    let rest =
      step_back ix fuel (parent_of ix (some a)) (parent_of ix (some c)) (out ++ a ∷ [])
        (back ++ c ∷ []) in
    if not (a.hash == c.hash)
    then rest
    else record { older = some a; newer = some c; disconnect = out; connect = back }

abbrev pub meeting : Option Entry → Option Entry → Option Entry
meeting none newer = none
meeting (some a) none = none
meeting (some a) (some c) = if a.hash == c.hash then some a else none

-- `std::ranges::reverse`.
unfoldable pub turned : List Entry → List Entry → List Entry
turned [] acc = acc
turned (e ∷ es) acc = turned es (e ∷ acc)

abbrev pub rounds : Option Entry → ℕ
rounds none = 0
rounds (some e) = e.height + 1

-- A walk takes a round for each height, so that one more than the height it starts from is enough fuel.
unfoldable pub plan_chain_switch : BlockIndex → Option Entry → Option Entry → ChainSwitch
unfolding retreat step_back turned
plan_chain_switch ix from none = record { fork_point = none; disconnect = []; connect = [] }
plan_chain_switch ix from (some to) =
    let down = retreat ix (rounds from) (some to) from [] in
    let up = retreat ix (rounds (some to)) down.stand (some to) [] in
    let met = step_back ix (rounds up.stand) down.stand up.stand down.passed up.passed in
    record {
      fork_point = meeting met.older met.newer;
      disconnect = met.disconnect;
      connect = turned met.connect [];
    }
