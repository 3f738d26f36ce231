-- ===== src/Consensus/SchemeLifecycle.antt =====
-- The states of a signature scheme by height: include/amarian/consensus/scheme_lifecycle.hpp and
-- src/consensus/scheme_lifecycle.cpp. The registry is the list of its entries.
pub mod Progress
use amarian_amr.Base.{
  ℕ, Bool, true, false, not, Option, none, some, List, [], ◌∷◌, map, length, ltb, leb,
  if◌then◌else◌, ◌==◌, nat_eq,
}
use amarian_amr.Crypto.{SchemeSpec, schemes}

pub data SchemeState : Type 0 where
  pending active deprecated retired : SchemeState

pub record SchemeLifecycle : Type 0 where
  pub scheme_id : ℕ
  pub activation_height : ℕ
  pub deprecation_height : ℕ
  pub retirement_height : ℕ

abbrev pub Registry : Type 0
Registry = List SchemeLifecycle

abbrev pub never : ℕ
never = 0xffff_ffff

-- The constructor: every known scheme, active from genesis.
abbrev pub default_registry : Registry
default_registry = map from_genesis schemes
  where
    from_genesis : SchemeSpec → SchemeLifecycle
    from_genesis spec = record {
      scheme_id = spec.id;
      activation_height = 0;
      deprecation_height = never;
      retirement_height = never;
    }

-- The three tests on the entry of a scheme.
unfoldable pub state_of : SchemeLifecycle → ℕ → SchemeState
state_of entry height =
    if ltb height entry.activation_height
    then pending
    else if leb entry.retirement_height height
    then retired
    else if leb entry.deprecation_height height
    then deprecated
    else active

unfoldable pub find_state : Registry → ℕ → ℕ → SchemeState
find_state [] scheme_id height = pending
find_state (entry ∷ entries) scheme_id height =
    let rest = find_state entries scheme_id height in
    if entry.scheme_id == scheme_id then state_of entry height else rest

unfoldable pub get_state : Registry → ℕ → ℕ → SchemeState
get_state registry scheme_id height =
    if scheme_id == 0 then retired else find_state registry scheme_id height

abbrev pub is_active : SchemeState → Bool
is_active pending = false
is_active active = true
is_active deprecated = false
is_active retired = false

unfoldable pub may_create_output : Registry → ℕ → ℕ → Bool
may_create_output registry scheme_id height = is_active (get_state registry scheme_id height)

unfoldable pub is_spendable : Registry → ℕ → ℕ → Bool
is_spendable registry scheme_id height = not (scheme_id == 0)

-- `Register`: the entry of the scheme is replaced, or one is added.
unfoldable pub register : SchemeLifecycle → Registry → Registry
register lifecycle [] = lifecycle ∷ []
register lifecycle (entry ∷ entries) =
    let rest = register lifecycle entries in
    if entry.scheme_id == lifecycle.scheme_id then lifecycle ∷ entries else entry ∷ rest

unfoldable pub find_lifecycle : Registry → ℕ → Option SchemeLifecycle
find_lifecycle [] scheme_id = none
find_lifecycle (entry ∷ entries) scheme_id =
    let rest = find_lifecycle entries scheme_id in
    if entry.scheme_id == scheme_id then some entry else rest

unfoldable pub get_lifecycle : Registry → ℕ → Option SchemeLifecycle
get_lifecycle registry scheme_id =
    if scheme_id == 0 then none else find_lifecycle registry scheme_id

abbrev pub size : Registry → ℕ
size registry = length registry
