-- ===== src/Consensus/Issuance.antt =====
-- The issuance schedule: include/amarian/consensus/issuance.hpp.
pub mod Eras
pub mod Schedule
use mathlib.Core.Option
use amarian_amr.Base.{
  ℕ, zero, suc, ◌+◌, ◌*◌, ◌/◌, ◌≤◌, ◌<◌, ◌≡◌, refl, Bool, true, false, Option, none, some, arith,
  ltb, leb, ◌==◌, nat_eq, if◌then◌else◌,
}
use amarian_amr.Base.Int.{
  ℤ, pos, negsuc, ◌+ℤ◌, ◌*ℤ◌, ltb_ℤ, leb_ℤ, pos_part, wrap_i64, truncating_div,
}

abbrev pub facets_per_amr : ℕ
facets_per_amr = 10_000_000_000

abbrev pub reward_retention_numerator : ℕ
reward_retention_numerator = 7

abbrev pub reward_retention_denominator : ℕ
reward_retention_denominator = 8

pub record IssuanceParams : Type 0 where
  pub era_blocks : ℕ
  pub initial_reward : ℤ

abbrev pub mainnet_issuance : IssuanceParams
mainnet_issuance = record { era_blocks = 105_000; initial_reward = pos (10 * facets_per_amr) }

unfoldable pub era_of_height : ℕ → IssuanceParams → ℕ
era_of_height height p = if p.era_blocks == 0 then 0 else height / p.era_blocks

-- `reward * 7 / 8` on `int64_t`: a product that does not fit wraps around, and the quotient truncates
-- toward zero.
unfoldable pub retain : ℤ → ℤ
unfolding ◌*ℤ◌
retain reward =
    truncating_div (wrap_i64 (reward *ℤ pos reward_retention_numerator))
      reward_retention_denominator

-- The loop of `BlockReward` over the eras that are left, and the value that it returns.
unfoldable pub reward_after : ℕ → ℤ → ℤ
unfolding retain
reward_after zero reward = if ltb_ℤ (pos 0) reward then reward else pos 0
reward_after (suc eras) reward = elim (leb_ℤ reward (pos 0)) [
  | true ↦ pos 0
  | false ↦ reward_after eras (retain reward)
]

unfoldable pub block_reward : ℕ → IssuanceParams → ℤ
block_reward height p =
    if p.era_blocks == 0 then pos 0 else reward_after (era_of_height height p) p.initial_reward

-- `while (reward > 0)`: a round lowers a positive reward, so that its value plus one is fuel enough.
-- `none` says that the fuel ran out.
unfoldable pub era_count_loop : ℕ → ℤ → ℕ → Option ℕ
unfolding retain
era_count_loop zero reward eras = none
era_count_loop (suc fuel) reward eras = elim (ltb_ℤ (pos 0) reward) [
  | false ↦ some eras
  | true ↦ era_count_loop fuel (retain reward) (eras + 1)
]

unfoldable pub era_count_with_reward : IssuanceParams → Option ℕ
era_count_with_reward p =
    if p.era_blocks == 0
    then some 0
    else era_count_loop (suc (pos_part p.initial_reward)) p.initial_reward 0

unfoldable pub issuance_end_height : IssuanceParams → Option ℕ
issuance_end_height p = Option.map (λ eras. eras * p.era_blocks) (era_count_with_reward p)

-- `total += reward * params.era_blocks` on `int64_t`, where both results wrap around.
unfoldable pub total_loop : ℕ → ℕ → ℤ → ℤ → Option ℤ
unfolding retain
total_loop zero era_blocks reward total = none
total_loop (suc fuel) era_blocks reward total = elim (ltb_ℤ (pos 0) reward) [
  | false ↦ some total
  | true ↦
      total_loop fuel era_blocks (retain reward)
        (wrap_i64 (total +ℤ wrap_i64 (reward *ℤ pos era_blocks)))
]

unfoldable pub total_issuance : IssuanceParams → Option ℤ
total_issuance p =
    total_loop (suc (pos_part p.initial_reward)) p.era_blocks p.initial_reward (pos 0)
