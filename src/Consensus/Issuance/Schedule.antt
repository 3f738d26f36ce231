-- ===== src/Consensus/Issuance/Schedule.antt =====
-- The supply that a schedule can ever reach, and its end: include/amarian/consensus/issuance.hpp.
use native.Mathlib.Nat.{
  le-div_iff_mul-le, div-lt_iff_lt-mul, div-mul-le_self, le_trans, mul-le-mul_right,
}
use amarian_amr.Base.{
  ℕ, zero, suc, ◌+◌, ◌*◌, ◌/◌, ◌%◌, ◌^◌, ◌≤◌, ◌<◌, ◌≡◌, refl, ap, false, some, arith, ◌==◌, nat_eq,
  inl, inr, ◌⊎◌, ◌↔◌,
}
use amarian_amr.Base.Int.{ℤ, pos, negsuc, ◌+ℤ◌, ◌*ℤ◌, pos_part, wrap_i64}
use amarian_amr.Primitives.Amount.{max_money}
use amarian_amr.Consensus.Issuance.{
  IssuanceParams, mainnet_issuance, era_of_height, retain, block_reward, era_count_loop,
  era_count_with_reward, issuance_end_height, total_loop, total_issuance,
}
use amarian_amr.Consensus.Issuance.Eras.{
  lowered, lowered-le, retained, era_reward, era_reward-zero, era_reward_antitone,
  reward_after-era_reward, eras_pay, eras_pay_last, eras_pay-zero,
}

-- The sum of the whole schedule, round by round.
total_pay : ℕ → ℕ → ℕ → ℕ
total_pay zero e r = 0
total_pay (suc fuel) e zero = 0
total_pay (suc fuel) e (suc r) = suc r * e + total_pay fuel e (lowered (suc r))

-- A round that does not overflow.
add_round :
    (t a e : ℕ)
    → t + a * e < 2 ^ 63
    → wrap_i64 (pos t +ℤ wrap_i64 (pos a *ℤ pos e)) ≡ pos (t + a * e)
unfolding ◌+ℤ◌ ◌*ℤ◌
add_round t a e h = ground arith

total_loop-negsuc :
    (fuel e n : ℕ) (t : ℤ) → total_loop fuel e (negsuc n) t ≡ total_loop fuel e (pos 0) t
unfolding total_loop
total_loop-negsuc zero e n t = refl
total_loop-negsuc (suc fuel) e n t = ground arith

-- Eight times an era's pay is more than that era and all later ones.
pay_left : (r e : ℕ) → r * e + 8 * (lowered r * e) ≤ 8 * (r * e)
pay_left r e = omega (arith, mul-le-mul_right e (lowered-le r))

-- The loop of `TotalIssuance` ends within its fuel, and no sum on the way overflows.
total_loop_lem :
    (fuel e r t : ℕ)
    → r < fuel
    → t + 8 * (r * e) < 2 ^ 63
    → total_loop fuel e (pos r) (pos t) ≡ some (pos (t + total_pay fuel e r))
unfolding total_loop total_pay
total_loop_lem zero e r t h small = absurd (omega arith)
total_loop_lem (suc fuel) e zero t h small = ap (λ x. some (pos x)) (omega arith)
total_loop_lem (suc fuel) e (suc r) t h small =
    let left = pay_left (suc r) e in
    let t' = t + suc r * e in
    ground (
      arith,
      add_round t (suc r) e (omega (arith, left)),
      retained (λ z. total_loop fuel e z (pos t')) (λ n. total_loop-negsuc fuel e n (pos t'))
          (suc r),
      total_loop_lem fuel e (lowered (suc r)) t' (omega (arith, lowered-le (suc r)))
          (omega (arith, left)),
    )

-- No number of eras pays more than that.
eras_pay-le : (fuel e k r : ℕ) → r < fuel → eras_pay e k r ≤ total_pay fuel e r
unfolding eras_pay total_pay
eras_pay-le fuel e zero r h = omega arith
eras_pay-le zero e (suc k) r h = absurd (omega arith)
eras_pay-le (suc fuel) e (suc k) zero h = omega (arith, eras_pay-zero e (suc k))
eras_pay-le (suc fuel) e (suc k) (suc r) h =
    omega (arith, eras_pay-le fuel e k (lowered (suc r)) (omega (arith, lowered-le (suc r))))

-- What the blocks below a height have paid, in base units.
unfoldable pub issued : ℕ → IssuanceParams → ℕ
issued zero p = 0
issued (suc n) p = issued n p + pos_part (block_reward n p)

block_reward-era :
    (n e r : ℕ)
    → 0 < e
    → block_reward n (record { era_blocks = e; initial_reward = pos r })
      ≡ pos (era_reward (n / e) r)
unfolding block_reward era_of_height
block_reward-era n e r h = rw positive (reward_after-era_reward (n / e) r)
  where
    positive : (e == 0) ≡ false
    positive = ground arith

-- A step within an era, and the step that ends one.
next_block :
    (n e : ℕ)
    → 0 < e
    → ((suc n / e ≡ n / e) × (suc n % e ≡ suc (n % e)))
      ⊎ ((suc n / e ≡ suc (n / e)) × (suc n % e ≡ 0) × (suc (n % e) ≡ e))
next_block n e h = grind arith

-- Whole eras, and the blocks of the one that has begun.
issued-eras :
    (n e r : ℕ)
    → 0 < e
    → issued n (record { era_blocks = e; initial_reward = pos r })
      ≡ eras_pay e (n / e) r + n % e * era_reward (n / e) r
unfolding issued
issued-eras zero e r h = rw (zero_div, zero_mod) (unfold eras_pay in omega arith)
  where
    zero_div : 0 / e ≡ 0
    zero_div = grind arith

    zero_mod : 0 % e ≡ 0
    zero_mod = grind arith
issued-eras (suc n) e r h = elim (next_block n e h) [
  | inl (same, more) ↦ rw (same, more) (omega (arith, issued-eras n e r h, paid))
  | inr (next, start, full) ↦
      rw (next, start)
        (omega (
          arith,
          issued-eras n e r h,
          paid,
          eras_pay_last e (n / e) r,
          ap (λ (t : ℕ). t * era_reward (n / e) r) full,
        ))
]
  where
    paid :
        pos_part (block_reward n (record { era_blocks = e; initial_reward = pos r }))
        ≡ era_reward (n / e) r
    paid = rw (block_reward-era n e r h)

-- For a schedule with eras of at least one block and an initial reward that is not negative, of which eight
-- times what the first era pays is below 2^63, the loop of `total_issuance` ends with a sum that is not
-- negative, and the blocks below any height are paid at most that sum together.
pub issued-le-total_issuance :
    (n e r : ℕ)
    → 0 < e
    → 8 * (r * e) < 2 ^ 63
    → (total : ℕ) × (total_issuance (record { era_blocks = e; initial_reward = pos r })
        ≡ some (pos total))
      × (issued n (record { era_blocks = e; initial_reward = pos r }) ≤ total)
unfolding total_issuance
issued-le-total_issuance n e r h small = (
  0 + total_pay (suc r) e r,
  total_loop_lem (suc r) e r 0 (omega arith) (omega arith),
  omega (
    arith,
    issued-eras n e r h,
    eras_pay_last e (n / e) r,
    eras_pay-le (suc r) e (suc (n / e)) r (omega arith),
    part_era,
  ),
)
  where
    part_era : n % e * era_reward (n / e) r ≤ e * era_reward (n / e) r
    part_era = grind arith

div_mono : (m n e : ℕ) → 0 < e → m ≤ n → m / e ≤ n / e
div_mono m n e h k = (le-div_iff_mul-le h).1 (le_trans (div-mul-le_self m e) k)

-- For a schedule with eras of at least one block and an initial reward that is not negative, no later
-- block is paid more than an earlier one.
pub block_reward_antitone :
    (m n e r : ℕ)
    → 0 < e
    → m ≤ n
    → pos_part (block_reward n (record { era_blocks = e; initial_reward = pos r }))
      ≤ pos_part (block_reward m (record { era_blocks = e; initial_reward = pos r }))
block_reward_antitone m n e r h k =
    rw (block_reward-era n e r h, block_reward-era m e r h)
      (era_reward_antitone (m / e) (n / e) r (div_mono m n e h k))

-- How many eras pay a reward.
rounds : ℕ → ℕ → ℕ
rounds zero r = 0
rounds (suc fuel) zero = 0
rounds (suc fuel) (suc r) = suc (rounds fuel (lowered (suc r)))

era_count_loop-negsuc :
    (fuel n a : ℕ) → era_count_loop fuel (negsuc n) a ≡ era_count_loop fuel (pos 0) a
unfolding era_count_loop
era_count_loop-negsuc zero n a = refl
era_count_loop-negsuc (suc fuel) n a = ground arith

era_count_loop_lem :
    (fuel r a : ℕ) → r < fuel → era_count_loop fuel (pos r) a ≡ some (a + rounds fuel r)
unfolding era_count_loop rounds
era_count_loop_lem zero r a h = absurd (omega arith)
era_count_loop_lem (suc fuel) zero a h = ap some (omega arith)
era_count_loop_lem (suc fuel) (suc r) a h = ground (
  arith,
  retained (λ z. era_count_loop fuel z (a + 1)) (λ n. era_count_loop-negsuc fuel n (a + 1)) (suc r),
  era_count_loop_lem fuel (lowered (suc r)) (a + 1) (omega (arith, lowered-le (suc r))),
)

era_reward_pos : (fuel k r : ℕ) → r < fuel → (0 < era_reward k r) ↔ (k < rounds fuel r)
unfolding era_reward rounds
era_reward_pos zero k r h = absurd (omega arith)
era_reward_pos (suc fuel) k zero h = ground (arith, era_reward-zero k)
era_reward_pos (suc fuel) zero (suc r) h = (λ _. omega arith, λ _. omega arith)
era_reward_pos (suc fuel) (suc k) (suc r) h =
    let ih = era_reward_pos fuel k (lowered (suc r)) (omega (arith, lowered-le (suc r))) in
    (λ p. omega (arith, ih.0 p), λ p. ih.1 (omega arith))

-- For a schedule with eras of at least one block and an initial reward that is not negative,
-- `issuance_end_height` ends with a height, and a block is paid exactly when it is below that height.
pub block_reward_end :
    (height e r : ℕ)
    → 0 < e
    → (end_height : ℕ) × (issuance_end_height (record { era_blocks = e; initial_reward = pos r })
        ≡ some end_height)
      × ((0 < pos_part (block_reward height (record { era_blocks = e; initial_reward = pos r })))
          ↔ (height < end_height))
unfolding issuance_end_height era_count_with_reward
block_reward_end height e r h = (
  rounds (suc r) r * e,
  rw (not_zero, era_count_loop_lem (suc r) r 0 (omega arith)) (ap some (omega arith)),
  rw (block_reward-era height e r h) (
    λ p. (div-lt_iff_lt-mul h).0 ((era_reward_pos (suc r) (height / e) r (omega arith)).0 p),
    λ q. (era_reward_pos (suc r) (height / e) r (omega arith)).1 ((div-lt_iff_lt-mul h).1 q),
  ),
)
  where
    not_zero : (e == 0) ≡ false
    not_zero = ground arith

mainnet_total : total_issuance mainnet_issuance ≡ some (pos max_money)
unfolding total_issuance total_loop retain ◌+ℤ◌ ◌*ℤ◌
mainnet_total = refl

-- The blocks of the main network below any height are paid at most `max_money` together.
pub mainnet_supply : (n : ℕ) → issued n mainnet_issuance ≤ max_money
mainnet_supply n =
    let (total, reached, bound) =
      issued-le-total_issuance n 105_000 100_000_000_000 (omega arith) (omega arith) in
    let same : pos total ≡ pos max_money = cc (reached, mainnet_total) in
    omega (arith, bound, ap pos_part same)
