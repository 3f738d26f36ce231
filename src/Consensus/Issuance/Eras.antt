-- ===== src/Consensus/Issuance/Eras.antt =====
-- The rewards of include/amarian/consensus/issuance.hpp, era by era.

use amarian_amr.Base.{ℕ, zero, suc, ◌+◌, ◌*◌, ◌≤◌, ◌≡◌, refl, ap, sym, arith, nat_eq}
use amarian_amr.Base.Int.{ℤ, pos, negsuc, ◌*ℤ◌, pos_part}
use amarian_amr.Consensus.Issuance.{retain, reward_after}

-- What a positive reward is retained as, and 0 where the product wraps below zero.
unfoldable pub lowered : ℕ → ℕ
lowered r = pos_part (retain (pos r))

-- A product that does not wrap leaves seven eighths, and one that wraps leaves less.
pub lowered-le : (r : ℕ) → 8 * lowered r ≤ 7 * r
unfolding lowered retain ◌*ℤ◌
lowered-le r = ground arith

pub lowered-zero : lowered 0 ≡ 0
lowered-zero = omega (arith, lowered-le 0)

-- What treats a negative reward as none does not tell `retain` from `lowered`.
pub retained :
    {A : Type 0} (f : ℤ → A)
    → ((n : ℕ) → f (negsuc n) ≡ f (pos 0))
    → (r : ℕ) → f (retain (pos r)) ≡ f (pos (lowered r))
unfolding lowered
retained {A} f none_left r = go (retain (pos r))
  where
    go : (z : ℤ) → f z ≡ f (pos (pos_part z))
    go (pos n) = refl
    go (negsuc n) = none_left n

-- The reward of era `k` when era 0 pays `r`.
unfoldable pub era_reward : ℕ → ℕ → ℕ
era_reward zero r = r
era_reward (suc k) r = era_reward k (lowered r)

pub era_reward-zero : (k : ℕ) → era_reward k 0 ≡ 0
unfolding era_reward
era_reward-zero zero = refl
era_reward-zero (suc k) = rw lowered-zero (era_reward-zero k)

era_reward-le : (k r : ℕ) → era_reward k r ≤ r
unfolding era_reward
era_reward-le zero r = omega arith
era_reward-le (suc k) r = omega (arith, era_reward-le k (lowered r), lowered-le r)

pub era_reward_antitone : (j k r : ℕ) → j ≤ k → era_reward k r ≤ era_reward j r
unfolding era_reward
era_reward_antitone zero k r h = era_reward-le k r
era_reward_antitone (suc j) zero r h = absurd (omega arith)
era_reward_antitone (suc j) (suc k) r h = era_reward_antitone j k (lowered r) (omega arith)

reward_after-negsuc : (k n : ℕ) → reward_after k (negsuc n) ≡ reward_after k (pos 0)
unfolding reward_after
reward_after-negsuc zero n = ground arith
reward_after-negsuc (suc k) n = ground arith

pub reward_after-era_reward : (k r : ℕ) → reward_after k (pos r) ≡ pos (era_reward k r)
unfolding reward_after era_reward
reward_after-era_reward zero r = ground arith
reward_after-era_reward (suc k) zero = ap pos (sym (era_reward-zero (suc k)))
reward_after-era_reward (suc k) (suc r) = ground (
  arith,
  retained (reward_after k) (reward_after-negsuc k) (suc r),
  reward_after-era_reward k (lowered (suc r)),
)

-- What the first `k` eras pay, `e` blocks each.
unfoldable pub eras_pay : ℕ → ℕ → ℕ → ℕ
eras_pay e zero r = 0
eras_pay e (suc k) r = e * r + eras_pay e k (lowered r)

pub eras_pay_last : (e k r : ℕ) → eras_pay e (suc k) r ≡ eras_pay e k r + e * era_reward k r
unfolding eras_pay era_reward
eras_pay_last e zero r = omega arith
eras_pay_last e (suc k) r = omega (arith, eras_pay_last e k (lowered r))

pub eras_pay-zero : (e k : ℕ) → eras_pay e k 0 ≡ 0
unfolding eras_pay
eras_pay-zero e zero = refl
eras_pay-zero e (suc k) = rw lowered-zero (omega (arith, eras_pay-zero e k))
