-- ===== src/Consensus/Validation/Maturity.antt =====
-- The age of spent coinbases.
use amarian_amr.Base.{
  ◌⊎◌, inl, inr, Bool-cases, ℕ, ◌+◌, ◌≤◌, ◌≡◌, Bool, false, List, [], ◌∷◌, arith, All, not, length,
  ◌==◌, nat_eq,
}
use amarian_amr.Base.Int.{ℤ, pos, ◌-ℤ◌, ltb_ℤ}
use amarian_amr.Base.Result.{ok, ◌>>=◌, ◌>>◌, >>=-eq_ok, reject_if-eq_ok}
use amarian_amr.Crypto.{Backend}
use amarian_amr.Primitives.Transaction.{Transaction, is_coinbase}
use amarian_amr.Primitives.Coin.{Coin}
use amarian_amr.Consensus.Params.{ChainParams}
use amarian_amr.Consensus.Validation.{
  ValidationError, tx_coinbase_authorises_nothing, tx_spent_output_count_mismatch,
  tx_coinbase_not_mature,
}
use amarian_amr.Consensus.Validation.Structure.{check_all}
use amarian_amr.Consensus.Validation.Spend.{
  is_immature, transaction_fee, check_spend_authorisation, check_transaction_inputs,
}

check_all-eq_ok :
    {A : Type 0} (bad : A → Bool) (e : ValidationError) (xs : List A)
    → check_all bad e xs ≡ ok tt
    → All (λ (x : A). bad x ≡ false) xs
unfolding check_all
check_all-eq_ok bad e [] h = tt
check_all-eq_ok bad e (x ∷ xs) h =
    let q = reject_if-eq_ok (bad x) e (check_all bad e xs) h in (q.0, check_all-eq_ok bad e xs q.1)

-- A coin that is old enough for a block at this height: any coin, but a coinbase's has an age.
abbrev pub Mature : ℕ → ChainParams → Coin → Type 0
Mature height params coin =
    (coin.is_coinbase ≡ false) ⊎ (coin.height + params.coinbase_maturity ≤ height)

old_enough :
    (height created maturity : ℕ)
    → ltb_ℤ (pos height -ℤ pos created) (pos maturity) ≡ false
    → created + maturity ≤ height
unfolding ◌-ℤ◌
old_enough height created maturity h = ground arith

is_immature-Mature :
    (height : ℕ) (params : ChainParams) (coin : Coin)
    → is_immature height params coin ≡ false
    → Mature height params coin
unfolding is_immature
is_immature-Mature height params coin h = elim (Bool-cases coin.is_coinbase) [
  | inr c ↦ inl c
  | inl c ↦ inr (old_enough height coin.height params.coinbase_maturity (rw c at h))
]

All-Mature :
    (height : ℕ) (params : ChainParams) (coins : List Coin)
    → All (λ (c : Coin). is_immature height params c ≡ false) coins
    → All (Mature height params) coins
All-Mature height params [] h = tt
All-Mature height params (c ∷ cs) h =
    (is_immature-Mature height params c h.0, All-Mature height params cs h.1)

-- When `check_transaction_inputs` accepts, every spent coin that a coinbase created is at least
-- `coinbase_maturity` blocks below the spending height.
pub check_transaction_inputs-Mature :
    (b : Backend) (tx : Transaction) (coins : List Coin) (height : ℕ) (params : ChainParams)
    (fee : ℤ)
    → check_transaction_inputs b tx coins height params ≡ ok fee
    → All (Mature height params) coins
unfolding check_transaction_inputs
check_transaction_inputs-Mature b tx coins height params fee h =
    let a = reject_if-eq_ok (is_coinbase tx) tx_coinbase_authorises_nothing _ h in
    let c =
      reject_if-eq_ok (not (length coins == length tx.inputs)) tx_spent_output_count_mismatch _
        a.1 in
    let d =
      >>=-eq_ok (check_all (is_immature height params) tx_coinbase_not_mature coins)
        (λ _. transaction_fee tx coins >>= λ f. check_spend_authorisation b tx coins params >> ok f)
        c.1 in
    All-Mature height params coins
      (check_all-eq_ok (is_immature height params) tx_coinbase_not_mature coins d.1)
