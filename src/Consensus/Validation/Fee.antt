-- ===== src/Consensus/Validation/Fee.antt =====
-- What the accepted sums are: the fee of a transaction and the claim of a coinbase.
use amarian_amr.Base.{
  ℕ, ◌+◌, ◌-◌, ◌≤◌, not, ◌≡◌, sym, ap, ◌∙◌, subst, false, List, [], ◌∷◌, inl, inr, arith, length,
  ◌==◌, nat_eq, Bool-cases,
}
use amarian_amr.Base.Int.{ℤ, pos, negsuc, pos_part, ◌+ℤ◌, ltb_ℤ, pos-minus_pos}
use amarian_amr.Base.Result.{
  ok, ◌>>=◌, ◌>>◌, >>=-eq_ok, reject_if, reject_if-eq_ok, reject_if-eq_tt,
}
use amarian_amr.Crypto.{Backend}
use amarian_amr.Primitives.Amount.{
  max_money, checked_add, is_valid_amount, try_accumulate, valid_amount-pos, checked_add-valid,
  pos-valid_amount, valid_pos-le,
}
use amarian_amr.Primitives.Transaction.{Transaction, is_coinbase}
use amarian_amr.Primitives.Coin.{Coin}
use amarian_amr.Consensus.Validation.{
  ValidationError, Computed, tx_coinbase_not_mature, tx_coinbase_authorises_nothing,
  tx_spent_output_count_mismatch, tx_input_sum_out_of_range, tx_output_sum_out_of_range,
  block_first_tx_not_coinbase, block_fees_out_of_range, block_coinbase_pays_too_much,
}
use amarian_amr.Consensus.Params.{ChainParams}
use amarian_amr.Consensus.Issuance.{block_reward}
use amarian_amr.Primitives.Block.{Block}
use amarian_amr.Consensus.Validation.Blocks.{
  front_is_coinbase, coinbase_outputs, exceeds_permitted, check_coinbase_amount,
}
use amarian_amr.Consensus.Validation.Structure.{check_all, accumulate, sum_amounts, amounts_of}
use amarian_amr.Consensus.Validation.Spend.{
  coin_amounts, subtract_paid, transaction_fee, is_immature, check_spend_authorisation,
  check_transaction_inputs,
}

-- The sum of amounts that are not negative.
unfoldable pub total : List ℤ → ℕ
total [] = 0
total (a ∷ as') = pos_part a + total as'

accumulate_pos-eq_ok :
    (bad e : ValidationError) (n m : ℕ) (r : ℤ)
    → n ≤ max_money
    → m ≤ max_money
    → accumulate bad e (pos n) (pos m) ≡ ok r
    → (r ≡ pos (n + m)) × (n + m ≤ max_money)
unfolding accumulate try_accumulate
accumulate_pos-eq_ok bad e n m r h l k = elim (Bool-cases (is_valid_amount (pos (n + m)))) [
  | inl q ↦
      (cc (rw (pos-valid_amount m l, checked_add-valid n m h l, q) at k), valid_pos-le (n + m) q)
  | inr q ↦ absurd (cc (rw (pos-valid_amount m l, checked_add-valid n m h l, q) at k))
]

accumulate-eq_ok :
    (bad e : ValidationError) (n : ℕ) (a r : ℤ)
    → n ≤ max_money
    → accumulate bad e (pos n) a ≡ ok r
    → (r ≡ pos (n + pos_part a)) × (n + pos_part a ≤ max_money)
unfolding accumulate
accumulate-eq_ok bad e n a r h k = elim (Bool-cases (is_valid_amount a)) [
  | inr q ↦ absurd (cc (rw q at k))
  | inl q ↦
      let v = valid_amount-pos a q in
      subst (λ z. (r ≡ pos (n + pos_part z)) × (n + pos_part z ≤ max_money)) (sym v.1)
        (accumulate_pos-eq_ok bad e n v.0 r h v.2 (rw v.1 at k))
]

-- A sum that is accepted is the true sum, and at most `max_money`.
pub sum_amounts-eq_ok :
    (bad e : ValidationError) (n : ℕ) (as' : List ℤ) (r : ℤ)
    → n ≤ max_money
    → sum_amounts bad e (pos n) as' ≡ ok r
    → (r ≡ pos (n + total as')) × (n + total as' ≤ max_money)
unfolding sum_amounts total
sum_amounts-eq_ok bad e n [] r h k = (cc (k, zero_more), omega arith)
  where
    zero_more : n + 0 ≡ n
    zero_more = omega arith
sum_amounts-eq_ok bad e n (a ∷ as') r h k =
    let q = >>=-eq_ok (accumulate bad e (pos n) a) (λ sum. sum_amounts bad e sum as') k in
    let one = accumulate-eq_ok bad e n a q.0 h q.1 in
    let rest = sum_amounts-eq_ok bad e (n + pos_part a) as' r one.1 (rw (sym one.0) (q.2)) in
    (rest.0 ∙ ap pos (omega arith), omega (arith, rest.1))

pub sum_amounts_from_zero :
    (bad e : ValidationError) (as' : List ℤ) (r : ℤ)
    → sum_amounts bad e (pos 0) as' ≡ ok r
    → (r ≡ pos (total as')) × (total as' ≤ max_money)
sum_amounts_from_zero bad e as' r h =
    let q = sum_amounts-eq_ok bad e 0 as' r (omega arith) h in
    (q.0 ∙ ap pos (omega arith), omega (arith, q.1))

subtract_paid-eq_ok :
    (spent paid : ℕ) (r : ℤ)
    → subtract_paid (pos spent) (pos paid) ≡ ok r
    → (n : ℕ) × (r ≡ pos n) × (spent ≡ n + paid)
unfolding subtract_paid
subtract_paid-eq_ok spent paid r h = elim (Bool-cases (ltb_ℤ (pos spent) (pos paid))) [
  | inl q ↦ absurd (cc (rw q at h))
  | inr q ↦
      let d = pos-minus_pos spent paid q in (spent - paid, cc (d.0, rw q at h), omega (arith, d.1))
]

-- An accepted fee is exactly what the spent coins hold and the outputs do not take; both sums are
-- within `max_money`, and the transaction is no coinbase and has one coin for each input.
pub transaction_fee-eq_ok :
    (tx : Transaction) (coins : List Coin) (r : ℤ)
    → transaction_fee tx coins ≡ ok r
    → (n : ℕ) × (r ≡ pos n)
      × (total (coin_amounts coins) ≡ n + total (amounts_of tx.outputs))
      × (total (coin_amounts coins) ≤ max_money)
      × (is_coinbase tx ≡ false)
      × (length coins ≡ length tx.inputs)
unfolding transaction_fee
transaction_fee-eq_ok tx coins r h =
    let a = reject_if-eq_ok (is_coinbase tx) tx_coinbase_authorises_nothing _ h in
    let b =
      reject_if-eq_ok (not (length coins == length tx.inputs)) tx_spent_output_count_mismatch _
        a.1 in
    let p =
      >>=-eq_ok
        (sum_amounts tx_input_sum_out_of_range tx_input_sum_out_of_range (pos 0)
          (coin_amounts coins))
        (λ spent.
          sum_amounts tx_output_sum_out_of_range tx_output_sum_out_of_range (pos 0)
            (amounts_of tx.outputs)
          >>= subtract_paid spent)
        b.1 in
    let q =
      >>=-eq_ok
        (sum_amounts tx_output_sum_out_of_range tx_output_sum_out_of_range (pos 0)
          (amounts_of tx.outputs))
        (λ paid. subtract_paid p.0 paid) p.2 in
    let spent =
      sum_amounts_from_zero tx_input_sum_out_of_range tx_input_sum_out_of_range (coin_amounts coins)
        p.0 p.1 in
    let paid =
      sum_amounts_from_zero tx_output_sum_out_of_range tx_output_sum_out_of_range
        (amounts_of tx.outputs) q.0 q.1 in
    let f =
      subtract_paid-eq_ok (total (coin_amounts coins)) (total (amounts_of tx.outputs)) r
        (rw (sym spent.0, sym paid.0) (q.2)) in
    (f.0, f.1, omega (arith, f.2), omega (arith, spent.1), a.0, ground (arith, b.0))

permitted-le :
    (claimed fees : ℕ) (reward : ℤ)
    → exceeds_permitted (pos claimed) (checked_add reward (pos fees)) ≡ false
    → claimed ≤ pos_part reward + fees
unfolding checked_add ◌+ℤ◌
permitted-le claimed fees (pos reward) h = ground arith
permitted-le claimed fees (negsuc reward) h = ground arith

-- When `check_coinbase_amount` accepts a block with fees that are not negative, the outputs of its
-- first transaction hold at most the positive part of the reward scheduled for its height and the fees.
pub check_coinbase_amount-eq_ok :
    (block : Block) (fees : ℕ) (params : ChainParams)
    → check_coinbase_amount block (pos fees) params ≡ ok tt
    → total (amounts_of (coinbase_outputs block.transactions))
      ≤ pos_part (block_reward block.header.height params.issuance) + fees
unfolding check_coinbase_amount
check_coinbase_amount-eq_ok block fees params h =
    let a =
      reject_if-eq_ok (not (front_is_coinbase block.transactions)) block_first_tx_not_coinbase _
        h in
    let b = reject_if-eq_ok (not (is_valid_amount (pos fees))) block_fees_out_of_range _ a.1 in
    let amounts = amounts_of (coinbase_outputs block.transactions) in
    let reward = block_reward block.header.height params.issuance in
    let p =
      >>=-eq_ok (sum_amounts tx_output_sum_out_of_range tx_output_sum_out_of_range (pos 0) amounts)
        (λ claimed.
          reject_if (exceeds_permitted claimed (checked_add reward (pos fees)))
            block_coinbase_pays_too_much)
        b.1 in
    let claimed =
      sum_amounts_from_zero tx_output_sum_out_of_range tx_output_sum_out_of_range amounts p.0 p.1 in
    permitted-le (total amounts) fees reward (
      reject_if-eq_tt (exceeds_permitted (pos (total amounts)) (checked_add reward (pos fees)))
        block_coinbase_pays_too_much (rw (sym claimed.0) (p.2)))

-- When `check_transaction_inputs` accepts, the fee is not negative, the spent coins hold exactly the fee
-- and what the outputs hold, that sum is at most `max_money`, the transaction is no coinbase, and there
-- is one coin for each input.
pub check_transaction_inputs-fee :
    (b : Backend) (tx : Transaction) (coins : List Coin) (height : ℕ) (params : ChainParams) (r : ℤ)
    → check_transaction_inputs b tx coins height params ≡ ok r
    → (n : ℕ) × (r ≡ pos n)
      × (total (coin_amounts coins) ≡ n + total (amounts_of tx.outputs))
      × (total (coin_amounts coins) ≤ max_money)
      × (is_coinbase tx ≡ false)
      × (length coins ≡ length tx.inputs)
unfolding check_transaction_inputs
check_transaction_inputs-fee b tx coins height params r h =
    let a = reject_if-eq_ok (is_coinbase tx) tx_coinbase_authorises_nothing _ h in
    let c =
      reject_if-eq_ok (not (length coins == length tx.inputs)) tx_spent_output_count_mismatch _
        a.1 in
    let rest : ℤ → Computed ℤ = λ fee. check_spend_authorisation b tx coins params >> ok fee in
    let d =
      >>=-eq_ok (check_all (is_immature height params) tx_coinbase_not_mature coins)
        (λ _. transaction_fee tx coins >>= rest) c.1 in
    let e = >>=-eq_ok (transaction_fee tx coins) rest d.2 in
    let f = >>=-eq_ok (check_spend_authorisation b tx coins params) (λ _. ok e.0) e.2 in
    let same : e.0 ≡ r = cc (f.2) in transaction_fee-eq_ok tx coins r (rw (sym same) (e.1))
