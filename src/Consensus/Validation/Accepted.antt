-- ===== src/Consensus/Validation/Accepted.antt =====
-- What `CheckTransaction` has established when it accepts.
use amarian_amr.Base.{
  refl, ◌∙◌, Bool-cases, inl, inr, ◌⊎◌, ◌≤◌, ◌<◌, ltb, not, ◌≡◌, true, false, [], arith, length,
  if◌then◌else◌, ◌==◌, nat_eq,
}
use amarian_amr.Base.Int.{pos}
use amarian_amr.Base.Result.{
  ok, ◌>>=◌, ◌>>◌, accept, >>=-eq_ok, reject_if, reject_if-eq_ok, reject_if-eq_tt,
}
use amarian_amr.Primitives.Amount.{max_money}
use amarian_amr.Primitives.Transaction.{Transaction, is_coinbase, weight}
use amarian_amr.Consensus.Params.{ChainParams}
use amarian_amr.Consensus.Validation.{
  Verdict, tx_no_inputs, tx_no_outputs, tx_too_many_inputs, tx_too_many_outputs,
  tx_weight_too_large, tx_duplicate_input, tx_amount_out_of_range, tx_output_sum_out_of_range,
  tx_coinbase_has_witnesses, tx_coinbase_data_on_non_coinbase, tx_witness_count_mismatch,
}
use amarian_amr.Consensus.Validation.Structure.{
  check_coinbase_shape, check_spend_shape, check_spend_inputs, check_witnesses, insert_all,
  sum_amounts, amounts_of, outpoints_of, check_transaction,
}
use amarian_amr.Consensus.Validation.Fee.{total, sum_amounts_from_zero}
use amarian_amr.Consensus.Validation.Distinct.{Unrepeated, insert_all_from_nothing}

pub record Accepted (tx : Transaction) (params : ChainParams) : Type 0 where
  pub has_inputs : 0 < length tx.inputs
  pub has_outputs : 0 < length tx.outputs
  pub inputs_within : length tx.inputs ≤ params.block_limits.tx.max_inputs
  pub outputs_within : length tx.outputs ≤ params.block_limits.tx.max_outputs
  pub pays_within : total (amounts_of tx.outputs) ≤ max_money
  pub weight_within : weight tx ≤ params.max_block_weight
  pub witness_count : length tx.witnesses ≡ (if is_coinbase tx then 0 else length tx.inputs)
  pub spends_once : (is_coinbase tx ≡ true) ⊎ Unrepeated (outpoints_of tx.inputs)

shape_bare :
    (tx : Transaction) (params : ChainParams)
    → (if is_coinbase tx
        then check_coinbase_shape tx params.block_limits.tx
        else check_spend_shape tx)
      ≡ ok tt
    → is_coinbase tx ≡ true
    → length tx.witnesses ≡ 0
unfolding check_coinbase_shape
shape_bare tx params h c =
    let q =
      reject_if-eq_ok (not (length tx.witnesses == 0)) tx_coinbase_has_witnesses _ (rw c at h) in
    ground (arith, q.0)

shape_witnesses :
    (tx : Transaction) (params : ChainParams)
    → (if is_coinbase tx
        then check_coinbase_shape tx params.block_limits.tx
        else check_spend_shape tx)
      ≡ ok tt
    → is_coinbase tx ≡ false
    → length tx.witnesses ≡ length tx.inputs
unfolding check_spend_shape
shape_witnesses tx params h c =
    let q =
      reject_if-eq_ok (not (length tx.coinbase_data == 0)) tx_coinbase_data_on_non_coinbase _
        (rw c at h) in
    let r =
      reject_if-eq_ok (not (length tx.witnesses == length tx.inputs)) tx_witness_count_mismatch _
        q.1 in
    ground (arith, r.0)

witnesses_counted :
    (tx : Transaction) (params : ChainParams)
    → (if is_coinbase tx
        then check_coinbase_shape tx params.block_limits.tx
        else check_spend_shape tx)
      ≡ ok tt
    → length tx.witnesses ≡ (if is_coinbase tx then 0 else length tx.inputs)
witnesses_counted tx params h = elim (Bool-cases (is_coinbase tx)) [
  | inl c ↦ shape_bare tx params h c ∙ rw c refl
  | inr c ↦ shape_witnesses tx params h c ∙ rw c refl
]

inputs_once :
    (tx : Transaction) (params : ChainParams)
    → (if is_coinbase tx then accept else check_spend_inputs tx params) ≡ ok tt
    → (is_coinbase tx ≡ true) ⊎ Unrepeated (outpoints_of tx.inputs)
unfolding check_spend_inputs
inputs_once tx params h = elim (Bool-cases (is_coinbase tx)) [
  | inl c ↦ inl c
  | inr c ↦
      let q =
        >>=-eq_ok (insert_all tx_duplicate_input [] (outpoints_of tx.inputs))
          (λ seen. check_witnesses tx.witnesses params) (rw c at h) in
      inr (insert_all_from_nothing tx_duplicate_input (outpoints_of tx.inputs) q.0 q.1)
]

-- When `check_transaction` accepts, the transaction has inputs and outputs within the limits, its
-- outputs hold at most `max_money` together, its weight is within the limit of a block, it has no
-- witness if it is a coinbase and one for each input otherwise, and unless it is a coinbase it names no
-- outpoint twice.
pub check_transaction-Accepted :
    (tx : Transaction) (params : ChainParams)
    → check_transaction tx params ≡ ok tt
    → Accepted tx params
unfolding check_transaction
check_transaction-Accepted tx params h =
    let limits = params.block_limits.tx in
    let shape : Verdict =
      if is_coinbase tx then check_coinbase_shape tx limits else check_spend_shape tx in
    let rules : Verdict = if is_coinbase tx then accept else check_spend_inputs tx params in
    let heavy : Verdict = reject_if (ltb params.max_block_weight (weight tx)) tx_weight_too_large in
    let sum =
      sum_amounts tx_amount_out_of_range tx_output_sum_out_of_range (pos 0)
        (amounts_of tx.outputs) in
    let a = reject_if-eq_ok (length tx.inputs == 0) tx_no_inputs _ h in
    let b = reject_if-eq_ok (length tx.outputs == 0) tx_no_outputs _ a.1 in
    let c = reject_if-eq_ok (ltb limits.max_inputs (length tx.inputs)) tx_too_many_inputs _ b.1 in
    let d =
      reject_if-eq_ok (ltb limits.max_outputs (length tx.outputs)) tx_too_many_outputs _ c.1 in
    let e = >>=-eq_ok shape (λ _. sum >>= λ amount. rules >> heavy) d.1 in
    let f = >>=-eq_ok sum (λ amount. rules >> heavy) e.2 in
    let g = >>=-eq_ok rules (λ _. heavy) f.2 in
    let s =
      sum_amounts_from_zero tx_amount_out_of_range tx_output_sum_out_of_range
        (amounts_of tx.outputs) f.0 f.1 in
    let w = reject_if-eq_tt (ltb params.max_block_weight (weight tx)) tx_weight_too_large g.2 in
    record {
      has_inputs = ground (arith, a.0);
      has_outputs = ground (arith, b.0);
      inputs_within = ground (arith, c.0);
      outputs_within = ground (arith, d.0);
      pays_within = s.1;
      weight_within = ground (arith, w);
      witness_count = witnesses_counted tx params e.1;
      spends_once = inputs_once tx params g.1;
    }
