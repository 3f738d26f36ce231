-- ===== src/Consensus/Validation/Spend.antt =====
-- The checks of a transaction against the coins it spends: `TransactionFee`,
-- `CheckSpendAuthorisation` and `CheckTransactionInputs`.
use amarian_amr.Base.{
  ℕ, suc, Bool, not, ◌&&◌, List, [], ◌∷◌, map, length, if◌then◌else◌, ◌==◌, nat_eq, list_eq,
}
use amarian_amr.Base.Int.{ℤ, pos, ◌-ℤ◌, ltb_ℤ}
use amarian_amr.Base.Result.{ok, err, ◌>>=◌, ◌>>◌, reject_if, accept}
use amarian_amr.Crypto.{
  Backend, VerifyResult, valid, invalid, reserved, unknown_scheme, malformed, verify,
}
use amarian_amr.Primitives.Hash.{Hash256}
use amarian_amr.Primitives.OutPoint.{outpoint_eq}
use amarian_amr.Primitives.Lock
use amarian_amr.Primitives.Lock.{Lock, is_unspendable}
use amarian_amr.Primitives.SpendCondition.{SpendCondition, PublicKey, Signature, version_threshold}
use amarian_amr.Primitives.Witness.{Witness}
use amarian_amr.Primitives.Coin.{Coin}
use amarian_amr.Primitives.Digests.{
  SigHashMidstates, compute_sighash_midstates, signature_hash, spend_condition_commitment,
}
use amarian_amr.Primitives.Transaction.{Transaction, is_coinbase}
use amarian_amr.Consensus.Params.{ChainParams}
use amarian_amr.Consensus.Validation.{
  Verdict, Computed, tx_output_sum_out_of_range, tx_witness_count_mismatch,
  witness_signature_scheme_reserved, tx_coinbase_authorises_nothing, tx_spent_output_count_mismatch,
  tx_spends_unspendable_output, tx_condition_does_not_match_lock, tx_signature_does_not_verify,
  tx_input_sum_out_of_range, tx_outputs_exceed_inputs, tx_coinbase_not_mature,
}
use amarian_amr.Consensus.Validation.Structure.{check_all, sum_amounts, amounts_of}

abbrev pub coin_amounts : List Coin → List ℤ
coin_amounts coins = map (λ (c : Coin). c.output.amount) coins

unfoldable pub subtract_paid : ℤ → ℤ → Computed ℤ
subtract_paid spent paid =
    if ltb_ℤ spent paid then err tx_outputs_exceed_inputs else ok (spent -ℤ paid)

unfoldable pub transaction_fee : Transaction → List Coin → Computed ℤ
transaction_fee tx spent_coins = do
  reject_if (is_coinbase tx) tx_coinbase_authorises_nothing
  reject_if (not (length spent_coins == length tx.inputs)) tx_spent_output_count_mismatch
  spent ←
      sum_amounts tx_input_sum_out_of_range tx_input_sum_out_of_range (pos 0)
        (coin_amounts spent_coins)
  paid ←
      sum_amounts tx_output_sum_out_of_range tx_output_sum_out_of_range (pos 0)
        (amounts_of tx.outputs)
  subtract_paid spent paid

-- A coinbase's coin is spent only when it is old enough; the age is an `int64_t`.
unfoldable pub is_immature : ℕ → ChainParams → Coin → Bool
is_immature spend_height params coin =
    coin.is_coinbase && ltb_ℤ (pos spend_height -ℤ pos coin.height) (pos params.coinbase_maturity)

-- What the walk over the keys does with one answer: the keys left when it settles the signature.
abbrev pub settle :
    VerifyResult → List PublicKey → Computed (List PublicKey) → Computed (List PublicKey)
settle valid keys next = ok keys
settle unknown_scheme keys next = ok keys
settle invalid keys next = next
settle malformed keys next = next
settle reserved keys next = err witness_signature_scheme_reserved

module _ (b : Backend) where
  -- The inner `while`: the keys after the first that answers the signature.
  unfoldable pub match_signature : List PublicKey → Signature → Hash256 → Computed (List PublicKey)
  match_signature [] signature message = err tx_signature_does_not_verify
  match_signature (key ∷ keys) signature message =
      let next = match_signature keys signature message in
      if not (key.scheme == signature.scheme)
      then next
      else settle (verify b signature.scheme key.bytes signature.bytes message) keys next

  -- The outer loop of `SatisfiesThreshold`, on the keys not yet consumed.
  unfoldable pub match_signatures : List PublicKey → List Signature → Hash256 → Verdict
  match_signatures keys [] message = accept
  match_signatures keys (signature ∷ signatures) message =
      match_signature keys signature message >>= λ left. match_signatures left signatures message

  unfoldable pub satisfies_threshold : Witness → Hash256 → Verdict
  satisfies_threshold witness message =
      match_signatures witness.condition.keys witness.signatures message

  -- `MatchesConditionCommitment`.
  unfoldable pub matches_condition_commitment : Lock → SpendCondition → Bool
  matches_condition_commitment lock condition =
      lock.version == Lock.version_condition_commitment
      && lock.program == spend_condition_commitment b condition

  -- One round of the loop over the inputs.
  unfoldable pub check_input :
      Transaction → SigHashMidstates → ℕ → Coin → Witness → ChainParams → Verdict
  check_input tx midstates index coin witness params =
      if is_unspendable coin.output.lock
      then err tx_spends_unspendable_output
      else if not (coin.output.lock.version == Lock.version_condition_commitment)
      then accept
      else if not (matches_condition_commitment coin.output.lock witness.condition)
      then err tx_condition_does_not_match_lock
      else if not (witness.condition.version == version_threshold)
      then accept
      else satisfies_threshold witness
          (signature_hash b params.chain_id tx midstates index coin.output.amount witness.condition)

  unfoldable pub check_inputs :
      Transaction → SigHashMidstates → ℕ → List Coin → List Witness → ChainParams → Verdict
  check_inputs tx midstates index [] witnesses params = accept
  check_inputs tx midstates index (coin ∷ coins) [] params = accept
  check_inputs tx midstates index (coin ∷ coins) (witness ∷ witnesses) params =
      check_input tx midstates index coin witness params
      >> check_inputs tx midstates (suc index) coins witnesses params

  unfoldable pub check_spend_authorisation : Transaction → List Coin → ChainParams → Verdict
  check_spend_authorisation tx spent_coins params = do
    reject_if (is_coinbase tx) tx_coinbase_authorises_nothing
    reject_if (not (length spent_coins == length tx.inputs)) tx_spent_output_count_mismatch
    reject_if (not (length tx.witnesses == length tx.inputs)) tx_witness_count_mismatch
    check_inputs tx (compute_sighash_midstates b tx) 0 spent_coins tx.witnesses params

  unfoldable pub check_transaction_inputs : Transaction → List Coin → ℕ → ChainParams → Computed ℤ
  check_transaction_inputs tx spent_coins spend_height params = do
    reject_if (is_coinbase tx) tx_coinbase_authorises_nothing
    reject_if (not (length spent_coins == length tx.inputs)) tx_spent_output_count_mismatch
    check_all (is_immature spend_height params) tx_coinbase_not_mature spent_coins
    fee ← transaction_fee tx spent_coins
    check_spend_authorisation tx spent_coins params
    ok fee
