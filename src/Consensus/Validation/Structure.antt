-- ===== src/Consensus/Validation/Structure.antt =====
-- The checks that look at one value alone: `CheckSpendCondition`, `CheckWitness` and
-- `CheckTransaction`. A `std::unordered_set` is the list of its elements.
use amarian_amr.Base.{
  ℕ, Bool, true, false, not, ◌&&◌, ◌||◌, Option, some, none, List, [], ◌∷◌, map, length, ltb,
  if◌then◌else◌, ◌==◌, nat_eq, list_eq,
}
use amarian_amr.Base.Int.{ℤ, pos}
use amarian_amr.Base.Result.{ok, err, ◌>>=◌, ◌>>◌, reject_if, accept}
use amarian_amr.Crypto.{SchemeSpec, find_scheme}
use amarian_amr.Primitives.Amount.{is_valid_amount, try_accumulate}
use amarian_amr.Primitives.Hash.{is_zero}
use amarian_amr.Primitives.OutPoint.{OutPoint, outpoint_eq}
use amarian_amr.Primitives.SpendCondition.{
  SpendCondition, PublicKey, Signature, scheme_reserved, version_reserved, version_threshold,
}
use amarian_amr.Primitives.Witness.{Witness}
use amarian_amr.Primitives.Transaction.{
  Transaction, TxInput, TxOutput, TxLimits, is_coinbase, weight, coinbase_outpoint_index,
}
use amarian_amr.Consensus.Params.{ChainParams}
use amarian_amr.Consensus.Validation.{
  ValidationError, Verdict, Computed, tx_no_inputs, tx_no_outputs, tx_duplicate_input,
  tx_null_outpoint, tx_amount_out_of_range, tx_output_sum_out_of_range, tx_weight_too_large,
  tx_too_many_inputs, tx_too_many_outputs, tx_witness_count_mismatch, tx_coinbase_has_witnesses,
  tx_coinbase_data_too_large, tx_coinbase_data_on_non_coinbase, condition_version_reserved,
  condition_no_keys, condition_too_many_keys, condition_keys_not_strictly_ordered,
  condition_key_scheme_reserved, condition_threshold_zero, condition_threshold_above_key_count,
  witness_signature_count_mismatch, witness_signature_scheme_reserved, condition_key_wrong_size,
  witness_signature_wrong_size,
}

abbrev key_size_differs : PublicKey → Option SchemeSpec → Bool
key_size_differs key none = false
key_size_differs key (some spec) = not (length key.bytes == spec.public_key_bytes)

unfoldable pub has_wrong_public_key_size : PublicKey → Bool
has_wrong_public_key_size key = key_size_differs key (find_scheme key.scheme)

abbrev signature_size_differs : Signature → Option SchemeSpec → Bool
signature_size_differs signature none = false
signature_size_differs signature (some spec) = not (length signature.bytes == spec.signature_bytes)

unfoldable pub has_wrong_signature_size : Signature → Bool
has_wrong_signature_size signature = signature_size_differs signature (find_scheme signature.scheme)

-- `operator<` of byte strings.
unfoldable pub bytes_less : List ℕ → List ℕ → Bool
bytes_less [] [] = false
bytes_less [] (b ∷ bs) = true
bytes_less (a ∷ as') [] = false
bytes_less (a ∷ as') (b ∷ bs) = ltb a b || (a == b && bytes_less as' bs)

-- The default `operator<=>`: the scheme first, then the bytes.
unfoldable pub key_less : PublicKey → PublicKey → Bool
key_less a b = ltb a.scheme b.scheme || (a.scheme == b.scheme && bytes_less a.bytes b.bytes)

-- The test `index > 0 && !(keys[index - 1] < keys[index])`.
abbrev pub out_of_order : Option PublicKey → PublicKey → Bool
out_of_order none key = false
out_of_order (some previous) key = not (key_less previous key)

unfoldable pub check_keys : Option PublicKey → List PublicKey → Verdict
check_keys previous [] = accept
check_keys previous (key ∷ keys) = do
  reject_if (key.scheme == scheme_reserved) condition_key_scheme_reserved
  reject_if (has_wrong_public_key_size key) condition_key_wrong_size
  reject_if (out_of_order previous key) condition_keys_not_strictly_ordered
  check_keys (some key) keys

-- The rules of a condition of the version that this node knows.
unfoldable pub check_threshold_condition : SpendCondition → ChainParams → Verdict
check_threshold_condition condition params = do
  reject_if (length condition.keys == 0) condition_no_keys
  reject_if (ltb params.block_limits.tx.witness.max_keys (length condition.keys))
      condition_too_many_keys
  reject_if (condition.threshold == 0) condition_threshold_zero
  reject_if (ltb (length condition.keys) condition.threshold) condition_threshold_above_key_count
  check_keys none condition.keys

unfoldable pub check_spend_condition : SpendCondition → ChainParams → Verdict
check_spend_condition condition params =
    if condition.version == version_reserved
    then err condition_version_reserved
    else if not (condition.version == version_threshold)
    then accept
    else check_threshold_condition condition params

unfoldable pub check_all {ℓ} : {A : Type ℓ} → (A → Bool) → ValidationError → List A → Verdict
check_all bad e [] = accept
check_all bad e (x ∷ xs) = reject_if (bad x) e >> check_all bad e xs

unfoldable pub check_signature_sizes : Witness → Verdict
check_signature_sizes witness =
    if witness.condition.version == version_threshold
    then check_all has_wrong_signature_size witness_signature_wrong_size witness.signatures
    else accept

unfoldable pub check_witness : Witness → ChainParams → Verdict
check_witness witness params = do
  check_spend_condition witness.condition params
  reject_if
      (witness.condition.version == version_threshold
        && not (length witness.signatures == witness.condition.threshold))
      witness_signature_count_mismatch
  check_all (λ (s : Signature). s.scheme == scheme_reserved) witness_signature_scheme_reserved
      witness.signatures
  check_signature_sizes witness

-- The input's outpoint is the one that marks a coinbase.
abbrev pub names_sentinel : TxInput → Bool
names_sentinel input =
    is_zero input.outpoint.txid && input.outpoint.index == coinbase_outpoint_index

unfoldable pub check_coinbase_shape : Transaction → TxLimits → Verdict
check_coinbase_shape tx limits = do
  reject_if (not (length tx.witnesses == 0)) tx_coinbase_has_witnesses
  reject_if (ltb limits.max_coinbase_data_size (length tx.coinbase_data)) tx_coinbase_data_too_large

unfoldable pub check_spend_shape : Transaction → Verdict
check_spend_shape tx = do
  reject_if (not (length tx.coinbase_data == 0)) tx_coinbase_data_on_non_coinbase
  reject_if (not (length tx.witnesses == length tx.inputs)) tx_witness_count_mismatch
  check_all names_sentinel tx_null_outpoint tx.inputs

abbrev out_of_range : ValidationError → Option ℤ → Computed ℤ
out_of_range e none = err e
out_of_range e (some total) = if is_valid_amount total then ok total else err e

-- The body of the loops that add amounts up: a bad amount is `bad`, a bad running total is `e`.
unfoldable pub accumulate : ValidationError → ValidationError → ℤ → ℤ → Computed ℤ
accumulate bad e total amount =
    if is_valid_amount amount then out_of_range e (try_accumulate total amount) else err bad

unfoldable pub sum_amounts : ValidationError → ValidationError → ℤ → List ℤ → Computed ℤ
sum_amounts bad e total [] = ok total
sum_amounts bad e total (amount ∷ amounts) =
    accumulate bad e total amount >>= λ sum. sum_amounts bad e sum amounts

abbrev pub amounts_of : List TxOutput → List ℤ
amounts_of outputs = map (λ (o : TxOutput). o.amount) outputs

abbrev pub outpoints_of : List TxInput → List OutPoint
outpoints_of inputs = map (λ (i : TxInput). i.outpoint) inputs

unfoldable pub is_seen : OutPoint → List OutPoint → Bool
is_seen o [] = false
is_seen o (p ∷ ps) = o == p || is_seen o ps

-- `if (!seen.insert(outpoint).second)`, with `e` for a repeat and the set when there is none.
unfoldable pub insert_all :
    ValidationError → List OutPoint → List OutPoint → Computed (List OutPoint)
insert_all e seen [] = ok seen
insert_all e seen (o ∷ os) = reject_if (is_seen o seen) e >> insert_all e (o ∷ seen) os

unfoldable pub check_witnesses : List Witness → ChainParams → Verdict
check_witnesses [] params = accept
check_witnesses (witness ∷ witnesses) params =
    check_witness witness params >> check_witnesses witnesses params

unfoldable pub check_spend_inputs : Transaction → ChainParams → Verdict
check_spend_inputs tx params = insert_all tx_duplicate_input [] (outpoints_of tx.inputs) >>= λ seen.
    check_witnesses tx.witnesses params

unfoldable pub check_transaction : Transaction → ChainParams → Verdict
check_transaction tx params = do
  reject_if (length tx.inputs == 0) tx_no_inputs
  reject_if (length tx.outputs == 0) tx_no_outputs
  reject_if (ltb params.block_limits.tx.max_inputs (length tx.inputs)) tx_too_many_inputs
  reject_if (ltb params.block_limits.tx.max_outputs (length tx.outputs)) tx_too_many_outputs
  if is_coinbase tx then check_coinbase_shape tx params.block_limits.tx else check_spend_shape tx
  total ←
      sum_amounts tx_amount_out_of_range tx_output_sum_out_of_range (pos 0) (amounts_of tx.outputs)
  if is_coinbase tx then accept else check_spend_inputs tx params
  reject_if (ltb params.max_block_weight (weight tx)) tx_weight_too_large
