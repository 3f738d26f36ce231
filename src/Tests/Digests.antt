-- ===== src/Tests/Digests.antt =====
-- The digests of the small chain, and the comparison with a target.
use amarian_amr.Base.{
  ℕ, zero, suc, ◌+◌, ◌⊎◌, ◌^◌, ◌≤◌, ◌<◌, ◌≡◌, ◌↔◌, not, refl, true, is_some, List, [], ◌∷◌, length,
  replicate, ◌==◌, nat_eq, arith,
}
use amarian_amr.Base.Int.{pos}
use amarian_amr.Base.Bytes.{AllBytes, le_value}
use amarian_amr.Base.Result.{ok}
use amarian_amr.Primitives.Hash.{Hash256, IsHash}
use amarian_amr.Primitives.Transaction.{Transaction}
use amarian_amr.Primitives.Digests.{
  signature_hash_preimage, compute_sighash_midstates, signature_hash, compute_merkle_root,
}
use amarian_amr.Primitives.Digests.Merkle.{compute_merkle_root-total}
use amarian_amr.Primitives.Digests.Preimage.{Signed, FitsFields, HashesAre32Bytes}
use amarian_amr.Primitives.Digests.Binding.{
  Collision, FitsSigned, SameSigned, signature_hash_of, signature_hash-binds,
}
use amarian_amr.Primitives.Amount.{is_valid_amount}
use amarian_amr.Primitives.SpendCondition
use amarian_amr.Primitives.SpendCondition.{FitsKey}
use amarian_amr.Primitives.Transaction.Codec.{FitsOutput, FitsInputs, FitsOutputs}
use amarian_amr.Consensus.Params.{
  regtest_params, consensus_tx_limits, max_spend_condition_keys, max_public_key_bytes,
  max_lock_program_bytes,
}
use amarian_amr.Consensus.Target.{hash_meets_target}
use amarian_amr.Consensus.Target.Meets.{be_value, hash_meets_target_iff}
use amarian_amr.Consensus.Validation.Structure.{check_transaction}
use amarian_amr.Consensus.Validation.Accepted.{Accepted, check_transaction-Accepted}
use amarian_amr.Tests.Data.{toy, spend, condition, key_of, output_of, all_bytes-AllBytes}

toy_hashes : HashesAre32Bytes toy
toy_hashes bytes = refl

abbrev signed : Signed
signed = record {
  chain_id = replicate 32 1;
  tx = spend;
  index = 0;
  amount = pos 500;
  condition = condition;
}

-- The same transaction without its witnesses has the same signature hash.
abbrev unwitnessed : Signed
unwitnessed = record signed { tx = record spend { witnesses = [] } }

signed-FitsFields : FitsFields signed
signed-FitsFields = record {
  chain = refl;
  version = omega arith;
  locktime = omega arith;
  index = omega arith;
  amount = omega arith;
}

key-FitsKey : (n : ℕ) → n < 256 → FitsKey max_public_key_bytes (key_of n)
key-FitsKey n h = (omega arith, (omega arith, omega arith, replicated 32 n h))
  where
    replicated : (k n : ℕ) → n < 256 → AllBytes (replicate k n)
    replicated zero n h = tt
    replicated (suc k) n h = (h, replicated k n h)

condition-Fits : SpendCondition.Fits max_spend_condition_keys max_public_key_bytes condition
condition-Fits = (
  omega arith,
  omega arith,
  (
    omega arith,
    omega arith,
    (key-FitsKey 1 (omega arith), (key-FitsKey 2 (omega arith), (key-FitsKey 3 (omega arith), tt))),
  ),
)

inputs-FitsInputs : FitsInputs consensus_tx_limits spend.inputs
inputs-FitsInputs = (
  omega arith,
  omega arith,
  ((((refl, all_bytes-AllBytes (replicate 32 9) refl), omega arith), omega arith), tt),
)

outputs-FitsOutputs : FitsOutputs consensus_tx_limits spend.outputs
unfolding is_valid_amount
outputs-FitsOutputs = (omega arith, omega arith, (fits 300 refl, (fits 150 refl, tt)))
  where
    fits :
        (n : ℕ) → is_valid_amount (pos n) ≡ true → FitsOutput max_lock_program_bytes (output_of n)
    fits n h = (h, (omega arith, (omega arith, omega arith, tt)))

signed-FitsSigned : FitsSigned consensus_tx_limits signed
signed-FitsSigned = record {
  fields = signed-FitsFields;
  inputs = inputs-FitsInputs;
  outputs = outputs-FitsOutputs;
  condition = condition-Fits;
}

unwitnessed-FitsSigned : FitsSigned consensus_tx_limits unwitnessed
unwitnessed-FitsSigned = record {
  fields = record {
    chain = refl;
    version = omega arith;
    locktime = omega arith;
    index = omega arith;
    amount = omega arith;
  };
  inputs = inputs-FitsInputs;
  outputs = outputs-FitsOutputs;
  condition = condition-Fits;
}

same_hash : signature_hash_of toy signed ≡ signature_hash_of toy unwitnessed
unfolding signature_hash signature_hash_preimage compute_sighash_midstates
same_hash = refl

signature_hash-binds_example : Collision toy signed unwitnessed ⊎ SameSigned signed unwitnessed
signature_hash-binds_example =
    signature_hash-binds toy consensus_tx_limits signed unwitnessed toy_hashes signed-FitsSigned
      unwitnessed-FitsSigned same_hash

abbrev leaves : List Hash256
leaves = replicate 32 1 ∷ replicate 32 2 ∷ replicate 32 3 ∷ []

compute_merkle_root-total_example :
    is_some (compute_merkle_root toy leaves) ≡ not (length leaves == 0)
compute_merkle_root-total_example = compute_merkle_root-total toy leaves

small-IsHash : IsHash (5 ∷ replicate 31 0)
small-IsHash = (refl, all_bytes-AllBytes (5 ∷ replicate 31 0) refl)

large-IsHash : IsHash (0 ∷ 9 ∷ replicate 30 0)
large-IsHash = (refl, all_bytes-AllBytes (0 ∷ 9 ∷ replicate 30 0) refl)

hash_meets_target_iff_example :
    (hash_meets_target (5 ∷ replicate 31 0) (0 ∷ 9 ∷ replicate 30 0) ≡ true)
    ↔ (le_value (5 ∷ replicate 31 0) ≤ be_value (0 ∷ 9 ∷ replicate 30 0))
hash_meets_target_iff_example =
    hash_meets_target_iff (5 ∷ replicate 31 0) (0 ∷ 9 ∷ replicate 30 0) small-IsHash large-IsHash

spend-accepted : check_transaction spend regtest_params ≡ ok tt
unfolding amarian_amr.Base.Int.◌+ℤ◌ amarian_amr.Base.Int.◌-ℤ◌ amarian_amr.Base.Int.◌*ℤ◌
    amarian_amr.Base.Bytes.le_bytes amarian_amr.Base.Bytes.le_value
    amarian_amr.Consensus.Validation.Blocks.front_is_coinbase
    amarian_amr.Consensus.Validation.Blocks.any_coinbase
    amarian_amr.Consensus.Validation.Blocks.check_transactions
    amarian_amr.Consensus.Validation.Blocks.spent_outpoints
    amarian_amr.Consensus.Validation.Blocks.check_no_duplicate_spend
    amarian_amr.Consensus.Validation.Blocks.check_block
    amarian_amr.Consensus.Validation.Blocks.check_coinbase_amount
    amarian_amr.Consensus.Validation.Spend.subtract_paid
    amarian_amr.Consensus.Validation.Spend.transaction_fee
    amarian_amr.Consensus.Validation.Spend.is_immature
    amarian_amr.Consensus.Validation.Spend.match_signature
    amarian_amr.Consensus.Validation.Spend.match_signatures
    amarian_amr.Consensus.Validation.Spend.satisfies_threshold
    amarian_amr.Consensus.Validation.Spend.matches_condition_commitment
    amarian_amr.Consensus.Validation.Spend.check_input
    amarian_amr.Consensus.Validation.Spend.check_inputs
    amarian_amr.Consensus.Validation.Spend.check_spend_authorisation
    amarian_amr.Consensus.Validation.Spend.check_transaction_inputs
    amarian_amr.Consensus.Validation.Structure.has_wrong_public_key_size
    amarian_amr.Consensus.Validation.Structure.has_wrong_signature_size
    amarian_amr.Consensus.Validation.Structure.bytes_less
    amarian_amr.Consensus.Validation.Structure.key_less
    amarian_amr.Consensus.Validation.Structure.check_keys
    amarian_amr.Consensus.Validation.Structure.check_threshold_condition
    amarian_amr.Consensus.Validation.Structure.check_spend_condition
    amarian_amr.Consensus.Validation.Structure.check_all
    amarian_amr.Consensus.Validation.Structure.check_signature_sizes
    amarian_amr.Consensus.Validation.Structure.check_witness
    amarian_amr.Consensus.Validation.Structure.check_coinbase_shape
    amarian_amr.Consensus.Validation.Structure.check_spend_shape
    amarian_amr.Consensus.Validation.Structure.accumulate
    amarian_amr.Consensus.Validation.Structure.sum_amounts
    amarian_amr.Consensus.Validation.Structure.is_seen
    amarian_amr.Consensus.Validation.Structure.insert_all
    amarian_amr.Consensus.Validation.Structure.check_witnesses
    amarian_amr.Consensus.Validation.Structure.check_spend_inputs
    amarian_amr.Consensus.Validation.Structure.check_transaction
    amarian_amr.Consensus.Issuance.era_of_height amarian_amr.Consensus.Issuance.retain
    amarian_amr.Consensus.Issuance.reward_after amarian_amr.Consensus.Issuance.block_reward
    amarian_amr.Consensus.Issuance.era_count_loop
    amarian_amr.Consensus.Issuance.era_count_with_reward
    amarian_amr.Consensus.Issuance.issuance_end_height amarian_amr.Consensus.Issuance.total_loop
    amarian_amr.Consensus.Issuance.total_issuance amarian_amr.Primitives.Digests.begin_preimage
    amarian_amr.Primitives.Digests.txid amarian_amr.Primitives.Digests.wtxid
    amarian_amr.Primitives.Digests.header_hash
    amarian_amr.Primitives.Digests.spend_condition_commitment
    amarian_amr.Primitives.Digests.compute_sighash_midstates
    amarian_amr.Primitives.Digests.signature_hash_preimage
    amarian_amr.Primitives.Digests.signature_hash amarian_amr.Primitives.Digests.merkle_branch
    amarian_amr.Primitives.Digests.merkle_level amarian_amr.Primitives.Digests.merkle_fold
    amarian_amr.Primitives.Digests.compute_merkle_root
    amarian_amr.Primitives.Digests.block_merkle_root
    amarian_amr.Primitives.Transaction.is_coinbase_inputs
    amarian_amr.Primitives.Transaction.is_coinbase
    amarian_amr.Primitives.Transaction.serialize_input
    amarian_amr.Primitives.Transaction.deserialize_input
    amarian_amr.Primitives.Transaction.serialize_output
    amarian_amr.Primitives.Transaction.deserialize_output
    amarian_amr.Primitives.Transaction.serialize_without_witnesses
    amarian_amr.Primitives.Transaction.serialize_tail amarian_amr.Primitives.Transaction.serialize
    amarian_amr.Primitives.Transaction.deserialize_base
    amarian_amr.Primitives.Transaction.deserialize_coinbase_data
    amarian_amr.Primitives.Transaction.deserialize_witnesses
    amarian_amr.Primitives.Transaction.deserialize_tail
    amarian_amr.Primitives.Transaction.deserialize amarian_amr.Primitives.Transaction.weight
    amarian_amr.Primitives.Transaction.make_coinbase_input amarian_amr.Primitives.Witness.serialize
    amarian_amr.Primitives.Witness.deserialize amarian_amr.Primitives.Lock.is_unspendable
    amarian_amr.Primitives.Lock.serialize amarian_amr.Primitives.Lock.deserialize
    amarian_amr.Primitives.Hash.is_zero amarian_amr.Primitives.Hash.read_hash256
    amarian_amr.Primitives.OutPoint.serialize amarian_amr.Primitives.OutPoint.deserialize
    amarian_amr.Primitives.SpendCondition.serialize_key
    amarian_amr.Primitives.SpendCondition.deserialize_key
    amarian_amr.Primitives.SpendCondition.serialize_signature
    amarian_amr.Primitives.SpendCondition.deserialize_signature
    amarian_amr.Primitives.SpendCondition.serialize
    amarian_amr.Primitives.SpendCondition.deserialize amarian_amr.Primitives.Amount.is_valid_amount
    amarian_amr.Primitives.Amount.in_i64 amarian_amr.Primitives.Amount.checked_add
    amarian_amr.Primitives.Amount.try_accumulate amarian_amr.Crypto.find_in
    amarian_amr.Crypto.find_scheme amarian_amr.Crypto.sha256 amarian_amr.Crypto.double_sha256
    amarian_amr.Crypto.tagged_hash amarian_amr.Crypto.verify_schnorr
    amarian_amr.Crypto.has_openssl_name amarian_amr.Crypto.verify_with_openssl
    amarian_amr.Crypto.verify_sized amarian_amr.Crypto.verify_found amarian_amr.Crypto.verify
    amarian_amr.Wire.write_u8 amarian_amr.Wire.write_u16 amarian_amr.Wire.write_u32
    amarian_amr.Wire.write_u64 amarian_amr.Wire.to_u64 amarian_amr.Wire.from_u64
    amarian_amr.Wire.write_i64 amarian_amr.Wire.compact_size_len amarian_amr.Wire.write_compact_size
    amarian_amr.Wire.write_byte_string amarian_amr.Wire.finish amarian_amr.Wire.consume
    amarian_amr.Wire.read_le amarian_amr.Wire.read_i64 amarian_amr.Wire.try_narrow
    amarian_amr.Wire.read_wide amarian_amr.Wire.read_tagged amarian_amr.Wire.bounded
    amarian_amr.Wire.read_compact_size amarian_amr.Wire.read_byte_string amarian_amr.Wire.read_count
    amarian_amr.Wire.read_many amarian_amr.Wire.read_sequence amarian_amr.Wire.write_sequence
spend-accepted = refl

check_transaction-Accepted_example : Accepted spend regtest_params
check_transaction-Accepted_example = check_transaction-Accepted spend regtest_params spend-accepted
