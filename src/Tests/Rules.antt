-- ===== src/Tests/Rules.antt =====
-- The consensus rules on the small chain.
use amarian_amr.Base.{
  ℕ, ◌+◌, ◌≤◌, ◌<◌, ◌≡◌, ◌↔◌, refl, Bool, true, false, not, ◌==◌, nat_eq, some, List, [], ◌∷◌, All,
  length, replicate, arith,
}
use amarian_amr.Base.Int.{ℤ, pos, pos_part}
use amarian_amr.Base.Result.{ok, err}
use amarian_amr.Primitives.Amount.{max_money}
use amarian_amr.Primitives.Transaction.{is_coinbase}
use amarian_amr.Consensus.Params.{regtest_params}
use amarian_amr.Consensus.Issuance.{
  block_reward, total_issuance, issuance_end_height, mainnet_issuance,
}
use amarian_amr.Consensus.Issuance.Schedule.{
  issued, issued-le-total_issuance, block_reward_antitone, block_reward_end, mainnet_supply,
}
use amarian_amr.Consensus.Validation.Structure.{amounts_of, check_transaction}
use amarian_amr.Consensus.Validation.Spend.{
  coin_amounts, satisfies_threshold, check_transaction_inputs,
}
use amarian_amr.Consensus.Validation.Header.{HeaderContext, contextual_check_block_header}
use amarian_amr.Consensus.Validation.Blocks.{
  coinbase_outputs, check_coinbase_amount, check_no_duplicate_spend, spent_outpoints,
}
use amarian_amr.Consensus.Validation.Fee.{
  total, check_transaction_inputs-fee, check_coinbase_amount-eq_ok,
}
use amarian_amr.Consensus.Validation.Threshold.{AnsweredInOrder, satisfies_threshold_iff}
use amarian_amr.Consensus.Validation.Distinct.{Unrepeated, check_no_duplicate_spend_iff}
use amarian_amr.Consensus.Validation.Maturity.{Mature, check_transaction_inputs-Mature}
use amarian_amr.Consensus.Validation.Timestamps.{Extends, contextual_check_block_header_iff}
use amarian_amr.Consensus.Target.{compact_to_target}
use amarian_amr.Tests.Data.{toy, block, spend, witness, old_coin, signature_of}
use amarian_amr.Primitives.Witness.{Witness}
use amarian_amr.Consensus.Validation.{tx_signature_does_not_verify}

abbrev message : List ℕ
message = replicate 32 4

satisfies_threshold_iff_example :
    (satisfies_threshold toy witness message ≡ ok tt)
    ↔ AnsweredInOrder toy message witness.condition.keys witness.signatures
satisfies_threshold_iff_example = satisfies_threshold_iff toy message witness (refl, (refl, tt))

-- The same two signatures the other way round do not satisfy the condition.
wrong_order :
    satisfies_threshold toy
      (record witness { signatures = signature_of 3 ∷ signature_of 1 ∷ [] })
      message
    ≡ err tx_signature_does_not_verify
unfolding amarian_amr.Base.Int.◌+ℤ◌ amarian_amr.Base.Int.◌-ℤ◌ amarian_amr.Base.Int.◌*ℤ◌
    amarian_amr.Base.Bytes.le_bytes amarian_amr.Base.Bytes.le_value
    amarian_amr.Consensus.Validation.Blocks.front_is_coinbase
    amarian_amr.Consensus.Validation.Blocks.any_coinbase
    amarian_amr.Consensus.Validation.Blocks.check_transactions
    amarian_amr.Consensus.Validation.Blocks.spent_outpoints
    amarian_amr.Consensus.Validation.Blocks.check_no_duplicate_spend
    amarian_amr.Consensus.Validation.Blocks.check_block
    amarian_amr.Consensus.Validation.Blocks.check_coinbase_amount
    amarian_amr.Consensus.Validation.Spend.subtract_paid
    amarian_amr.Consensus.Validation.Spend.transaction_fee
    amarian_amr.Consensus.Validation.Spend.is_immature
    amarian_amr.Consensus.Validation.Spend.match_signature
    amarian_amr.Consensus.Validation.Spend.match_signatures
    amarian_amr.Consensus.Validation.Spend.satisfies_threshold
    amarian_amr.Consensus.Validation.Spend.matches_condition_commitment
    amarian_amr.Consensus.Validation.Spend.check_input
    amarian_amr.Consensus.Validation.Spend.check_inputs
    amarian_amr.Consensus.Validation.Spend.check_spend_authorisation
    amarian_amr.Consensus.Validation.Spend.check_transaction_inputs
    amarian_amr.Consensus.Validation.Structure.has_wrong_public_key_size
    amarian_amr.Consensus.Validation.Structure.has_wrong_signature_size
    amarian_amr.Consensus.Validation.Structure.bytes_less
    amarian_amr.Consensus.Validation.Structure.key_less
    amarian_amr.Consensus.Validation.Structure.check_keys
    amarian_amr.Consensus.Validation.Structure.check_threshold_condition
    amarian_amr.Consensus.Validation.Structure.check_spend_condition
    amarian_amr.Consensus.Validation.Structure.check_all
    amarian_amr.Consensus.Validation.Structure.check_signature_sizes
    amarian_amr.Consensus.Validation.Structure.check_witness
    amarian_amr.Consensus.Validation.Structure.check_coinbase_shape
    amarian_amr.Consensus.Validation.Structure.check_spend_shape
    amarian_amr.Consensus.Validation.Structure.accumulate
    amarian_amr.Consensus.Validation.Structure.sum_amounts
    amarian_amr.Consensus.Validation.Structure.is_seen
    amarian_amr.Consensus.Validation.Structure.insert_all
    amarian_amr.Consensus.Validation.Structure.check_witnesses
    amarian_amr.Consensus.Validation.Structure.check_spend_inputs
    amarian_amr.Consensus.Validation.Structure.check_transaction
    amarian_amr.Consensus.Issuance.era_of_height amarian_amr.Consensus.Issuance.retain
    amarian_amr.Consensus.Issuance.reward_after amarian_amr.Consensus.Issuance.block_reward
    amarian_amr.Consensus.Issuance.era_count_loop
    amarian_amr.Consensus.Issuance.era_count_with_reward
    amarian_amr.Consensus.Issuance.issuance_end_height amarian_amr.Consensus.Issuance.total_loop
    amarian_amr.Consensus.Issuance.total_issuance amarian_amr.Primitives.Digests.begin_preimage
    amarian_amr.Primitives.Digests.txid amarian_amr.Primitives.Digests.wtxid
    amarian_amr.Primitives.Digests.header_hash
    amarian_amr.Primitives.Digests.spend_condition_commitment
    amarian_amr.Primitives.Digests.compute_sighash_midstates
    amarian_amr.Primitives.Digests.signature_hash_preimage
    amarian_amr.Primitives.Digests.signature_hash amarian_amr.Primitives.Digests.merkle_branch
    amarian_amr.Primitives.Digests.merkle_level amarian_amr.Primitives.Digests.merkle_fold
    amarian_amr.Primitives.Digests.compute_merkle_root
    amarian_amr.Primitives.Digests.block_merkle_root
    amarian_amr.Primitives.Transaction.is_coinbase_inputs
    amarian_amr.Primitives.Transaction.is_coinbase
    amarian_amr.Primitives.Transaction.serialize_input
    amarian_amr.Primitives.Transaction.deserialize_input
    amarian_amr.Primitives.Transaction.serialize_output
    amarian_amr.Primitives.Transaction.deserialize_output
    amarian_amr.Primitives.Transaction.serialize_without_witnesses
    amarian_amr.Primitives.Transaction.serialize_tail amarian_amr.Primitives.Transaction.serialize
    amarian_amr.Primitives.Transaction.deserialize_base
    amarian_amr.Primitives.Transaction.deserialize_coinbase_data
    amarian_amr.Primitives.Transaction.deserialize_witnesses
    amarian_amr.Primitives.Transaction.deserialize_tail
    amarian_amr.Primitives.Transaction.deserialize amarian_amr.Primitives.Transaction.weight
    amarian_amr.Primitives.Transaction.make_coinbase_input amarian_amr.Primitives.Witness.serialize
    amarian_amr.Primitives.Witness.deserialize amarian_amr.Primitives.Lock.is_unspendable
    amarian_amr.Primitives.Lock.serialize amarian_amr.Primitives.Lock.deserialize
    amarian_amr.Primitives.Hash.is_zero amarian_amr.Primitives.Hash.read_hash256
    amarian_amr.Primitives.OutPoint.serialize amarian_amr.Primitives.OutPoint.deserialize
    amarian_amr.Primitives.SpendCondition.serialize_key
    amarian_amr.Primitives.SpendCondition.deserialize_key
    amarian_amr.Primitives.SpendCondition.serialize_signature
    amarian_amr.Primitives.SpendCondition.deserialize_signature
    amarian_amr.Primitives.SpendCondition.serialize
    amarian_amr.Primitives.SpendCondition.deserialize amarian_amr.Primitives.Amount.is_valid_amount
    amarian_amr.Primitives.Amount.in_i64 amarian_amr.Primitives.Amount.checked_add
    amarian_amr.Primitives.Amount.try_accumulate amarian_amr.Crypto.find_in
    amarian_amr.Crypto.find_scheme amarian_amr.Crypto.sha256 amarian_amr.Crypto.double_sha256
    amarian_amr.Crypto.tagged_hash amarian_amr.Crypto.verify_schnorr
    amarian_amr.Crypto.has_openssl_name amarian_amr.Crypto.verify_with_openssl
    amarian_amr.Crypto.verify_sized amarian_amr.Crypto.verify_found amarian_amr.Crypto.verify
    amarian_amr.Wire.write_u8 amarian_amr.Wire.write_u16 amarian_amr.Wire.write_u32
    amarian_amr.Wire.write_u64 amarian_amr.Wire.to_u64 amarian_amr.Wire.from_u64
    amarian_amr.Wire.write_i64 amarian_amr.Wire.compact_size_len amarian_amr.Wire.write_compact_size
    amarian_amr.Wire.write_byte_string amarian_amr.Wire.finish amarian_amr.Wire.consume
    amarian_amr.Wire.read_le amarian_amr.Wire.read_i64 amarian_amr.Wire.try_narrow
    amarian_amr.Wire.read_wide amarian_amr.Wire.read_tagged amarian_amr.Wire.bounded
    amarian_amr.Wire.read_compact_size amarian_amr.Wire.read_byte_string amarian_amr.Wire.read_count
    amarian_amr.Wire.read_many amarian_amr.Wire.read_sequence amarian_amr.Wire.write_sequence
wrong_order = refl

spend-accepted : check_transaction_inputs toy spend (old_coin ∷ []) 40 regtest_params ≡ ok (pos 50)
unfolding amarian_amr.Base.Int.◌+ℤ◌ amarian_amr.Base.Int.◌-ℤ◌ amarian_amr.Base.Int.◌*ℤ◌
    amarian_amr.Base.Bytes.le_bytes amarian_amr.Base.Bytes.le_value
    amarian_amr.Consensus.Validation.Blocks.front_is_coinbase
    amarian_amr.Consensus.Validation.Blocks.any_coinbase
    amarian_amr.Consensus.Validation.Blocks.check_transactions
    amarian_amr.Consensus.Validation.Blocks.spent_outpoints
    amarian_amr.Consensus.Validation.Blocks.check_no_duplicate_spend
    amarian_amr.Consensus.Validation.Blocks.check_block
    amarian_amr.Consensus.Validation.Blocks.check_coinbase_amount
    amarian_amr.Consensus.Validation.Spend.subtract_paid
    amarian_amr.Consensus.Validation.Spend.transaction_fee
    amarian_amr.Consensus.Validation.Spend.is_immature
    amarian_amr.Consensus.Validation.Spend.match_signature
    amarian_amr.Consensus.Validation.Spend.match_signatures
    amarian_amr.Consensus.Validation.Spend.satisfies_threshold
    amarian_amr.Consensus.Validation.Spend.matches_condition_commitment
    amarian_amr.Consensus.Validation.Spend.check_input
    amarian_amr.Consensus.Validation.Spend.check_inputs
    amarian_amr.Consensus.Validation.Spend.check_spend_authorisation
    amarian_amr.Consensus.Validation.Spend.check_transaction_inputs
    amarian_amr.Consensus.Validation.Structure.has_wrong_public_key_size
    amarian_amr.Consensus.Validation.Structure.has_wrong_signature_size
    amarian_amr.Consensus.Validation.Structure.bytes_less
    amarian_amr.Consensus.Validation.Structure.key_less
    amarian_amr.Consensus.Validation.Structure.check_keys
    amarian_amr.Consensus.Validation.Structure.check_threshold_condition
    amarian_amr.Consensus.Validation.Structure.check_spend_condition
    amarian_amr.Consensus.Validation.Structure.check_all
    amarian_amr.Consensus.Validation.Structure.check_signature_sizes
    amarian_amr.Consensus.Validation.Structure.check_witness
    amarian_amr.Consensus.Validation.Structure.check_coinbase_shape
    amarian_amr.Consensus.Validation.Structure.check_spend_shape
    amarian_amr.Consensus.Validation.Structure.accumulate
    amarian_amr.Consensus.Validation.Structure.sum_amounts
    amarian_amr.Consensus.Validation.Structure.is_seen
    amarian_amr.Consensus.Validation.Structure.insert_all
    amarian_amr.Consensus.Validation.Structure.check_witnesses
    amarian_amr.Consensus.Validation.Structure.check_spend_inputs
    amarian_amr.Consensus.Validation.Structure.check_transaction
    amarian_amr.Consensus.Issuance.era_of_height amarian_amr.Consensus.Issuance.retain
    amarian_amr.Consensus.Issuance.reward_after amarian_amr.Consensus.Issuance.block_reward
    amarian_amr.Consensus.Issuance.era_count_loop
    amarian_amr.Consensus.Issuance.era_count_with_reward
    amarian_amr.Consensus.Issuance.issuance_end_height amarian_amr.Consensus.Issuance.total_loop
    amarian_amr.Consensus.Issuance.total_issuance amarian_amr.Primitives.Digests.begin_preimage
    amarian_amr.Primitives.Digests.txid amarian_amr.Primitives.Digests.wtxid
    amarian_amr.Primitives.Digests.header_hash
    amarian_amr.Primitives.Digests.spend_condition_commitment
    amarian_amr.Primitives.Digests.compute_sighash_midstates
    amarian_amr.Primitives.Digests.signature_hash_preimage
    amarian_amr.Primitives.Digests.signature_hash amarian_amr.Primitives.Digests.merkle_branch
    amarian_amr.Primitives.Digests.merkle_level amarian_amr.Primitives.Digests.merkle_fold
    amarian_amr.Primitives.Digests.compute_merkle_root
    amarian_amr.Primitives.Digests.block_merkle_root
    amarian_amr.Primitives.Transaction.is_coinbase_inputs
    amarian_amr.Primitives.Transaction.is_coinbase
    amarian_amr.Primitives.Transaction.serialize_input
    amarian_amr.Primitives.Transaction.deserialize_input
    amarian_amr.Primitives.Transaction.serialize_output
    amarian_amr.Primitives.Transaction.deserialize_output
    amarian_amr.Primitives.Transaction.serialize_without_witnesses
    amarian_amr.Primitives.Transaction.serialize_tail amarian_amr.Primitives.Transaction.serialize
    amarian_amr.Primitives.Transaction.deserialize_base
    amarian_amr.Primitives.Transaction.deserialize_coinbase_data
    amarian_amr.Primitives.Transaction.deserialize_witnesses
    amarian_amr.Primitives.Transaction.deserialize_tail
    amarian_amr.Primitives.Transaction.deserialize amarian_amr.Primitives.Transaction.weight
    amarian_amr.Primitives.Transaction.make_coinbase_input amarian_amr.Primitives.Witness.serialize
    amarian_amr.Primitives.Witness.deserialize amarian_amr.Primitives.Lock.is_unspendable
    amarian_amr.Primitives.Lock.serialize amarian_amr.Primitives.Lock.deserialize
    amarian_amr.Primitives.Hash.is_zero amarian_amr.Primitives.Hash.read_hash256
    amarian_amr.Primitives.OutPoint.serialize amarian_amr.Primitives.OutPoint.deserialize
    amarian_amr.Primitives.SpendCondition.serialize_key
    amarian_amr.Primitives.SpendCondition.deserialize_key
    amarian_amr.Primitives.SpendCondition.serialize_signature
    amarian_amr.Primitives.SpendCondition.deserialize_signature
    amarian_amr.Primitives.SpendCondition.serialize
    amarian_amr.Primitives.SpendCondition.deserialize amarian_amr.Primitives.Amount.is_valid_amount
    amarian_amr.Primitives.Amount.in_i64 amarian_amr.Primitives.Amount.checked_add
    amarian_amr.Primitives.Amount.try_accumulate amarian_amr.Crypto.find_in
    amarian_amr.Crypto.find_scheme amarian_amr.Crypto.sha256 amarian_amr.Crypto.double_sha256
    amarian_amr.Crypto.tagged_hash amarian_amr.Crypto.verify_schnorr
    amarian_amr.Crypto.has_openssl_name amarian_amr.Crypto.verify_with_openssl
    amarian_amr.Crypto.verify_sized amarian_amr.Crypto.verify_found amarian_amr.Crypto.verify
    amarian_amr.Wire.write_u8 amarian_amr.Wire.write_u16 amarian_amr.Wire.write_u32
    amarian_amr.Wire.write_u64 amarian_amr.Wire.to_u64 amarian_amr.Wire.from_u64
    amarian_amr.Wire.write_i64 amarian_amr.Wire.compact_size_len amarian_amr.Wire.write_compact_size
    amarian_amr.Wire.write_byte_string amarian_amr.Wire.finish amarian_amr.Wire.consume
    amarian_amr.Wire.read_le amarian_amr.Wire.read_i64 amarian_amr.Wire.try_narrow
    amarian_amr.Wire.read_wide amarian_amr.Wire.read_tagged amarian_amr.Wire.bounded
    amarian_amr.Wire.read_compact_size amarian_amr.Wire.read_byte_string amarian_amr.Wire.read_count
    amarian_amr.Wire.read_many amarian_amr.Wire.read_sequence amarian_amr.Wire.write_sequence
spend-accepted = refl

check_transaction_inputs-fee_example :
    (n : ℕ) × (pos 50 ≡ pos n)
    × (total (coin_amounts (old_coin ∷ [])) ≡ n + total (amounts_of spend.outputs))
    × (total (coin_amounts (old_coin ∷ [])) ≤ max_money)
    × (is_coinbase spend ≡ false)
    × (length (old_coin ∷ []) ≡ length spend.inputs)
check_transaction_inputs-fee_example =
    check_transaction_inputs-fee toy spend (old_coin ∷ []) 40 regtest_params (pos 50) spend-accepted

check_transaction_inputs-Mature_example : All (Mature 40 regtest_params) (old_coin ∷ [])
check_transaction_inputs-Mature_example =
    check_transaction_inputs-Mature toy spend (old_coin ∷ []) 40 regtest_params (pos 50)
      spend-accepted

coinbase-accepted : check_coinbase_amount block (pos 50) regtest_params ≡ ok tt
unfolding amarian_amr.Base.Int.◌+ℤ◌ amarian_amr.Base.Int.◌-ℤ◌ amarian_amr.Base.Int.◌*ℤ◌
    amarian_amr.Base.Bytes.le_bytes amarian_amr.Base.Bytes.le_value
    amarian_amr.Consensus.Validation.Blocks.front_is_coinbase
    amarian_amr.Consensus.Validation.Blocks.any_coinbase
    amarian_amr.Consensus.Validation.Blocks.check_transactions
    amarian_amr.Consensus.Validation.Blocks.spent_outpoints
    amarian_amr.Consensus.Validation.Blocks.check_no_duplicate_spend
    amarian_amr.Consensus.Validation.Blocks.check_block
    amarian_amr.Consensus.Validation.Blocks.check_coinbase_amount
    amarian_amr.Consensus.Validation.Spend.subtract_paid
    amarian_amr.Consensus.Validation.Spend.transaction_fee
    amarian_amr.Consensus.Validation.Spend.is_immature
    amarian_amr.Consensus.Validation.Spend.match_signature
    amarian_amr.Consensus.Validation.Spend.match_signatures
    amarian_amr.Consensus.Validation.Spend.satisfies_threshold
    amarian_amr.Consensus.Validation.Spend.matches_condition_commitment
    amarian_amr.Consensus.Validation.Spend.check_input
    amarian_amr.Consensus.Validation.Spend.check_inputs
    amarian_amr.Consensus.Validation.Spend.check_spend_authorisation
    amarian_amr.Consensus.Validation.Spend.check_transaction_inputs
    amarian_amr.Consensus.Validation.Structure.has_wrong_public_key_size
    amarian_amr.Consensus.Validation.Structure.has_wrong_signature_size
    amarian_amr.Consensus.Validation.Structure.bytes_less
    amarian_amr.Consensus.Validation.Structure.key_less
    amarian_amr.Consensus.Validation.Structure.check_keys
    amarian_amr.Consensus.Validation.Structure.check_threshold_condition
    amarian_amr.Consensus.Validation.Structure.check_spend_condition
    amarian_amr.Consensus.Validation.Structure.check_all
    amarian_amr.Consensus.Validation.Structure.check_signature_sizes
    amarian_amr.Consensus.Validation.Structure.check_witness
    amarian_amr.Consensus.Validation.Structure.check_coinbase_shape
    amarian_amr.Consensus.Validation.Structure.check_spend_shape
    amarian_amr.Consensus.Validation.Structure.accumulate
    amarian_amr.Consensus.Validation.Structure.sum_amounts
    amarian_amr.Consensus.Validation.Structure.is_seen
    amarian_amr.Consensus.Validation.Structure.insert_all
    amarian_amr.Consensus.Validation.Structure.check_witnesses
    amarian_amr.Consensus.Validation.Structure.check_spend_inputs
    amarian_amr.Consensus.Validation.Structure.check_transaction
    amarian_amr.Consensus.Issuance.era_of_height amarian_amr.Consensus.Issuance.retain
    amarian_amr.Consensus.Issuance.reward_after amarian_amr.Consensus.Issuance.block_reward
    amarian_amr.Consensus.Issuance.era_count_loop
    amarian_amr.Consensus.Issuance.era_count_with_reward
    amarian_amr.Consensus.Issuance.issuance_end_height amarian_amr.Consensus.Issuance.total_loop
    amarian_amr.Consensus.Issuance.total_issuance amarian_amr.Primitives.Digests.begin_preimage
    amarian_amr.Primitives.Digests.txid amarian_amr.Primitives.Digests.wtxid
    amarian_amr.Primitives.Digests.header_hash
    amarian_amr.Primitives.Digests.spend_condition_commitment
    amarian_amr.Primitives.Digests.compute_sighash_midstates
    amarian_amr.Primitives.Digests.signature_hash_preimage
    amarian_amr.Primitives.Digests.signature_hash amarian_amr.Primitives.Digests.merkle_branch
    amarian_amr.Primitives.Digests.merkle_level amarian_amr.Primitives.Digests.merkle_fold
    amarian_amr.Primitives.Digests.compute_merkle_root
    amarian_amr.Primitives.Digests.block_merkle_root
    amarian_amr.Primitives.Transaction.is_coinbase_inputs
    amarian_amr.Primitives.Transaction.is_coinbase
    amarian_amr.Primitives.Transaction.serialize_input
    amarian_amr.Primitives.Transaction.deserialize_input
    amarian_amr.Primitives.Transaction.serialize_output
    amarian_amr.Primitives.Transaction.deserialize_output
    amarian_amr.Primitives.Transaction.serialize_without_witnesses
    amarian_amr.Primitives.Transaction.serialize_tail amarian_amr.Primitives.Transaction.serialize
    amarian_amr.Primitives.Transaction.deserialize_base
    amarian_amr.Primitives.Transaction.deserialize_coinbase_data
    amarian_amr.Primitives.Transaction.deserialize_witnesses
    amarian_amr.Primitives.Transaction.deserialize_tail
    amarian_amr.Primitives.Transaction.deserialize amarian_amr.Primitives.Transaction.weight
    amarian_amr.Primitives.Transaction.make_coinbase_input amarian_amr.Primitives.Witness.serialize
    amarian_amr.Primitives.Witness.deserialize amarian_amr.Primitives.Lock.is_unspendable
    amarian_amr.Primitives.Lock.serialize amarian_amr.Primitives.Lock.deserialize
    amarian_amr.Primitives.Hash.is_zero amarian_amr.Primitives.Hash.read_hash256
    amarian_amr.Primitives.OutPoint.serialize amarian_amr.Primitives.OutPoint.deserialize
    amarian_amr.Primitives.SpendCondition.serialize_key
    amarian_amr.Primitives.SpendCondition.deserialize_key
    amarian_amr.Primitives.SpendCondition.serialize_signature
    amarian_amr.Primitives.SpendCondition.deserialize_signature
    amarian_amr.Primitives.SpendCondition.serialize
    amarian_amr.Primitives.SpendCondition.deserialize amarian_amr.Primitives.Amount.is_valid_amount
    amarian_amr.Primitives.Amount.in_i64 amarian_amr.Primitives.Amount.checked_add
    amarian_amr.Primitives.Amount.try_accumulate amarian_amr.Crypto.find_in
    amarian_amr.Crypto.find_scheme amarian_amr.Crypto.sha256 amarian_amr.Crypto.double_sha256
    amarian_amr.Crypto.tagged_hash amarian_amr.Crypto.verify_schnorr
    amarian_amr.Crypto.has_openssl_name amarian_amr.Crypto.verify_with_openssl
    amarian_amr.Crypto.verify_sized amarian_amr.Crypto.verify_found amarian_amr.Crypto.verify
    amarian_amr.Wire.write_u8 amarian_amr.Wire.write_u16 amarian_amr.Wire.write_u32
    amarian_amr.Wire.write_u64 amarian_amr.Wire.to_u64 amarian_amr.Wire.from_u64
    amarian_amr.Wire.write_i64 amarian_amr.Wire.compact_size_len amarian_amr.Wire.write_compact_size
    amarian_amr.Wire.write_byte_string amarian_amr.Wire.finish amarian_amr.Wire.consume
    amarian_amr.Wire.read_le amarian_amr.Wire.read_i64 amarian_amr.Wire.try_narrow
    amarian_amr.Wire.read_wide amarian_amr.Wire.read_tagged amarian_amr.Wire.bounded
    amarian_amr.Wire.read_compact_size amarian_amr.Wire.read_byte_string amarian_amr.Wire.read_count
    amarian_amr.Wire.read_many amarian_amr.Wire.read_sequence amarian_amr.Wire.write_sequence
coinbase-accepted = refl

check_coinbase_amount-eq_ok_example :
    total (amounts_of (coinbase_outputs block.transactions))
    ≤ pos_part (block_reward block.header.height regtest_params.issuance) + 50
check_coinbase_amount-eq_ok_example =
    check_coinbase_amount-eq_ok block 50 regtest_params coinbase-accepted

check_no_duplicate_spend_iff_example :
    (check_no_duplicate_spend block.transactions ≡ ok tt)
    ↔ Unrepeated (spent_outpoints block.transactions)
check_no_duplicate_spend_iff_example = check_no_duplicate_spend_iff block.transactions

abbrev context : HeaderContext
context = record {
  prev_hash = replicate 32 5;
  prev_height = 39;
  median_time_past = pos 1_799_999_000;
  expected_bits = 0x207fffff;
  now = pos 1_799_999_900;
}

contextual_check_block_header_iff_example :
    (contextual_check_block_header block.header context regtest_params ≡ ok tt)
    ↔ Extends block.header context
contextual_check_block_header_iff_example =
    contextual_check_block_header_iff block.header context regtest_params

issued-le-total_issuance_example :
    (sum : ℕ) × (total_issuance (record { era_blocks = 105; initial_reward = pos 1000 })
      ≡ some (pos sum))
    × (issued 300 (record { era_blocks = 105; initial_reward = pos 1000 }) ≤ sum)
issued-le-total_issuance_example = issued-le-total_issuance 300 105 1000 (omega arith) (omega arith)

block_reward_antitone_example :
    pos_part (block_reward 300 (record { era_blocks = 105; initial_reward = pos 1000 }))
    ≤ pos_part (block_reward 20 (record { era_blocks = 105; initial_reward = pos 1000 }))
block_reward_antitone_example = block_reward_antitone 20 300 105 1000 (omega arith) (omega arith)

block_reward_end_example :
    (end_height : ℕ) × (issuance_end_height (record { era_blocks = 105; initial_reward = pos 1000 })
      ≡ some end_height)
    × ((0 < pos_part (block_reward 300 (record { era_blocks = 105; initial_reward = pos 1000 })))
        ↔ (300 < end_height))
block_reward_end_example = block_reward_end 300 105 1000 (omega arith)

mainnet_supply_example : issued 1_000_000 mainnet_issuance ≤ max_money
mainnet_supply_example = mainnet_supply 1_000_000

pow_limit_decodes :
    compact_to_target 0x1d00_ffff ≡ some (0 ∷ 0 ∷ 0 ∷ 0 ∷ 0xff ∷ 0xff ∷ replicate 26 0)
unfolding compact_to_target
pow_limit_decodes = refl
