-- ===== src/Tests/Accepted.antt =====
-- The small chain's block with the root of its transactions passes every check.
use amarian_amr.Base.{ℕ, ◌≡◌, refl, Option, some, List, [], ◌∷◌, replicate}
use amarian_amr.Base.Result.{ok}
use amarian_amr.Primitives.Hash.{Hash256}
use amarian_amr.Primitives.Block.{Block, BlockHeader}
use amarian_amr.Primitives.Digests.{block_merkle_root}
use amarian_amr.Consensus.Params.{regtest_params}
use amarian_amr.Consensus.Validation.Blocks.{check_block}
use amarian_amr.Consensus.Validation.AcceptedBlock.{AcceptedBlock, check_block-AcceptedBlock}
use amarian_amr.Tests.Data.{toy, block}

abbrev committed : Block
committed = record block { header = record block.header { merkle_root = 10 ∷ replicate 31 0 } }

committed-accepted : check_block toy committed regtest_params ≡ ok tt
unfolding amarian_amr.Base.Int.◌+ℤ◌ amarian_amr.Base.Int.◌-ℤ◌ amarian_amr.Base.Int.◌*ℤ◌
    amarian_amr.Base.Bytes.le_bytes amarian_amr.Base.Bytes.le_value amarian_amr.Base.Table.find
    amarian_amr.Base.Table.insert amarian_amr.Base.Table.erase amarian_amr.Consensus.Target.set
    amarian_amr.Consensus.Target.place amarian_amr.Consensus.Target.significant
    amarian_amr.Consensus.Target.leading amarian_amr.Consensus.Target.pack_compact
    amarian_amr.Consensus.Target.target_to_compact amarian_amr.Consensus.Target.compact_to_target
    amarian_amr.Consensus.Target.exceeds amarian_amr.Consensus.Target.reversed
    amarian_amr.Consensus.Target.hash_meets_target amarian_amr.Consensus.Target.check_proof_of_work
    amarian_amr.Consensus.Validation.Blocks.front_is_coinbase
    amarian_amr.Consensus.Validation.Blocks.any_coinbase
    amarian_amr.Consensus.Validation.Blocks.check_transactions
    amarian_amr.Consensus.Validation.Blocks.spent_outpoints
    amarian_amr.Consensus.Validation.Blocks.check_no_duplicate_spend
    amarian_amr.Consensus.Validation.Blocks.check_block
    amarian_amr.Consensus.Validation.Blocks.check_coinbase_amount
    amarian_amr.Consensus.Validation.Header.check_block_header
    amarian_amr.Consensus.Validation.Header.insert_sorted
    amarian_amr.Consensus.Validation.Header.sort
    amarian_amr.Consensus.Validation.Header.median_time_past
    amarian_amr.Consensus.Validation.Header.contextual_check_block_header
    amarian_amr.Consensus.Validation.Spend.subtract_paid
    amarian_amr.Consensus.Validation.Spend.transaction_fee
    amarian_amr.Consensus.Validation.Spend.is_immature
    amarian_amr.Consensus.Validation.Spend.match_signature
    amarian_amr.Consensus.Validation.Spend.match_signatures
    amarian_amr.Consensus.Validation.Spend.satisfies_threshold
    amarian_amr.Consensus.Validation.Spend.matches_condition_commitment
    amarian_amr.Consensus.Validation.Spend.check_input
    amarian_amr.Consensus.Validation.Spend.check_inputs
    amarian_amr.Consensus.Validation.Spend.check_spend_authorisation
    amarian_amr.Consensus.Validation.Spend.check_transaction_inputs
    amarian_amr.Consensus.Validation.Structure.has_wrong_public_key_size
    amarian_amr.Consensus.Validation.Structure.has_wrong_signature_size
    amarian_amr.Consensus.Validation.Structure.bytes_less
    amarian_amr.Consensus.Validation.Structure.key_less
    amarian_amr.Consensus.Validation.Structure.check_keys
    amarian_amr.Consensus.Validation.Structure.check_threshold_condition
    amarian_amr.Consensus.Validation.Structure.check_spend_condition
    amarian_amr.Consensus.Validation.Structure.check_all
    amarian_amr.Consensus.Validation.Structure.check_signature_sizes
    amarian_amr.Consensus.Validation.Structure.check_witness
    amarian_amr.Consensus.Validation.Structure.check_coinbase_shape
    amarian_amr.Consensus.Validation.Structure.check_spend_shape
    amarian_amr.Consensus.Validation.Structure.accumulate
    amarian_amr.Consensus.Validation.Structure.sum_amounts
    amarian_amr.Consensus.Validation.Structure.is_seen
    amarian_amr.Consensus.Validation.Structure.insert_all
    amarian_amr.Consensus.Validation.Structure.check_witnesses
    amarian_amr.Consensus.Validation.Structure.check_spend_inputs
    amarian_amr.Consensus.Validation.Structure.check_transaction
    amarian_amr.Primitives.Digests.begin_preimage amarian_amr.Primitives.Digests.txid
    amarian_amr.Primitives.Digests.wtxid amarian_amr.Primitives.Digests.header_hash
    amarian_amr.Primitives.Digests.spend_condition_commitment
    amarian_amr.Primitives.Digests.compute_sighash_midstates
    amarian_amr.Primitives.Digests.signature_hash_preimage
    amarian_amr.Primitives.Digests.signature_hash amarian_amr.Primitives.Digests.merkle_branch
    amarian_amr.Primitives.Digests.merkle_level amarian_amr.Primitives.Digests.merkle_fold
    amarian_amr.Primitives.Digests.compute_merkle_root
    amarian_amr.Primitives.Digests.block_merkle_root
    amarian_amr.Primitives.Transaction.is_coinbase_inputs
    amarian_amr.Primitives.Transaction.is_coinbase
    amarian_amr.Primitives.Transaction.serialize_input
    amarian_amr.Primitives.Transaction.deserialize_input
    amarian_amr.Primitives.Transaction.serialize_output
    amarian_amr.Primitives.Transaction.deserialize_output
    amarian_amr.Primitives.Transaction.serialize_without_witnesses
    amarian_amr.Primitives.Transaction.serialize_tail amarian_amr.Primitives.Transaction.serialize
    amarian_amr.Primitives.Transaction.deserialize_base
    amarian_amr.Primitives.Transaction.deserialize_coinbase_data
    amarian_amr.Primitives.Transaction.deserialize_witnesses
    amarian_amr.Primitives.Transaction.deserialize_tail
    amarian_amr.Primitives.Transaction.deserialize amarian_amr.Primitives.Transaction.weight
    amarian_amr.Primitives.Transaction.make_coinbase_input amarian_amr.Primitives.Witness.serialize
    amarian_amr.Primitives.Witness.deserialize amarian_amr.Primitives.Lock.is_unspendable
    amarian_amr.Primitives.Lock.serialize amarian_amr.Primitives.Lock.deserialize
    amarian_amr.Primitives.Hash.is_zero amarian_amr.Primitives.Hash.read_hash256
    amarian_amr.Primitives.OutPoint.serialize amarian_amr.Primitives.OutPoint.deserialize
    amarian_amr.Primitives.SpendCondition.serialize_key
    amarian_amr.Primitives.SpendCondition.deserialize_key
    amarian_amr.Primitives.SpendCondition.serialize_signature
    amarian_amr.Primitives.SpendCondition.deserialize_signature
    amarian_amr.Primitives.SpendCondition.serialize
    amarian_amr.Primitives.SpendCondition.deserialize amarian_amr.Primitives.Block.serialize_header
    amarian_amr.Primitives.Block.deserialize_header amarian_amr.Primitives.Block.serialize
    amarian_amr.Primitives.Block.deserialize amarian_amr.Primitives.Block.weight
    amarian_amr.Primitives.Amount.is_valid_amount amarian_amr.Primitives.Amount.in_i64
    amarian_amr.Primitives.Amount.checked_add amarian_amr.Primitives.Amount.try_accumulate
    amarian_amr.Crypto.find_in amarian_amr.Crypto.find_scheme amarian_amr.Crypto.sha256
    amarian_amr.Crypto.double_sha256 amarian_amr.Crypto.tagged_hash
    amarian_amr.Crypto.verify_schnorr amarian_amr.Crypto.has_openssl_name
    amarian_amr.Crypto.verify_with_openssl amarian_amr.Crypto.verify_sized
    amarian_amr.Crypto.verify_found amarian_amr.Crypto.verify amarian_amr.Wire.write_u8
    amarian_amr.Wire.write_u16 amarian_amr.Wire.write_u32 amarian_amr.Wire.write_u64
    amarian_amr.Wire.to_u64 amarian_amr.Wire.from_u64 amarian_amr.Wire.write_i64
    amarian_amr.Wire.compact_size_len amarian_amr.Wire.write_compact_size
    amarian_amr.Wire.write_byte_string amarian_amr.Wire.finish amarian_amr.Wire.consume
    amarian_amr.Wire.read_le amarian_amr.Wire.read_i64 amarian_amr.Wire.try_narrow
    amarian_amr.Wire.read_wide amarian_amr.Wire.read_tagged amarian_amr.Wire.bounded
    amarian_amr.Wire.read_compact_size amarian_amr.Wire.read_byte_string amarian_amr.Wire.read_count
    amarian_amr.Wire.read_many amarian_amr.Wire.read_sequence amarian_amr.Wire.write_sequence
committed-accepted = refl

check_block-AcceptedBlock_example : AcceptedBlock toy committed regtest_params
check_block-AcceptedBlock_example =
    check_block-AcceptedBlock toy committed regtest_params committed-accepted
