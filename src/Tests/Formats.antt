-- ===== src/Tests/Formats.antt =====
-- The encodings of the small chain.
use amarian_amr.Base.{
  ℕ, ◌≡◌, ◌<◌, refl, Bool, true, false, ◌&&◌, Option, none, some, List, [], ◌∷◌, ◌++◌, ltb, ltb→lt,
  arith,
}
use amarian_amr.Base.Bytes.{AllBytes}
use amarian_amr.Wire.{Reader, at}
use amarian_amr.Primitives.Transaction
use amarian_amr.Primitives.Transaction.{Transaction}
use amarian_amr.Primitives.Block
use amarian_amr.Primitives.Block.{Block, BlockLimits}
use amarian_amr.Primitives.RoundTrip.{
  block_round_trip, block_canonical, block_failure_sticks, transaction_round_trip,
}
use amarian_amr.Consensus.Params.{regtest_params}
use amarian_amr.Utxo.Undo
use amarian_amr.Utxo.Undo.{BlockUndo, undo_round_trip, undo_canonical}
use amarian_amr.Tests.Data.{all_bytes, all_bytes-AllBytes, block, spend}
use amarian_amr.Tests.Ledger.{result}

abbrev limits : BlockLimits
limits = regtest_params.block_limits

block-bytes : all_bytes (Block.serialize block) ≡ true
unfolding amarian_amr.Primitives.Transaction.is_coinbase_inputs
    amarian_amr.Primitives.Transaction.is_coinbase
    amarian_amr.Primitives.Transaction.serialize_input
    amarian_amr.Primitives.Transaction.deserialize_input
    amarian_amr.Primitives.Transaction.serialize_output
    amarian_amr.Primitives.Transaction.deserialize_output
    amarian_amr.Primitives.Transaction.serialize_without_witnesses
    amarian_amr.Primitives.Transaction.serialize_tail amarian_amr.Primitives.Transaction.serialize
    amarian_amr.Primitives.Transaction.deserialize_base
    amarian_amr.Primitives.Transaction.deserialize_coinbase_data
    amarian_amr.Primitives.Transaction.deserialize_witnesses
    amarian_amr.Primitives.Transaction.deserialize_tail
    amarian_amr.Primitives.Transaction.deserialize amarian_amr.Primitives.Transaction.weight
    amarian_amr.Primitives.Transaction.make_coinbase_input
    amarian_amr.Primitives.Lock.is_unspendable amarian_amr.Primitives.Lock.serialize
    amarian_amr.Primitives.Lock.deserialize amarian_amr.Primitives.Hash.is_zero
    amarian_amr.Primitives.Hash.read_hash256 amarian_amr.Primitives.OutPoint.serialize
    amarian_amr.Primitives.OutPoint.deserialize amarian_amr.Primitives.SpendCondition.serialize_key
    amarian_amr.Primitives.SpendCondition.deserialize_key
    amarian_amr.Primitives.SpendCondition.serialize_signature
    amarian_amr.Primitives.SpendCondition.deserialize_signature
    amarian_amr.Primitives.SpendCondition.serialize
    amarian_amr.Primitives.SpendCondition.deserialize amarian_amr.Primitives.Witness.serialize
    amarian_amr.Primitives.Witness.deserialize amarian_amr.Primitives.Coin.serialize
    amarian_amr.Primitives.Coin.deserialize amarian_amr.Primitives.Block.serialize_header
    amarian_amr.Primitives.Block.deserialize_header amarian_amr.Primitives.Block.serialize
    amarian_amr.Primitives.Block.deserialize amarian_amr.Primitives.Block.weight
    amarian_amr.Primitives.Amount.is_valid_amount amarian_amr.Primitives.Amount.in_i64
    amarian_amr.Primitives.Amount.checked_add amarian_amr.Primitives.Amount.try_accumulate
    amarian_amr.Utxo.Undo.serialize_tx amarian_amr.Utxo.Undo.deserialize_tx
    amarian_amr.Utxo.Undo.serialize amarian_amr.Utxo.Undo.deserialize amarian_amr.Wire.write_u8
    amarian_amr.Wire.write_u16 amarian_amr.Wire.write_u32 amarian_amr.Wire.write_u64
    amarian_amr.Wire.to_u64 amarian_amr.Wire.from_u64 amarian_amr.Wire.write_i64
    amarian_amr.Wire.compact_size_len amarian_amr.Wire.write_compact_size
    amarian_amr.Wire.write_byte_string amarian_amr.Wire.finish amarian_amr.Wire.consume
    amarian_amr.Wire.read_le amarian_amr.Wire.read_i64 amarian_amr.Wire.try_narrow
    amarian_amr.Wire.read_wide amarian_amr.Wire.read_tagged amarian_amr.Wire.bounded
    amarian_amr.Wire.read_compact_size amarian_amr.Wire.read_byte_string amarian_amr.Wire.read_count
    amarian_amr.Wire.read_many amarian_amr.Wire.read_sequence amarian_amr.Wire.write_sequence
    amarian_amr.Primitives.Digests.spend_condition_commitment amarian_amr.Crypto.tagged_hash
    amarian_amr.Crypto.sha256 amarian_amr.Base.Bytes.le_bytes amarian_amr.Base.Bytes.le_value
block-bytes = refl

block-read : Block.deserialize limits (at (Block.serialize block)) ≡ (some block, at [])
unfolding amarian_amr.Primitives.Transaction.is_coinbase_inputs
    amarian_amr.Primitives.Transaction.is_coinbase
    amarian_amr.Primitives.Transaction.serialize_input
    amarian_amr.Primitives.Transaction.deserialize_input
    amarian_amr.Primitives.Transaction.serialize_output
    amarian_amr.Primitives.Transaction.deserialize_output
    amarian_amr.Primitives.Transaction.serialize_without_witnesses
    amarian_amr.Primitives.Transaction.serialize_tail amarian_amr.Primitives.Transaction.serialize
    amarian_amr.Primitives.Transaction.deserialize_base
    amarian_amr.Primitives.Transaction.deserialize_coinbase_data
    amarian_amr.Primitives.Transaction.deserialize_witnesses
    amarian_amr.Primitives.Transaction.deserialize_tail
    amarian_amr.Primitives.Transaction.deserialize amarian_amr.Primitives.Transaction.weight
    amarian_amr.Primitives.Transaction.make_coinbase_input
    amarian_amr.Primitives.Lock.is_unspendable amarian_amr.Primitives.Lock.serialize
    amarian_amr.Primitives.Lock.deserialize amarian_amr.Primitives.Hash.is_zero
    amarian_amr.Primitives.Hash.read_hash256 amarian_amr.Primitives.OutPoint.serialize
    amarian_amr.Primitives.OutPoint.deserialize amarian_amr.Primitives.SpendCondition.serialize_key
    amarian_amr.Primitives.SpendCondition.deserialize_key
    amarian_amr.Primitives.SpendCondition.serialize_signature
    amarian_amr.Primitives.SpendCondition.deserialize_signature
    amarian_amr.Primitives.SpendCondition.serialize
    amarian_amr.Primitives.SpendCondition.deserialize amarian_amr.Primitives.Witness.serialize
    amarian_amr.Primitives.Witness.deserialize amarian_amr.Primitives.Coin.serialize
    amarian_amr.Primitives.Coin.deserialize amarian_amr.Primitives.Block.serialize_header
    amarian_amr.Primitives.Block.deserialize_header amarian_amr.Primitives.Block.serialize
    amarian_amr.Primitives.Block.deserialize amarian_amr.Primitives.Block.weight
    amarian_amr.Primitives.Amount.is_valid_amount amarian_amr.Primitives.Amount.in_i64
    amarian_amr.Primitives.Amount.checked_add amarian_amr.Primitives.Amount.try_accumulate
    amarian_amr.Utxo.Undo.serialize_tx amarian_amr.Utxo.Undo.deserialize_tx
    amarian_amr.Utxo.Undo.serialize amarian_amr.Utxo.Undo.deserialize amarian_amr.Wire.write_u8
    amarian_amr.Wire.write_u16 amarian_amr.Wire.write_u32 amarian_amr.Wire.write_u64
    amarian_amr.Wire.to_u64 amarian_amr.Wire.from_u64 amarian_amr.Wire.write_i64
    amarian_amr.Wire.compact_size_len amarian_amr.Wire.write_compact_size
    amarian_amr.Wire.write_byte_string amarian_amr.Wire.finish amarian_amr.Wire.consume
    amarian_amr.Wire.read_le amarian_amr.Wire.read_i64 amarian_amr.Wire.try_narrow
    amarian_amr.Wire.read_wide amarian_amr.Wire.read_tagged amarian_amr.Wire.bounded
    amarian_amr.Wire.read_compact_size amarian_amr.Wire.read_byte_string amarian_amr.Wire.read_count
    amarian_amr.Wire.read_many amarian_amr.Wire.read_sequence amarian_amr.Wire.write_sequence
    amarian_amr.Primitives.Digests.spend_condition_commitment amarian_amr.Crypto.tagged_hash
    amarian_amr.Crypto.sha256 amarian_amr.Base.Bytes.le_bytes amarian_amr.Base.Bytes.le_value
block-read = refl

block_canonical_example :
    (rest : List ℕ) × (at [] ≡ at rest)
    × (Block.serialize block ≡ Block.serialize block ++ rest)
    × Block.Fits limits block
block_canonical_example =
    block_canonical limits (Block.serialize block) block (at [])
      (all_bytes-AllBytes (Block.serialize block) block-bytes) block-read

block-Fits : Block.Fits limits block
block-Fits =
    (block_canonical limits (Block.serialize block) block (at [])
      (all_bytes-AllBytes (Block.serialize block) block-bytes) block-read).3

block_round_trip_example :
    Block.deserialize limits (at (Block.serialize block ++ (1 ∷ 2 ∷ [])))
    ≡ (some block, at (1 ∷ 2 ∷ []))
block_round_trip_example = block_round_trip limits block (1 ∷ 2 ∷ []) block-Fits

cut_short : (Block.deserialize limits (at (1 ∷ 2 ∷ 3 ∷ []))).0 ≡ none
unfolding amarian_amr.Primitives.Transaction.is_coinbase_inputs
    amarian_amr.Primitives.Transaction.is_coinbase
    amarian_amr.Primitives.Transaction.serialize_input
    amarian_amr.Primitives.Transaction.deserialize_input
    amarian_amr.Primitives.Transaction.serialize_output
    amarian_amr.Primitives.Transaction.deserialize_output
    amarian_amr.Primitives.Transaction.serialize_without_witnesses
    amarian_amr.Primitives.Transaction.serialize_tail amarian_amr.Primitives.Transaction.serialize
    amarian_amr.Primitives.Transaction.deserialize_base
    amarian_amr.Primitives.Transaction.deserialize_coinbase_data
    amarian_amr.Primitives.Transaction.deserialize_witnesses
    amarian_amr.Primitives.Transaction.deserialize_tail
    amarian_amr.Primitives.Transaction.deserialize amarian_amr.Primitives.Transaction.weight
    amarian_amr.Primitives.Transaction.make_coinbase_input
    amarian_amr.Primitives.Lock.is_unspendable amarian_amr.Primitives.Lock.serialize
    amarian_amr.Primitives.Lock.deserialize amarian_amr.Primitives.Hash.is_zero
    amarian_amr.Primitives.Hash.read_hash256 amarian_amr.Primitives.OutPoint.serialize
    amarian_amr.Primitives.OutPoint.deserialize amarian_amr.Primitives.SpendCondition.serialize_key
    amarian_amr.Primitives.SpendCondition.deserialize_key
    amarian_amr.Primitives.SpendCondition.serialize_signature
    amarian_amr.Primitives.SpendCondition.deserialize_signature
    amarian_amr.Primitives.SpendCondition.serialize
    amarian_amr.Primitives.SpendCondition.deserialize amarian_amr.Primitives.Witness.serialize
    amarian_amr.Primitives.Witness.deserialize amarian_amr.Primitives.Coin.serialize
    amarian_amr.Primitives.Coin.deserialize amarian_amr.Primitives.Block.serialize_header
    amarian_amr.Primitives.Block.deserialize_header amarian_amr.Primitives.Block.serialize
    amarian_amr.Primitives.Block.deserialize amarian_amr.Primitives.Block.weight
    amarian_amr.Primitives.Amount.is_valid_amount amarian_amr.Primitives.Amount.in_i64
    amarian_amr.Primitives.Amount.checked_add amarian_amr.Primitives.Amount.try_accumulate
    amarian_amr.Utxo.Undo.serialize_tx amarian_amr.Utxo.Undo.deserialize_tx
    amarian_amr.Utxo.Undo.serialize amarian_amr.Utxo.Undo.deserialize amarian_amr.Wire.write_u8
    amarian_amr.Wire.write_u16 amarian_amr.Wire.write_u32 amarian_amr.Wire.write_u64
    amarian_amr.Wire.to_u64 amarian_amr.Wire.from_u64 amarian_amr.Wire.write_i64
    amarian_amr.Wire.compact_size_len amarian_amr.Wire.write_compact_size
    amarian_amr.Wire.write_byte_string amarian_amr.Wire.finish amarian_amr.Wire.consume
    amarian_amr.Wire.read_le amarian_amr.Wire.read_i64 amarian_amr.Wire.try_narrow
    amarian_amr.Wire.read_wide amarian_amr.Wire.read_tagged amarian_amr.Wire.bounded
    amarian_amr.Wire.read_compact_size amarian_amr.Wire.read_byte_string amarian_amr.Wire.read_count
    amarian_amr.Wire.read_many amarian_amr.Wire.read_sequence amarian_amr.Wire.write_sequence
    amarian_amr.Primitives.Digests.spend_condition_commitment amarian_amr.Crypto.tagged_hash
    amarian_amr.Crypto.sha256 amarian_amr.Base.Bytes.le_bytes amarian_amr.Base.Bytes.le_value
cut_short = refl

block_failure_sticks_example :
    ((Block.deserialize limits (at (1 ∷ 2 ∷ 3 ∷ []))).1.ok ≡ false)
    × (Block.deserialize limits (Block.deserialize limits (at (1 ∷ 2 ∷ 3 ∷ []))).1
        ≡ (none, (Block.deserialize limits (at (1 ∷ 2 ∷ 3 ∷ []))).1))
block_failure_sticks_example = block_failure_sticks limits limits (at (1 ∷ 2 ∷ 3 ∷ [])) cut_short

transaction_round_trip_example :
    Transaction.deserialize limits.tx (at (Transaction.serialize spend ++ (9 ∷ [])))
    ≡ (some spend, at (9 ∷ []))
transaction_round_trip_example =
    transaction_round_trip limits.tx spend (9 ∷ []) (block-Fits.1.2.1.0)

undo-bytes : all_bytes (Undo.serialize result.undo) ≡ true
unfolding amarian_amr.Primitives.Transaction.is_coinbase_inputs
    amarian_amr.Primitives.Transaction.is_coinbase
    amarian_amr.Primitives.Transaction.serialize_input
    amarian_amr.Primitives.Transaction.deserialize_input
    amarian_amr.Primitives.Transaction.serialize_output
    amarian_amr.Primitives.Transaction.deserialize_output
    amarian_amr.Primitives.Transaction.serialize_without_witnesses
    amarian_amr.Primitives.Transaction.serialize_tail amarian_amr.Primitives.Transaction.serialize
    amarian_amr.Primitives.Transaction.deserialize_base
    amarian_amr.Primitives.Transaction.deserialize_coinbase_data
    amarian_amr.Primitives.Transaction.deserialize_witnesses
    amarian_amr.Primitives.Transaction.deserialize_tail
    amarian_amr.Primitives.Transaction.deserialize amarian_amr.Primitives.Transaction.weight
    amarian_amr.Primitives.Transaction.make_coinbase_input
    amarian_amr.Primitives.Lock.is_unspendable amarian_amr.Primitives.Lock.serialize
    amarian_amr.Primitives.Lock.deserialize amarian_amr.Primitives.Hash.is_zero
    amarian_amr.Primitives.Hash.read_hash256 amarian_amr.Primitives.OutPoint.serialize
    amarian_amr.Primitives.OutPoint.deserialize amarian_amr.Primitives.SpendCondition.serialize_key
    amarian_amr.Primitives.SpendCondition.deserialize_key
    amarian_amr.Primitives.SpendCondition.serialize_signature
    amarian_amr.Primitives.SpendCondition.deserialize_signature
    amarian_amr.Primitives.SpendCondition.serialize
    amarian_amr.Primitives.SpendCondition.deserialize amarian_amr.Primitives.Witness.serialize
    amarian_amr.Primitives.Witness.deserialize amarian_amr.Primitives.Coin.serialize
    amarian_amr.Primitives.Coin.deserialize amarian_amr.Primitives.Block.serialize_header
    amarian_amr.Primitives.Block.deserialize_header amarian_amr.Primitives.Block.serialize
    amarian_amr.Primitives.Block.deserialize amarian_amr.Primitives.Block.weight
    amarian_amr.Primitives.Amount.is_valid_amount amarian_amr.Primitives.Amount.in_i64
    amarian_amr.Primitives.Amount.checked_add amarian_amr.Primitives.Amount.try_accumulate
    amarian_amr.Utxo.Undo.serialize_tx amarian_amr.Utxo.Undo.deserialize_tx
    amarian_amr.Utxo.Undo.serialize amarian_amr.Utxo.Undo.deserialize amarian_amr.Wire.write_u8
    amarian_amr.Wire.write_u16 amarian_amr.Wire.write_u32 amarian_amr.Wire.write_u64
    amarian_amr.Wire.to_u64 amarian_amr.Wire.from_u64 amarian_amr.Wire.write_i64
    amarian_amr.Wire.compact_size_len amarian_amr.Wire.write_compact_size
    amarian_amr.Wire.write_byte_string amarian_amr.Wire.finish amarian_amr.Wire.consume
    amarian_amr.Wire.read_le amarian_amr.Wire.read_i64 amarian_amr.Wire.try_narrow
    amarian_amr.Wire.read_wide amarian_amr.Wire.read_tagged amarian_amr.Wire.bounded
    amarian_amr.Wire.read_compact_size amarian_amr.Wire.read_byte_string amarian_amr.Wire.read_count
    amarian_amr.Wire.read_many amarian_amr.Wire.read_sequence amarian_amr.Wire.write_sequence
    amarian_amr.Primitives.Digests.spend_condition_commitment amarian_amr.Crypto.tagged_hash
    amarian_amr.Crypto.sha256 amarian_amr.Base.Bytes.le_bytes amarian_amr.Base.Bytes.le_value
undo-bytes = refl

undo-read :
    Undo.deserialize regtest_params (at (Undo.serialize result.undo)) ≡ (some result.undo, at [])
unfolding amarian_amr.Primitives.Transaction.is_coinbase_inputs
    amarian_amr.Primitives.Transaction.is_coinbase
    amarian_amr.Primitives.Transaction.serialize_input
    amarian_amr.Primitives.Transaction.deserialize_input
    amarian_amr.Primitives.Transaction.serialize_output
    amarian_amr.Primitives.Transaction.deserialize_output
    amarian_amr.Primitives.Transaction.serialize_without_witnesses
    amarian_amr.Primitives.Transaction.serialize_tail amarian_amr.Primitives.Transaction.serialize
    amarian_amr.Primitives.Transaction.deserialize_base
    amarian_amr.Primitives.Transaction.deserialize_coinbase_data
    amarian_amr.Primitives.Transaction.deserialize_witnesses
    amarian_amr.Primitives.Transaction.deserialize_tail
    amarian_amr.Primitives.Transaction.deserialize amarian_amr.Primitives.Transaction.weight
    amarian_amr.Primitives.Transaction.make_coinbase_input
    amarian_amr.Primitives.Lock.is_unspendable amarian_amr.Primitives.Lock.serialize
    amarian_amr.Primitives.Lock.deserialize amarian_amr.Primitives.Hash.is_zero
    amarian_amr.Primitives.Hash.read_hash256 amarian_amr.Primitives.OutPoint.serialize
    amarian_amr.Primitives.OutPoint.deserialize amarian_amr.Primitives.SpendCondition.serialize_key
    amarian_amr.Primitives.SpendCondition.deserialize_key
    amarian_amr.Primitives.SpendCondition.serialize_signature
    amarian_amr.Primitives.SpendCondition.deserialize_signature
    amarian_amr.Primitives.SpendCondition.serialize
    amarian_amr.Primitives.SpendCondition.deserialize amarian_amr.Primitives.Witness.serialize
    amarian_amr.Primitives.Witness.deserialize amarian_amr.Primitives.Coin.serialize
    amarian_amr.Primitives.Coin.deserialize amarian_amr.Primitives.Block.serialize_header
    amarian_amr.Primitives.Block.deserialize_header amarian_amr.Primitives.Block.serialize
    amarian_amr.Primitives.Block.deserialize amarian_amr.Primitives.Block.weight
    amarian_amr.Primitives.Amount.is_valid_amount amarian_amr.Primitives.Amount.in_i64
    amarian_amr.Primitives.Amount.checked_add amarian_amr.Primitives.Amount.try_accumulate
    amarian_amr.Utxo.Undo.serialize_tx amarian_amr.Utxo.Undo.deserialize_tx
    amarian_amr.Utxo.Undo.serialize amarian_amr.Utxo.Undo.deserialize amarian_amr.Wire.write_u8
    amarian_amr.Wire.write_u16 amarian_amr.Wire.write_u32 amarian_amr.Wire.write_u64
    amarian_amr.Wire.to_u64 amarian_amr.Wire.from_u64 amarian_amr.Wire.write_i64
    amarian_amr.Wire.compact_size_len amarian_amr.Wire.write_compact_size
    amarian_amr.Wire.write_byte_string amarian_amr.Wire.finish amarian_amr.Wire.consume
    amarian_amr.Wire.read_le amarian_amr.Wire.read_i64 amarian_amr.Wire.try_narrow
    amarian_amr.Wire.read_wide amarian_amr.Wire.read_tagged amarian_amr.Wire.bounded
    amarian_amr.Wire.read_compact_size amarian_amr.Wire.read_byte_string amarian_amr.Wire.read_count
    amarian_amr.Wire.read_many amarian_amr.Wire.read_sequence amarian_amr.Wire.write_sequence
    amarian_amr.Primitives.Digests.spend_condition_commitment amarian_amr.Crypto.tagged_hash
    amarian_amr.Crypto.sha256 amarian_amr.Base.Bytes.le_bytes amarian_amr.Base.Bytes.le_value
undo-read = refl

undo_canonical_example :
    (rest : List ℕ) × (at [] ≡ at rest)
    × (Undo.serialize result.undo ≡ Undo.serialize result.undo ++ rest)
    × Undo.Fits regtest_params result.undo
undo_canonical_example =
    undo_canonical regtest_params (Undo.serialize result.undo) result.undo (at [])
      (all_bytes-AllBytes (Undo.serialize result.undo) undo-bytes) undo-read

undo_round_trip_example :
    Undo.deserialize regtest_params (at (Undo.serialize result.undo ++ (4 ∷ [])))
    ≡ (some result.undo, at (4 ∷ []))
undo_round_trip_example =
    undo_round_trip regtest_params result.undo (4 ∷ [])
      (undo_canonical regtest_params (Undo.serialize result.undo) result.undo (at [])
        (all_bytes-AllBytes (Undo.serialize result.undo) undo-bytes) undo-read).3
