-- ===== src/Tests/Ledger.antt =====
-- The block of the small chain connected and taken back.
use amarian_amr.Base.{ℕ, ◌+◌, ◌≤◌, ◌≡◌, refl, Bool, true, false, Option, none, some, List, [], ◌∷◌}
use amarian_amr.Base.Int.{pos, pos_part}
use amarian_amr.Base.Result.{ok}
use amarian_amr.Consensus.Params.{regtest_params}
use amarian_amr.Consensus.Issuance.{block_reward}
use amarian_amr.Utxo.Coins.{CoinsCache, get_coin, flush, spend_coin, add_coin}
use amarian_amr.Utxo.Coins.Laws.{
  IsDistinct, coins-flush, spend, on_coins, spend_coin-spend, add, coins_of, add_coin-add,
}
use amarian_amr.Base.Table.{find}
use amarian_amr.Utxo.Ledger.{coins_store}
use amarian_amr.Utxo.Connect.{
  ConnectResult, connect_block, connect_batch, disconnect_block, disconnect_batch,
}
use amarian_amr.Utxo.Connect.RoundTrip.{
  shown, commit_coins, connect_block-shown, disconnect_block-shown, disconnect_block-connect_block,
}
use amarian_amr.Utxo.Connect.Supply.{value_paid, value_spent, connect_block-no_inflation}
use amarian_amr.Tests.Data.{toy, block, start, old_coin, old_outpoint, dirty}

abbrev pub result : ConnectResult
result = record {
  undo = record { transactions = record { spent = old_coin ∷ [] } ∷ [] };
  total_fees = pos 50;
}

after : CoinsCache
after = (connect_block toy block start regtest_params).1

connected : connect_block toy block start regtest_params ≡ (ok result, after)
unfolding after amarian_amr.Utxo.Connect.outpoint_for amarian_amr.Utxo.Connect.is_stored
    amarian_amr.Utxo.Connect.add_fee amarian_amr.Utxo.Connect.spend_inputs
    amarian_amr.Utxo.Connect.create_output amarian_amr.Utxo.Connect.create_outputs
    amarian_amr.Utxo.Connect.remove_stored amarian_amr.Utxo.Connect.remove_output
    amarian_amr.Utxo.Connect.remove_outputs amarian_amr.Utxo.Connect.restore_inputs
    amarian_amr.Utxo.Connect.restore_transaction amarian_amr.Utxo.Connect.connect_inputs
    amarian_amr.Utxo.Connect.connect_transaction amarian_amr.Utxo.Connect.connect_transactions
    amarian_amr.Utxo.Connect.disconnect_transaction amarian_amr.Utxo.Connect.disconnect_transactions
    amarian_amr.Utxo.Connect.finish_connect amarian_amr.Utxo.Connect.connect_batch
    amarian_amr.Utxo.Connect.disconnect_batch amarian_amr.Utxo.Connect.connect_block
    amarian_amr.Utxo.Connect.disconnect_block amarian_amr.Utxo.Ledger.spend_or
    amarian_amr.Utxo.Ledger.add_or amarian_amr.Utxo.Coins.over amarian_amr.Utxo.Coins.get_coin
    amarian_amr.Utxo.Coins.have_coin amarian_amr.Utxo.Coins.mark_spent amarian_amr.Utxo.Coins.write
    amarian_amr.Utxo.Coins.add_coin amarian_amr.Utxo.Coins.spend_coin
    amarian_amr.Utxo.Coins.write_all amarian_amr.Utxo.Coins.flush amarian_amr.Utxo.Coins.discard
    amarian_amr.Utxo.Coins.change_count amarian_amr.Base.Table.find amarian_amr.Base.Table.insert
    amarian_amr.Base.Table.erase amarian_amr.Base.Int.◌+ℤ◌ amarian_amr.Base.Int.◌-ℤ◌
    amarian_amr.Base.Int.◌*ℤ◌ amarian_amr.Base.Bytes.le_bytes amarian_amr.Base.Bytes.le_value
    amarian_amr.Consensus.Validation.Blocks.front_is_coinbase
    amarian_amr.Consensus.Validation.Blocks.any_coinbase
    amarian_amr.Consensus.Validation.Blocks.check_transactions
    amarian_amr.Consensus.Validation.Blocks.spent_outpoints
    amarian_amr.Consensus.Validation.Blocks.check_no_duplicate_spend
    amarian_amr.Consensus.Validation.Blocks.check_block
    amarian_amr.Consensus.Validation.Blocks.check_coinbase_amount
    amarian_amr.Consensus.Validation.Spend.subtract_paid
    amarian_amr.Consensus.Validation.Spend.transaction_fee
    amarian_amr.Consensus.Validation.Spend.is_immature
    amarian_amr.Consensus.Validation.Spend.match_signature
    amarian_amr.Consensus.Validation.Spend.match_signatures
    amarian_amr.Consensus.Validation.Spend.satisfies_threshold
    amarian_amr.Consensus.Validation.Spend.matches_condition_commitment
    amarian_amr.Consensus.Validation.Spend.check_input
    amarian_amr.Consensus.Validation.Spend.check_inputs
    amarian_amr.Consensus.Validation.Spend.check_spend_authorisation
    amarian_amr.Consensus.Validation.Spend.check_transaction_inputs
    amarian_amr.Consensus.Validation.Structure.has_wrong_public_key_size
    amarian_amr.Consensus.Validation.Structure.has_wrong_signature_size
    amarian_amr.Consensus.Validation.Structure.bytes_less
    amarian_amr.Consensus.Validation.Structure.key_less
    amarian_amr.Consensus.Validation.Structure.check_keys
    amarian_amr.Consensus.Validation.Structure.check_threshold_condition
    amarian_amr.Consensus.Validation.Structure.check_spend_condition
    amarian_amr.Consensus.Validation.Structure.check_all
    amarian_amr.Consensus.Validation.Structure.check_signature_sizes
    amarian_amr.Consensus.Validation.Structure.check_witness
    amarian_amr.Consensus.Validation.Structure.check_coinbase_shape
    amarian_amr.Consensus.Validation.Structure.check_spend_shape
    amarian_amr.Consensus.Validation.Structure.accumulate
    amarian_amr.Consensus.Validation.Structure.sum_amounts
    amarian_amr.Consensus.Validation.Structure.is_seen
    amarian_amr.Consensus.Validation.Structure.insert_all
    amarian_amr.Consensus.Validation.Structure.check_witnesses
    amarian_amr.Consensus.Validation.Structure.check_spend_inputs
    amarian_amr.Consensus.Validation.Structure.check_transaction
    amarian_amr.Consensus.Issuance.era_of_height amarian_amr.Consensus.Issuance.retain
    amarian_amr.Consensus.Issuance.reward_after amarian_amr.Consensus.Issuance.block_reward
    amarian_amr.Consensus.Issuance.era_count_loop
    amarian_amr.Consensus.Issuance.era_count_with_reward
    amarian_amr.Consensus.Issuance.issuance_end_height amarian_amr.Consensus.Issuance.total_loop
    amarian_amr.Consensus.Issuance.total_issuance amarian_amr.Primitives.Digests.begin_preimage
    amarian_amr.Primitives.Digests.txid amarian_amr.Primitives.Digests.wtxid
    amarian_amr.Primitives.Digests.header_hash
    amarian_amr.Primitives.Digests.spend_condition_commitment
    amarian_amr.Primitives.Digests.compute_sighash_midstates
    amarian_amr.Primitives.Digests.signature_hash_preimage
    amarian_amr.Primitives.Digests.signature_hash amarian_amr.Primitives.Digests.merkle_branch
    amarian_amr.Primitives.Digests.merkle_level amarian_amr.Primitives.Digests.merkle_fold
    amarian_amr.Primitives.Digests.compute_merkle_root
    amarian_amr.Primitives.Digests.block_merkle_root
    amarian_amr.Primitives.Transaction.is_coinbase_inputs
    amarian_amr.Primitives.Transaction.is_coinbase
    amarian_amr.Primitives.Transaction.serialize_input
    amarian_amr.Primitives.Transaction.deserialize_input
    amarian_amr.Primitives.Transaction.serialize_output
    amarian_amr.Primitives.Transaction.deserialize_output
    amarian_amr.Primitives.Transaction.serialize_without_witnesses
    amarian_amr.Primitives.Transaction.serialize_tail amarian_amr.Primitives.Transaction.serialize
    amarian_amr.Primitives.Transaction.deserialize_base
    amarian_amr.Primitives.Transaction.deserialize_coinbase_data
    amarian_amr.Primitives.Transaction.deserialize_witnesses
    amarian_amr.Primitives.Transaction.deserialize_tail
    amarian_amr.Primitives.Transaction.deserialize amarian_amr.Primitives.Transaction.weight
    amarian_amr.Primitives.Transaction.make_coinbase_input
    amarian_amr.Primitives.Lock.is_unspendable amarian_amr.Primitives.Lock.serialize
    amarian_amr.Primitives.Lock.deserialize amarian_amr.Primitives.Hash.is_zero
    amarian_amr.Primitives.Hash.read_hash256 amarian_amr.Primitives.OutPoint.serialize
    amarian_amr.Primitives.OutPoint.deserialize amarian_amr.Primitives.SpendCondition.serialize_key
    amarian_amr.Primitives.SpendCondition.deserialize_key
    amarian_amr.Primitives.SpendCondition.serialize_signature
    amarian_amr.Primitives.SpendCondition.deserialize_signature
    amarian_amr.Primitives.SpendCondition.serialize
    amarian_amr.Primitives.SpendCondition.deserialize amarian_amr.Primitives.Amount.is_valid_amount
    amarian_amr.Primitives.Amount.in_i64 amarian_amr.Primitives.Amount.checked_add
    amarian_amr.Primitives.Amount.try_accumulate amarian_amr.Crypto.find_in
    amarian_amr.Crypto.find_scheme amarian_amr.Crypto.sha256 amarian_amr.Crypto.double_sha256
    amarian_amr.Crypto.tagged_hash amarian_amr.Crypto.verify_schnorr
    amarian_amr.Crypto.has_openssl_name amarian_amr.Crypto.verify_with_openssl
    amarian_amr.Crypto.verify_sized amarian_amr.Crypto.verify_found amarian_amr.Crypto.verify
    amarian_amr.Wire.write_u8 amarian_amr.Wire.write_u16 amarian_amr.Wire.write_u32
    amarian_amr.Wire.write_u64 amarian_amr.Wire.to_u64 amarian_amr.Wire.from_u64
    amarian_amr.Wire.write_i64 amarian_amr.Wire.compact_size_len amarian_amr.Wire.write_compact_size
    amarian_amr.Wire.write_byte_string amarian_amr.Wire.finish amarian_amr.Wire.consume
    amarian_amr.Wire.read_le amarian_amr.Wire.read_i64 amarian_amr.Wire.try_narrow
    amarian_amr.Wire.read_wide amarian_amr.Wire.read_tagged amarian_amr.Wire.bounded
    amarian_amr.Wire.read_compact_size amarian_amr.Wire.read_byte_string amarian_amr.Wire.read_count
    amarian_amr.Wire.read_many amarian_amr.Wire.read_sequence amarian_amr.Wire.write_sequence
connected = refl

disconnect_block-connect_block_example :
    shown (disconnect_block toy block result.undo after) ≡ (ok tt, get_coin start)
disconnect_block-connect_block_example =
    disconnect_block-connect_block toy block regtest_params start after result connected

connect_block-no_inflation_example :
    value_paid block.transactions
    ≤ value_spent result.undo.transactions
      + pos_part (block_reward block.header.height regtest_params.issuance)
connect_block-no_inflation_example =
    connect_block-no_inflation toy block regtest_params start after result connected

connect_block-shown_example :
    shown (connect_block toy block start regtest_params)
    ≡ commit_coins
        (get_coin start)
        (connect_batch coins_store toy block regtest_params (get_coin start))
connect_block-shown_example = connect_block-shown toy block regtest_params start

disconnect_block-shown_example :
    shown (disconnect_block toy block result.undo after)
    ≡ commit_coins
        (get_coin after)
        (disconnect_batch coins_store toy block result.undo (get_coin after))
disconnect_block-shown_example = disconnect_block-shown toy block result.undo after

dirty-IsDistinct : IsDistinct dirty
unfolding find
dirty-IsDistinct = (refl, (refl, tt))

coins-flush_example : get_coin (flush dirty start).1 ≡ get_coin dirty
coins-flush_example = coins-flush dirty start dirty-IsDistinct (λ o. refl)

spend_coin-spend_example :
    on_coins (spend_coin old_outpoint start) ≡ spend old_outpoint (get_coin start)
spend_coin-spend_example = spend_coin-spend old_outpoint start

add_coin-add_example :
    coins_of (add_coin old_outpoint old_coin dirty) ≡ add old_outpoint old_coin (get_coin dirty)
add_coin-add_example = add_coin-add old_outpoint old_coin dirty
