-- ===== src/Tests/State.antt =====
-- A chain of two blocks that is built, and of which the upper is taken off.
use amarian_amr.Base.{
  ℕ, ◌+◌, ◌≡◌, refl, Bool, true, false, Option, none, some, List, [], ◌∷◌, replicate, list_eq,
  nat_eq,
}
use amarian_amr.Base.Int.{ℤ, pos}
use amarian_amr.Primitives.Hash.{Hash256}
use amarian_amr.Primitives.Transaction.{Transaction}
use amarian_amr.Primitives.Block.{Block, BlockHeader}
use amarian_amr.Primitives.Digests.{header_hash, block_merkle_root}
use amarian_amr.Consensus.Params.{regtest_params}
use amarian_amr.Utxo.Coins.{get_coin}
use amarian_amr.Utxo.Coins.Laws.{Coins}
use amarian_amr.Chain.State.{
  ActivationSummary, ChainSink, ChainState, accept_block, at_genesis, disconnect_tip,
}
use amarian_amr.Chain.State.Replay.{IsActive, Replayed}
use amarian_amr.Chain.State.Revert.{IsReverted, disconnect_tip-IsReverted}
use amarian_amr.Chain.Activate.{activate_best_chain}
use amarian_amr.Chain.Activate.Kept.{
  Calls, no_call, after_call, offering_block, activating, is_stopped, reached-IsActive,
}
use amarian_amr.Tests.Data.{toy, start, coinbase}

-- A sink that counts what it is told.
abbrev counting : ChainSink ℕ
counting = record {
  commit_header = λ e n. (true, n + 1);
  commit_tip = λ c h n. (true, (c, n + 1));
  has_fault = λ n. false;
  commit_tip-shown = λ c h n taken. refl;
}

abbrev genesis : BlockHeader
genesis = record {
  version = 1;
  height = 0;
  prev_block = replicate 32 0;
  merkle_root = replicate 32 6;
  timestamp = pos 1_788_598_800;
  target_bits = 0x207fffff;
  nonce = 3;
}

abbrev reward : Transaction
reward = record coinbase {
  inputs =
      record { outpoint = record { txid = replicate 32 0; index = 0xffff_ffff }; sequence = 1 }
      ∷ [];
}

abbrev root_or_zero : Option Hash256 → Hash256
root_or_zero none = replicate 32 0
root_or_zero (some h) = h

abbrev upper : Block
upper = record {
  header = record {
    version = 1;
    height = 1;
    prev_block = header_hash toy genesis;
    merkle_root =
        root_or_zero
          (block_merkle_root toy (record { header = genesis; transactions = reward ∷ [] }));
    timestamp = pos 1_788_598_900;
    target_bits = 0x207fffff;
    nonce = 4;
  };
  transactions = reward ∷ [];
}

abbrev bottom : ChainState ℕ
bottom = at_genesis toy genesis start (some 0) none

abbrev offered : ChainState ℕ
offered = (accept_block counting toy regtest_params upper (pos 1_788_600_000) bottom).1

abbrev top : ChainState ℕ
top = (activate_best_chain counting toy regtest_params 2 offered).1

abbrev stopped : Bool
stopped = is_stopped (activate_best_chain counting toy regtest_params 2 offered).0

top-reached : Calls counting toy regtest_params bottom stopped top
top-reached =
    after_call false stopped offered top
      (after_call false false bottom offered no_call
        (offering_block upper (pos 1_788_600_000) bottom))
      (activating 2 offered)

-- The block is put on the chain, and the sink refuses nothing.
top_run :
    (stopped ≡ false) × (top.blocks ≡ header_hash toy upper.header ∷ header_hash toy genesis ∷ [])
unfolding amarian_amr.Base.Bytes.le_bytes amarian_amr.Base.Bytes.le_value amarian_amr.Base.Int.◌*ℤ◌
    amarian_amr.Base.Int.◌+ℤ◌ amarian_amr.Base.Int.◌-ℤ◌ amarian_amr.Base.Table.erase
    amarian_amr.Base.Table.find amarian_amr.Base.Table.insert
    amarian_amr.Chain.Activate.activate_best_chain amarian_amr.Chain.Activate.activate_loop
    amarian_amr.Chain.Activate.connect_all amarian_amr.Chain.Activate.disconnect_all
    amarian_amr.Chain.Activate.pass amarian_amr.Chain.Activate.reachable
    amarian_amr.Chain.Index.add_header amarian_amr.Chain.Index.ancestor_at
    amarian_amr.Chain.Index.check_new_header amarian_amr.Chain.Index.from_genesis
    amarian_amr.Chain.Index.header_context_for amarian_amr.Chain.Index.insert_entry
    amarian_amr.Chain.Index.is_better_tip amarian_amr.Chain.Index.median_time_past_at
    amarian_amr.Chain.Index.new_entry amarian_amr.Chain.Index.next_target_bits
    amarian_amr.Chain.Index.next_target_bits_at amarian_amr.Chain.Index.timestamps_back
    amarian_amr.Chain.Index.walk_down amarian_amr.Chain.Marks.children_of
    amarian_amr.Chain.Marks.fail_child amarian_amr.Chain.Marks.fail_children
    amarian_amr.Chain.Marks.raise amarian_amr.Chain.Marks.record_failure
    amarian_amr.Chain.Marks.record_validity amarian_amr.Chain.Marks.refresh_best
    amarian_amr.Chain.Marks.rescan amarian_amr.Chain.Marks.walk_subtree
    amarian_amr.Chain.State.accept_block amarian_amr.Chain.State.accept_header
    amarian_amr.Chain.State.at_genesis amarian_amr.Chain.State.commit_current_tip
    amarian_amr.Chain.State.commit_entry amarian_amr.Chain.State.connect_tip
    amarian_amr.Chain.State.disconnect_tip amarian_amr.Chain.State.resume_at
    amarian_amr.Chain.State.upwards amarian_amr.Chain.Store.get_block
    amarian_amr.Chain.Store.get_undo amarian_amr.Chain.Store.have_block
    amarian_amr.Chain.Store.put_block amarian_amr.Chain.Store.put_undo
    amarian_amr.Chain.Switch.plan_chain_switch amarian_amr.Chain.Switch.retreat
    amarian_amr.Chain.Switch.step_back amarian_amr.Chain.Switch.turned
    amarian_amr.Consensus.Asert.asert_next_bits amarian_amr.Consensus.Asert.asert_next_bits_for
    amarian_amr.Consensus.Asert.asert_target amarian_amr.Consensus.Asert.capped
    amarian_amr.Consensus.Asert.clamp amarian_amr.Consensus.Asert.fraction_factor
    amarian_amr.Consensus.Asert.into_range amarian_amr.Consensus.Asert.quotient_loop
    amarian_amr.Consensus.Asert.scale_target amarian_amr.Consensus.Asert.scaled_exponent
    amarian_amr.Consensus.Asert.scaled_quotient amarian_amr.Consensus.Asert.shift_into_range
    amarian_amr.Consensus.Issuance.block_reward amarian_amr.Consensus.Issuance.era_count_loop
    amarian_amr.Consensus.Issuance.era_count_with_reward
    amarian_amr.Consensus.Issuance.era_of_height amarian_amr.Consensus.Issuance.issuance_end_height
    amarian_amr.Consensus.Issuance.retain amarian_amr.Consensus.Issuance.reward_after
    amarian_amr.Consensus.Issuance.total_issuance amarian_amr.Consensus.Issuance.total_loop
    amarian_amr.Consensus.Target.check_proof_of_work amarian_amr.Consensus.Target.compact_to_target
    amarian_amr.Consensus.Target.exceeds amarian_amr.Consensus.Target.hash_meets_target
    amarian_amr.Consensus.Target.leading amarian_amr.Consensus.Target.pack_compact
    amarian_amr.Consensus.Target.place amarian_amr.Consensus.Target.reversed
    amarian_amr.Consensus.Target.set amarian_amr.Consensus.Target.significant
    amarian_amr.Consensus.Target.target_to_compact
    amarian_amr.Consensus.Validation.Blocks.any_coinbase
    amarian_amr.Consensus.Validation.Blocks.check_block
    amarian_amr.Consensus.Validation.Blocks.check_coinbase_amount
    amarian_amr.Consensus.Validation.Blocks.check_no_duplicate_spend
    amarian_amr.Consensus.Validation.Blocks.check_transactions
    amarian_amr.Consensus.Validation.Blocks.front_is_coinbase
    amarian_amr.Consensus.Validation.Blocks.spent_outpoints
    amarian_amr.Consensus.Validation.Header.check_block_header
    amarian_amr.Consensus.Validation.Header.contextual_check_block_header
    amarian_amr.Consensus.Validation.Header.insert_sorted
    amarian_amr.Consensus.Validation.Header.median_time_past
    amarian_amr.Consensus.Validation.Header.sort amarian_amr.Consensus.Validation.Spend.check_input
    amarian_amr.Consensus.Validation.Spend.check_inputs
    amarian_amr.Consensus.Validation.Spend.check_spend_authorisation
    amarian_amr.Consensus.Validation.Spend.check_transaction_inputs
    amarian_amr.Consensus.Validation.Spend.is_immature
    amarian_amr.Consensus.Validation.Spend.match_signature
    amarian_amr.Consensus.Validation.Spend.match_signatures
    amarian_amr.Consensus.Validation.Spend.matches_condition_commitment
    amarian_amr.Consensus.Validation.Spend.satisfies_threshold
    amarian_amr.Consensus.Validation.Spend.subtract_paid
    amarian_amr.Consensus.Validation.Spend.transaction_fee
    amarian_amr.Consensus.Validation.Structure.accumulate
    amarian_amr.Consensus.Validation.Structure.bytes_less
    amarian_amr.Consensus.Validation.Structure.check_all
    amarian_amr.Consensus.Validation.Structure.check_coinbase_shape
    amarian_amr.Consensus.Validation.Structure.check_keys
    amarian_amr.Consensus.Validation.Structure.check_signature_sizes
    amarian_amr.Consensus.Validation.Structure.check_spend_condition
    amarian_amr.Consensus.Validation.Structure.check_spend_inputs
    amarian_amr.Consensus.Validation.Structure.check_spend_shape
    amarian_amr.Consensus.Validation.Structure.check_threshold_condition
    amarian_amr.Consensus.Validation.Structure.check_transaction
    amarian_amr.Consensus.Validation.Structure.check_witness
    amarian_amr.Consensus.Validation.Structure.check_witnesses
    amarian_amr.Consensus.Validation.Structure.has_wrong_public_key_size
    amarian_amr.Consensus.Validation.Structure.has_wrong_signature_size
    amarian_amr.Consensus.Validation.Structure.insert_all
    amarian_amr.Consensus.Validation.Structure.is_seen
    amarian_amr.Consensus.Validation.Structure.key_less
    amarian_amr.Consensus.Validation.Structure.sum_amounts amarian_amr.Consensus.Wide.exceeds
    amarian_amr.Consensus.Wide.exceeds_words amarian_amr.Consensus.Wide.from_target
    amarian_amr.Consensus.Wide.is_zero amarian_amr.Consensus.Wide.left_word
    amarian_amr.Consensus.Wide.loses_bits amarian_amr.Consensus.Wide.mul_add_64
    amarian_amr.Consensus.Wide.multiply_small amarian_amr.Consensus.Wide.multiply_words
    amarian_amr.Consensus.Wide.right_word amarian_amr.Consensus.Wide.shift_left
    amarian_amr.Consensus.Wide.shift_right amarian_amr.Consensus.Wide.to_target
    amarian_amr.Consensus.Wide.words amarian_amr.Consensus.Work.add
    amarian_amr.Consensus.Work.add_bytes amarian_amr.Consensus.Work.bit_length
    amarian_amr.Consensus.Work.bit_width amarian_amr.Consensus.Work.divide
    amarian_amr.Consensus.Work.divide_loop amarian_amr.Consensus.Work.from_u64
    amarian_amr.Consensus.Work.increment amarian_amr.Consensus.Work.more_work
    amarian_amr.Consensus.Work.of_compact_target amarian_amr.Consensus.Work.of_target
    amarian_amr.Consensus.Work.set_bit amarian_amr.Consensus.Work.shift_bits
    amarian_amr.Consensus.Work.shift_left amarian_amr.Consensus.Work.subtract
    amarian_amr.Consensus.Work.subtract_bytes amarian_amr.Crypto.double_sha256
    amarian_amr.Crypto.find_in amarian_amr.Crypto.find_scheme amarian_amr.Crypto.has_openssl_name
    amarian_amr.Crypto.sha256 amarian_amr.Crypto.tagged_hash amarian_amr.Crypto.verify
    amarian_amr.Crypto.verify_found amarian_amr.Crypto.verify_schnorr
    amarian_amr.Crypto.verify_sized amarian_amr.Crypto.verify_with_openssl
    amarian_amr.Primitives.Amount.checked_add amarian_amr.Primitives.Amount.in_i64
    amarian_amr.Primitives.Amount.is_valid_amount amarian_amr.Primitives.Amount.try_accumulate
    amarian_amr.Primitives.Block.deserialize amarian_amr.Primitives.Block.deserialize_header
    amarian_amr.Primitives.Block.serialize amarian_amr.Primitives.Block.serialize_header
    amarian_amr.Primitives.Block.weight amarian_amr.Primitives.Digests.begin_preimage
    amarian_amr.Primitives.Digests.block_merkle_root
    amarian_amr.Primitives.Digests.compute_merkle_root
    amarian_amr.Primitives.Digests.compute_sighash_midstates
    amarian_amr.Primitives.Digests.header_hash amarian_amr.Primitives.Digests.merkle_branch
    amarian_amr.Primitives.Digests.merkle_fold amarian_amr.Primitives.Digests.merkle_level
    amarian_amr.Primitives.Digests.signature_hash
    amarian_amr.Primitives.Digests.signature_hash_preimage
    amarian_amr.Primitives.Digests.spend_condition_commitment amarian_amr.Primitives.Digests.txid
    amarian_amr.Primitives.Digests.wtxid amarian_amr.Primitives.Hash.is_zero
    amarian_amr.Primitives.Hash.read_hash256 amarian_amr.Primitives.Lock.deserialize
    amarian_amr.Primitives.Lock.is_unspendable amarian_amr.Primitives.Lock.serialize
    amarian_amr.Primitives.OutPoint.deserialize amarian_amr.Primitives.OutPoint.serialize
    amarian_amr.Primitives.SpendCondition.deserialize
    amarian_amr.Primitives.SpendCondition.deserialize_key
    amarian_amr.Primitives.SpendCondition.deserialize_signature
    amarian_amr.Primitives.SpendCondition.serialize
    amarian_amr.Primitives.SpendCondition.serialize_key
    amarian_amr.Primitives.SpendCondition.serialize_signature
    amarian_amr.Primitives.Transaction.deserialize
    amarian_amr.Primitives.Transaction.deserialize_base
    amarian_amr.Primitives.Transaction.deserialize_coinbase_data
    amarian_amr.Primitives.Transaction.deserialize_input
    amarian_amr.Primitives.Transaction.deserialize_output
    amarian_amr.Primitives.Transaction.deserialize_tail
    amarian_amr.Primitives.Transaction.deserialize_witnesses
    amarian_amr.Primitives.Transaction.is_coinbase
    amarian_amr.Primitives.Transaction.is_coinbase_inputs
    amarian_amr.Primitives.Transaction.make_coinbase_input
    amarian_amr.Primitives.Transaction.serialize amarian_amr.Primitives.Transaction.serialize_input
    amarian_amr.Primitives.Transaction.serialize_output
    amarian_amr.Primitives.Transaction.serialize_tail
    amarian_amr.Primitives.Transaction.serialize_without_witnesses
    amarian_amr.Primitives.Transaction.weight amarian_amr.Primitives.Witness.deserialize
    amarian_amr.Primitives.Witness.serialize amarian_amr.Utxo.Coins.add_coin
    amarian_amr.Utxo.Coins.change_count amarian_amr.Utxo.Coins.discard amarian_amr.Utxo.Coins.flush
    amarian_amr.Utxo.Coins.get_coin amarian_amr.Utxo.Coins.have_coin
    amarian_amr.Utxo.Coins.mark_spent amarian_amr.Utxo.Coins.over amarian_amr.Utxo.Coins.spend_coin
    amarian_amr.Utxo.Coins.write amarian_amr.Utxo.Coins.write_all amarian_amr.Utxo.Connect.add_fee
    amarian_amr.Utxo.Connect.connect_batch amarian_amr.Utxo.Connect.connect_block
    amarian_amr.Utxo.Connect.connect_inputs amarian_amr.Utxo.Connect.connect_transaction
    amarian_amr.Utxo.Connect.connect_transactions amarian_amr.Utxo.Connect.create_output
    amarian_amr.Utxo.Connect.create_outputs amarian_amr.Utxo.Connect.disconnect_batch
    amarian_amr.Utxo.Connect.disconnect_block amarian_amr.Utxo.Connect.disconnect_transaction
    amarian_amr.Utxo.Connect.disconnect_transactions amarian_amr.Utxo.Connect.finish_connect
    amarian_amr.Utxo.Connect.is_stored amarian_amr.Utxo.Connect.outpoint_for
    amarian_amr.Utxo.Connect.remove_output amarian_amr.Utxo.Connect.remove_outputs
    amarian_amr.Utxo.Connect.remove_stored amarian_amr.Utxo.Connect.restore_inputs
    amarian_amr.Utxo.Connect.restore_transaction amarian_amr.Utxo.Connect.spend_inputs
    amarian_amr.Utxo.Ledger.add_or amarian_amr.Utxo.Ledger.spend_or amarian_amr.Wire.bounded
    amarian_amr.Wire.compact_size_len amarian_amr.Wire.consume amarian_amr.Wire.finish
    amarian_amr.Wire.from_u64 amarian_amr.Wire.read_byte_string amarian_amr.Wire.read_compact_size
    amarian_amr.Wire.read_count amarian_amr.Wire.read_i64 amarian_amr.Wire.read_le
    amarian_amr.Wire.read_many amarian_amr.Wire.read_sequence amarian_amr.Wire.read_tagged
    amarian_amr.Wire.read_wide amarian_amr.Wire.to_u64 amarian_amr.Wire.try_narrow
    amarian_amr.Wire.write_byte_string amarian_amr.Wire.write_compact_size
    amarian_amr.Wire.write_i64 amarian_amr.Wire.write_sequence amarian_amr.Wire.write_u16
    amarian_amr.Wire.write_u32 amarian_amr.Wire.write_u64 amarian_amr.Wire.write_u8
top_run = (refl, refl)

reached-IsActive_example : IsActive toy regtest_params (get_coin start) top
reached-IsActive_example =
    reached-IsActive counting toy regtest_params genesis start (some 0) none refl stopped top
      top-reached top_run.0

abbrev summary : ActivationSummary
summary = record {
  tip = none;
  connected = 0;
  disconnected = 0;
  rejected = [];
  reached_best_header = false;
}

disconnect_tip-IsReverted_example :
    (before : Coins) × Replayed toy regtest_params
      (get_coin start)
      top.store
      (header_hash toy genesis ∷ [])
      before
    × IsReverted counting toy regtest_params
        (header_hash toy upper.header)
        (header_hash toy genesis ∷ [])
        before
        top.sink
        summary
        (disconnect_tip counting toy regtest_params summary top)
disconnect_tip-IsReverted_example =
    disconnect_tip-IsReverted counting toy regtest_params (get_coin start) summary top
      (header_hash toy upper.header) (header_hash toy genesis) []
      (reached-IsActive counting toy regtest_params genesis start (some 0) none refl stopped top
        top-reached top_run.0)
      top_run.1
