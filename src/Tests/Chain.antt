-- ===== src/Tests/Chain.antt =====
-- A small tree of headers: two blocks on the genesis block, one of which fails.
use amarian_amr.Base.{
  ℕ, ◌+◌, ◌≡◌, refl, true, false, Option, none, some, List, [], ◌∷◌, replicate, list_eq, nat_eq,
  map,
}
use amarian_amr.Base.Int.{ℤ, pos}
use amarian_amr.Base.Table.{find}
use amarian_amr.Primitives.Hash.{Hash256}
use amarian_amr.Primitives.Block.{BlockHeader}
use amarian_amr.Primitives.Digests.{header_hash}
use amarian_amr.Consensus.Params.{regtest_params}
use amarian_amr.Chain.Index.{
  BlockIndex, Entry, from_genesis, add_header, new_entry, full, no_failure,
}
use amarian_amr.Chain.Marks.{record_failure}
use amarian_amr.Chain.Sound.{IsSound}
use amarian_amr.Chain.Sound.Reach.{Reach, built, after, adding, failing, reachable-IsSound}
use amarian_amr.Chain.Switch.{plan_chain_switch}
use amarian_amr.Chain.Switch.Fork.{IsSwitch, plan_chain_switch-IsSwitch}
use amarian_amr.Tests.Data.{toy}

abbrev genesis : BlockHeader
genesis = record {
  version = 1;
  height = 0;
  prev_block = replicate 32 0;
  merkle_root = replicate 32 6;
  timestamp = pos 1_788_598_800;
  target_bits = 0x207fffff;
  nonce = 3;
}

abbrev child : Hash256 → ℕ → ℕ → BlockHeader
child parent height nonce = record {
  version = 1;
  height = height;
  prev_block = parent;
  merkle_root = replicate 32 7;
  timestamp = pos (1_788_598_800 + height);
  target_bits = 0x207fffff;
  nonce = nonce;
}

abbrev now : ℤ
now = pos 1_788_600_000

abbrev grow : BlockHeader → BlockIndex → BlockIndex
grow header ix = (add_header toy header now regtest_params ix).1

abbrev first : BlockHeader
first = child (header_hash toy genesis) 1 4

abbrev second : BlockHeader
second = child (header_hash toy genesis) 1 9

abbrev third : BlockHeader
third = child (header_hash toy second) 2 5

abbrev tree : BlockIndex
tree = grow third (grow second (grow first (from_genesis toy genesis)))

abbrev entry_of : BlockHeader → Option Entry
entry_of header = find (header_hash toy header) tree.entries

abbrev failed : BlockIndex
failed = (record_failure (header_hash toy second) tree).1

tree_reached : Reach toy regtest_params genesis tree
tree_reached =
    after _ tree
      (after _ _ (after _ _ built (adding first now (from_genesis toy genesis)))
        (adding second now (grow first (from_genesis toy genesis))))
      (adding third now (grow second (grow first (from_genesis toy genesis))))

reachable-IsSound_example : IsSound failed
reachable-IsSound_example =
    reachable-IsSound toy regtest_params genesis refl failed
      (after tree failed tree_reached (failing (header_hash toy second) tree))

abbrev any_entry : Entry
any_entry =
    new_entry toy genesis
      (record {
        header = genesis;
        hash = [];
        height = 0;
        total_work = [];
        parent = none;
        validity = full;
        failure = no_failure;
        sequence = 0;
      })
      0

abbrev entry_or_any : Option Entry → Entry
entry_or_any none = any_entry
entry_or_any (some e) = e

abbrev first_entry : Entry
first_entry = entry_or_any (entry_of first)

abbrev third_entry : Entry
third_entry = entry_or_any (entry_of third)

-- The tree holds both tips, the best header is the higher one, and when its branch fails two entries are
-- marked and the other tip is best; the switch between the tips connects the two blocks in order.
tree-runs :
    (find first_entry.hash tree.entries ≡ some first_entry)
    × (find third_entry.hash tree.entries ≡ some third_entry)
    × (tree.best_header ≡ some (header_hash toy third))
    × ((record_failure (header_hash toy second) tree).0 ≡ 2)
    × (failed.best_header ≡ some (header_hash toy first))
    × (map
          (λ e. Entry.hash e)
          (plan_chain_switch tree (some first_entry) (some third_entry)).connect
        ≡ header_hash toy second ∷ header_hash toy third ∷ [])
unfolding amarian_amr.Base.Table.erase amarian_amr.Base.Table.find amarian_amr.Base.Table.insert
    amarian_amr.Chain.Index.add_header amarian_amr.Chain.Index.ancestor_at
    amarian_amr.Chain.Index.check_new_header amarian_amr.Chain.Index.from_genesis
    amarian_amr.Chain.Index.header_context_for amarian_amr.Chain.Index.insert_entry
    amarian_amr.Chain.Index.is_better_tip amarian_amr.Chain.Index.median_time_past_at
    amarian_amr.Chain.Index.new_entry amarian_amr.Chain.Index.next_target_bits
    amarian_amr.Chain.Index.next_target_bits_at amarian_amr.Chain.Index.timestamps_back
    amarian_amr.Chain.Index.walk_down amarian_amr.Chain.Marks.children_of
    amarian_amr.Chain.Marks.fail_child amarian_amr.Chain.Marks.fail_children
    amarian_amr.Chain.Marks.raise amarian_amr.Chain.Marks.record_failure
    amarian_amr.Chain.Marks.record_validity amarian_amr.Chain.Marks.refresh_best
    amarian_amr.Chain.Marks.rescan amarian_amr.Chain.Marks.walk_subtree
    amarian_amr.Chain.Switch.plan_chain_switch amarian_amr.Chain.Switch.retreat
    amarian_amr.Chain.Switch.step_back amarian_amr.Chain.Switch.turned
    amarian_amr.Consensus.Asert.asert_next_bits amarian_amr.Consensus.Asert.asert_next_bits_for
    amarian_amr.Consensus.Asert.asert_target amarian_amr.Consensus.Asert.capped
    amarian_amr.Consensus.Asert.clamp amarian_amr.Consensus.Asert.fraction_factor
    amarian_amr.Consensus.Asert.into_range amarian_amr.Consensus.Asert.quotient_loop
    amarian_amr.Consensus.Asert.scale_target amarian_amr.Consensus.Asert.scaled_exponent
    amarian_amr.Consensus.Asert.scaled_quotient amarian_amr.Consensus.Asert.shift_into_range
    amarian_amr.Consensus.Target.check_proof_of_work amarian_amr.Consensus.Target.compact_to_target
    amarian_amr.Consensus.Target.exceeds amarian_amr.Consensus.Target.hash_meets_target
    amarian_amr.Consensus.Target.leading amarian_amr.Consensus.Target.pack_compact
    amarian_amr.Consensus.Target.place amarian_amr.Consensus.Target.reversed
    amarian_amr.Consensus.Target.set amarian_amr.Consensus.Target.significant
    amarian_amr.Consensus.Target.target_to_compact
    amarian_amr.Consensus.Validation.Header.check_block_header
    amarian_amr.Consensus.Validation.Header.contextual_check_block_header
    amarian_amr.Consensus.Validation.Header.insert_sorted
    amarian_amr.Consensus.Validation.Header.median_time_past
    amarian_amr.Consensus.Validation.Header.sort amarian_amr.Consensus.Wide.exceeds
    amarian_amr.Consensus.Wide.exceeds_words amarian_amr.Consensus.Wide.from_target
    amarian_amr.Consensus.Wide.is_zero amarian_amr.Consensus.Wide.left_word
    amarian_amr.Consensus.Wide.loses_bits amarian_amr.Consensus.Wide.mul_add_64
    amarian_amr.Consensus.Wide.multiply_small amarian_amr.Consensus.Wide.multiply_words
    amarian_amr.Consensus.Wide.right_word amarian_amr.Consensus.Wide.shift_left
    amarian_amr.Consensus.Wide.shift_right amarian_amr.Consensus.Wide.to_target
    amarian_amr.Consensus.Wide.words amarian_amr.Consensus.Work.add
    amarian_amr.Consensus.Work.add_bytes amarian_amr.Consensus.Work.bit_length
    amarian_amr.Consensus.Work.bit_width amarian_amr.Consensus.Work.divide
    amarian_amr.Consensus.Work.divide_loop amarian_amr.Consensus.Work.from_u64
    amarian_amr.Consensus.Work.increment amarian_amr.Consensus.Work.more_work
    amarian_amr.Consensus.Work.of_compact_target amarian_amr.Consensus.Work.of_target
    amarian_amr.Consensus.Work.set_bit amarian_amr.Consensus.Work.shift_bits
    amarian_amr.Consensus.Work.shift_left amarian_amr.Consensus.Work.subtract
    amarian_amr.Consensus.Work.subtract_bytes amarian_amr.Crypto.double_sha256
    amarian_amr.Crypto.find_in amarian_amr.Crypto.find_scheme amarian_amr.Crypto.has_openssl_name
    amarian_amr.Crypto.sha256 amarian_amr.Crypto.tagged_hash amarian_amr.Crypto.verify
    amarian_amr.Crypto.verify_found amarian_amr.Crypto.verify_schnorr
    amarian_amr.Crypto.verify_sized amarian_amr.Crypto.verify_with_openssl
    amarian_amr.Primitives.Amount.checked_add amarian_amr.Primitives.Amount.in_i64
    amarian_amr.Primitives.Amount.is_valid_amount amarian_amr.Primitives.Amount.try_accumulate
    amarian_amr.Primitives.Block.deserialize amarian_amr.Primitives.Block.deserialize_header
    amarian_amr.Primitives.Block.serialize amarian_amr.Primitives.Block.serialize_header
    amarian_amr.Primitives.Block.weight amarian_amr.Primitives.Digests.begin_preimage
    amarian_amr.Primitives.Digests.block_merkle_root
    amarian_amr.Primitives.Digests.compute_merkle_root
    amarian_amr.Primitives.Digests.compute_sighash_midstates
    amarian_amr.Primitives.Digests.header_hash amarian_amr.Primitives.Digests.merkle_branch
    amarian_amr.Primitives.Digests.merkle_fold amarian_amr.Primitives.Digests.merkle_level
    amarian_amr.Primitives.Digests.signature_hash
    amarian_amr.Primitives.Digests.signature_hash_preimage
    amarian_amr.Primitives.Digests.spend_condition_commitment amarian_amr.Primitives.Digests.txid
    amarian_amr.Primitives.Digests.wtxid amarian_amr.Primitives.Hash.is_zero
    amarian_amr.Primitives.Hash.read_hash256 amarian_amr.Wire.bounded
    amarian_amr.Wire.compact_size_len amarian_amr.Wire.consume amarian_amr.Wire.finish
    amarian_amr.Wire.from_u64 amarian_amr.Wire.read_byte_string amarian_amr.Wire.read_compact_size
    amarian_amr.Wire.read_count amarian_amr.Wire.read_i64 amarian_amr.Wire.read_le
    amarian_amr.Wire.read_many amarian_amr.Wire.read_sequence amarian_amr.Wire.read_tagged
    amarian_amr.Wire.read_wide amarian_amr.Wire.to_u64 amarian_amr.Wire.try_narrow
    amarian_amr.Wire.write_byte_string amarian_amr.Wire.write_compact_size
    amarian_amr.Wire.write_i64 amarian_amr.Wire.write_sequence amarian_amr.Wire.write_u16
    amarian_amr.Wire.write_u32 amarian_amr.Wire.write_u64 amarian_amr.Wire.write_u8
tree-runs = (refl, refl, refl, refl, refl, refl)

plan_chain_switch-IsSwitch_example :
    IsSwitch tree first_entry third_entry
      (plan_chain_switch tree (some first_entry) (some third_entry))
plan_chain_switch-IsSwitch_example =
    plan_chain_switch-IsSwitch tree
      (reachable-IsSound toy regtest_params genesis refl tree tree_reached).linked first_entry
      third_entry tree-runs.0 tree-runs.1
