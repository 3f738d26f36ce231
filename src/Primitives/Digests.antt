-- ===== src/Primitives/Digests.antt =====
-- The identifiers and digests of the structures: `Txid`, `Wtxid` and `Hash`, src/primitives/sighash.cpp
-- and src/primitives/merkle.cpp.
pub mod Merkle
pub mod Preimage
pub mod Binding
use Prim.Native.String.{String}
use amarian_amr.Base.{ℕ, zero, suc, Option, none, some, List, [], ◌∷◌, ◌++◌, map, length}
use amarian_amr.Base.Int.{ℤ}
use amarian_amr.Wire.{write_u8, write_u32, write_i64, write_compact_size, write_sequence}
use amarian_amr.Crypto.{Backend, double_sha256, tagged_hash}
use amarian_amr.Primitives.Hash.{Hash256, write_hash256}
use amarian_amr.Primitives.OutPoint
use amarian_amr.Primitives.SpendCondition
use amarian_amr.Primitives.SpendCondition.{SpendCondition}
use amarian_amr.Primitives.Transaction
use amarian_amr.Primitives.Transaction.{
  Transaction, TxInput, TxOutput, serialize_without_witnesses, serialize_output,
}
use amarian_amr.Primitives.Block.{Block, BlockHeader, serialize_header}

abbrev pub sighash_tag : String
sighash_tag = "Amarian/SigHash"

abbrev pub spend_condition_tag : String
spend_condition_tag = "Amarian/SpendCondition"

abbrev pub merkle_leaf_tag : String
merkle_leaf_tag = "Amarian/MerkleLeaf"

abbrev pub merkle_branch_tag : String
merkle_branch_tag = "Amarian/MerkleBranch"

abbrev pub merkle_root_tag : String
merkle_root_tag = "Amarian/MerkleRoot"

abbrev pub sighash_preimage_size : ℕ
sighash_preimage_size = 181

-- The first byte of each preimage.
pub data SigHashDomain : Type 0 where
  outpoints sequences outputs input : SigHashDomain

abbrev pub domain_byte : SigHashDomain → ℕ
domain_byte outpoints = 1
domain_byte sequences = 2
domain_byte outputs = 3
domain_byte input = 4

pub record SigHashMidstates : Type 0 where
  pub outpoints : Hash256
  pub sequences : Hash256
  pub outputs : Hash256

unfoldable pub begin_preimage : SigHashDomain → List ℕ
begin_preimage domain = write_u8 (domain_byte domain)

module _ (b : Backend) where
  unfoldable pub txid : Transaction → Hash256
  txid tx = double_sha256 b (serialize_without_witnesses tx)

  unfoldable pub wtxid : Transaction → Hash256
  wtxid tx = double_sha256 b (Transaction.serialize tx)

  unfoldable pub header_hash : BlockHeader → Hash256
  header_hash h = double_sha256 b (serialize_header h)

  unfoldable pub spend_condition_commitment : SpendCondition → Hash256
  spend_condition_commitment c = tagged_hash b spend_condition_tag (SpendCondition.serialize c)

  unfoldable pub compute_sighash_midstates : Transaction → SigHashMidstates
  compute_sighash_midstates tx = record {
    outpoints = tagged_hash b sighash_tag (
        begin_preimage outpoints
        ++ write_sequence (λ (i : TxInput). OutPoint.serialize i.outpoint) tx.inputs);
    sequences = tagged_hash b sighash_tag (
        begin_preimage sequences
        ++ write_sequence (λ (i : TxInput). write_u32 i.sequence) tx.inputs);
    outputs =
        tagged_hash b sighash_tag
          (begin_preimage outputs ++ write_sequence serialize_output tx.outputs);
  }

  unfoldable pub signature_hash_preimage :
      Hash256 → Transaction → SigHashMidstates → ℕ → ℤ → SpendCondition → List ℕ
  signature_hash_preimage chain_id tx midstates input_index spent_amount condition =
      begin_preimage input
      ++ (write_hash256 chain_id
          ++ (write_u32 tx.version
              ++ (write_u32 tx.locktime
                  ++ (write_hash256 midstates.outpoints
                      ++ (write_hash256 midstates.sequences
                          ++ (write_hash256 midstates.outputs
                              ++ (write_u32 input_index
                                  ++ (write_i64 spent_amount
                                      ++ write_hash256
                                          (spend_condition_commitment condition)))))))))

  unfoldable pub signature_hash :
      Hash256 → Transaction → SigHashMidstates → ℕ → ℤ → SpendCondition → Hash256
  signature_hash chain_id tx midstates input_index spent_amount condition =
      tagged_hash b sighash_tag
        (signature_hash_preimage chain_id tx midstates input_index spent_amount condition)

  unfoldable pub merkle_branch : Hash256 → Hash256 → Hash256
  merkle_branch left right = tagged_hash b merkle_branch_tag (left ++ right)

  -- One level of the tree: pairs are hashed, and an odd last node is carried up as it is.
  unfoldable pub merkle_level : List Hash256 → List Hash256
  merkle_level [] = []
  merkle_level (x ∷ []) = x ∷ []
  merkle_level (x ∷ y ∷ rest) = merkle_branch x y ∷ merkle_level rest

  -- `while (level.size() > 1)`; each round shortens the level, so that its length is fuel enough.
  unfoldable pub merkle_fold : ℕ → List Hash256 → Option Hash256
  merkle_fold fuel [] = none
  merkle_fold fuel (x ∷ []) = some x
  merkle_fold zero (x ∷ y ∷ rest) = none
  merkle_fold (suc fuel) (x ∷ y ∷ rest) = merkle_fold fuel (merkle_level (x ∷ y ∷ rest))

  abbrev finish_root : ℕ → Option Hash256 → Option Hash256
  finish_root n none = none
  finish_root n (some top) =
      some (tagged_hash b merkle_root_tag (write_compact_size n ++ write_hash256 top))

  unfoldable pub compute_merkle_root : List Hash256 → Option Hash256
  compute_merkle_root wtxids =
      finish_root (length wtxids)
        (merkle_fold (length wtxids) (map (tagged_hash b merkle_leaf_tag) wtxids))

  unfoldable pub block_merkle_root : Block → Option Hash256
  block_merkle_root block = compute_merkle_root (map wtxid block.transactions)
