-- ===== src/Consensus/Validation/Blocks.antt =====
-- The checks of a block: `CheckBlock` and `CheckCoinbaseAmount`.
use amarian_amr.Base.{
  ℕ, Bool, true, false, not, ◌||◌, Option, some, none, List, [], ◌∷◌, ◌++◌, length, ltb,
  if◌then◌else◌, Eq, ◌==◌, nat_eq, list_eq,
}
use amarian_amr.Base.Int.{ℤ, pos, ltb_ℤ}
use amarian_amr.Base.Result.{◌>>=◌, ◌>>◌, reject_if, accept}
use amarian_amr.Crypto.{Backend}
use amarian_amr.Primitives.Amount.{is_valid_amount, checked_add}
use amarian_amr.Primitives.OutPoint.{OutPoint, outpoint_eq}
use amarian_amr.Primitives.Block
use amarian_amr.Primitives.Block.{Block, BlockHeader}
use amarian_amr.Primitives.Digests.{block_merkle_root}
use amarian_amr.Primitives.Transaction.{Transaction, TxInput, TxOutput, is_coinbase}
use amarian_amr.Consensus.Params.{ChainParams}
use amarian_amr.Consensus.Issuance.{block_reward}
use amarian_amr.Consensus.Validation.{
  Verdict, tx_output_sum_out_of_range, block_no_transactions, block_too_many_transactions,
  block_first_tx_not_coinbase, block_multiple_coinbases, block_weight_too_large,
  block_merkle_root_mismatch, block_coinbase_wrong_height, block_duplicate_spend,
  block_coinbase_pays_too_much, block_fees_out_of_range,
}
use amarian_amr.Consensus.Validation.Structure.{
  sum_amounts, amounts_of, outpoints_of, insert_all, check_transaction,
}
use amarian_amr.Consensus.Validation.Header.{check_block_header}

unfoldable pub front_is_coinbase : List Transaction → Bool
front_is_coinbase [] = false
front_is_coinbase (tx ∷ txs) = is_coinbase tx

-- A coinbase behind the first transaction.
unfoldable pub any_coinbase : List Transaction → Bool
any_coinbase [] = false
any_coinbase (tx ∷ txs) = is_coinbase tx || any_coinbase txs

abbrev pub behind_front : List Transaction → List Transaction
behind_front [] = []
behind_front (tx ∷ txs) = txs

-- `transactions.front().inputs.front().sequence`, where there are such.
abbrev pub coinbase_sequence : List Transaction → Option ℕ
coinbase_sequence [] = none
coinbase_sequence (tx ∷ txs) = first_sequence tx.inputs
  where
    first_sequence : List TxInput → Option ℕ
    first_sequence [] = none
    first_sequence (input ∷ inputs) = some input.sequence

abbrev pub holds {ℓ} : {A : Type ℓ} ⦃e : Eq A⦄ → Option A → A → Bool
holds none x = false
holds (some y) x = y == x

unfoldable pub check_transactions : List Transaction → ChainParams → Verdict
check_transactions [] params = accept
check_transactions (tx ∷ txs) params = check_transaction tx params >> check_transactions txs params

-- Every outpoint that the block spends, in its order.
unfoldable pub spent_outpoints : List Transaction → List OutPoint
spent_outpoints [] = []
spent_outpoints (tx ∷ txs) =
    let rest = spent_outpoints txs in
    if is_coinbase tx then rest else outpoints_of tx.inputs ++ rest

unfoldable pub check_no_duplicate_spend : List Transaction → Verdict
check_no_duplicate_spend txs =
    insert_all block_duplicate_spend [] (spent_outpoints txs) >>= λ spent. accept

module _ (b : Backend) where
  unfoldable pub check_block : Block → ChainParams → Verdict
  check_block block params = do
    check_block_header b block.header params
    reject_if (length block.transactions == 0) block_no_transactions
    reject_if (ltb params.block_limits.max_transactions (length block.transactions))
        block_too_many_transactions
    reject_if (not (front_is_coinbase block.transactions)) block_first_tx_not_coinbase
    reject_if (any_coinbase (behind_front block.transactions)) block_multiple_coinbases
    reject_if (not (holds (coinbase_sequence block.transactions) block.header.height))
        block_coinbase_wrong_height
    reject_if (ltb params.max_block_weight (Block.weight block)) block_weight_too_large
    reject_if (not (holds (block_merkle_root b block) block.header.merkle_root))
        block_merkle_root_mismatch
    check_transactions block.transactions params
    check_no_duplicate_spend block.transactions

-- The outputs of the first transaction.
abbrev pub coinbase_outputs : List Transaction → List TxOutput
coinbase_outputs [] = []
coinbase_outputs (tx ∷ txs) = tx.outputs

abbrev pub exceeds_permitted : ℤ → Option ℤ → Bool
exceeds_permitted claimed none = true
exceeds_permitted claimed (some permitted) = ltb_ℤ permitted claimed

unfoldable pub check_coinbase_amount : Block → ℤ → ChainParams → Verdict
check_coinbase_amount block total_fees params = do
  reject_if (not (front_is_coinbase block.transactions)) block_first_tx_not_coinbase
  reject_if (not (is_valid_amount total_fees)) block_fees_out_of_range
  claimed ←
      sum_amounts tx_output_sum_out_of_range tx_output_sum_out_of_range (pos 0)
        (amounts_of (coinbase_outputs block.transactions))
  reject_if
      (exceeds_permitted claimed
        (checked_add (block_reward block.header.height params.issuance) total_fees))
      block_coinbase_pays_too_much
