-- ===== src/Utxo/Connect.antt =====
-- Connecting a block to the set of coins, and taking it back: `ConnectBlock` and `DisconnectBlock` of
-- src/utxo/connect.cpp. The loops run on any `Store`; the two operations run them on a `CoinsCache` that
-- stands over the caller's, and flush it at the end.
pub mod Refinement
pub mod Reversal
pub mod Inversion
pub mod RoundTrip
pub mod Supply
use amarian_amr.Base.{
  ℕ, suc, ◌+◌, ◌-◌, ◌%◌, ◌^◌, Bool, true, false, not, ◌||◌, Option, none, some, List, [], ◌∷◌, ◌++◌,
  length, if◌then◌else◌, Eq, ◌==◌, nat_eq, bool_eq,
}
use amarian_amr.Base.Int.{ℤ, pos}
use amarian_amr.Base.Result.{Result, ok, err, reject_if}
use amarian_amr.Crypto.{Backend}
use amarian_amr.Primitives.Amount.{is_valid_amount, try_accumulate}
use amarian_amr.Primitives.Hash.{Hash256}
use amarian_amr.Primitives.OutPoint.{OutPoint}
use amarian_amr.Primitives.Lock.{is_unspendable}
use amarian_amr.Primitives.Transaction.{Transaction, TxInput, TxOutput, is_coinbase}
use amarian_amr.Primitives.Coin.{Coin, coin_eq}
use amarian_amr.Primitives.Block.{Block}
use amarian_amr.Primitives.Digests.{txid}
use amarian_amr.Consensus.Params.{ChainParams}
use amarian_amr.Consensus.Validation.{
  ValidationError, Computed, tx_input_missing_or_spent, tx_creates_existing_outpoint,
  block_fees_out_of_range, block_no_transactions, block_first_tx_not_coinbase,
  block_multiple_coinbases,
}
use amarian_amr.Consensus.Validation.Structure.{outpoints_of}
use amarian_amr.Consensus.Validation.Spend.{check_transaction_inputs}
use amarian_amr.Consensus.Validation.Blocks.{front_is_coinbase, check_coinbase_amount}
use amarian_amr.Utxo.Coins.{CoinsCache, over, flush, as_view}
use amarian_amr.Utxo.Ledger.{
  Store, Action, cache_store, ◌>>=◌, ◌>>◌, return, lift, spend_or, add_or,
}
use amarian_amr.Utxo.Undo.{TxUndo, BlockUndo}

pub data DisconnectError : Type 0 where
  undo_does_not_describe_block created_coin_missing : DisconnectError
  created_coin_does_not_match spent_outpoint_occupied : DisconnectError

pub record ConnectResult : Type 0 where
  pub undo : BlockUndo
  pub total_fees : ℤ

-- `OutPointFor`: the index is cast to `uint32_t`.
unfoldable pub outpoint_for : Hash256 → ℕ → OutPoint
outpoint_for id index = record { txid = id; index = index % 2 ^ 32 }

unfoldable pub is_stored : TxOutput → Bool
is_stored output = not (is_unspendable output.lock)

-- The fees so far, with one more.
abbrev pub fee_total : Option ℤ → Computed ℤ
fee_total none = err block_fees_out_of_range
fee_total (some total) = if is_valid_amount total then ok total else err block_fees_out_of_range

unfoldable pub add_fee : ℤ → ℤ → Computed ℤ
add_fee total_fees fee = fee_total (try_accumulate total_fees fee)

-- The coin that an output of a block becomes.
abbrev pub created_coin : ℕ → Bool → TxOutput → Coin
created_coin height is_first output = record {
  output = output;
  height = height;
  is_coinbase = is_first;
}

-- The undo record has not one entry for each transaction but the coinbase.
abbrev pub describes_another : Block → BlockUndo → Bool
describes_another block undo =
    length block.transactions == 0
    || not (length undo.transactions + 1 == length block.transactions)

-- The undo entries of the transactions behind the first of the list.
abbrev pub later_undos : Bool → List TxUndo → List TxUndo
later_undos true undos = undos
later_undos false [] = []
later_undos false (undo ∷ undos) = undos

module _ {S : Type 0} (st : Store S) where
  unfoldable pub spend_inputs : List OutPoint → Action S ValidationError (List Coin)
  spend_inputs [] = return []
  spend_inputs (o ∷ os) = do
    coin ← spend_or st tx_input_missing_or_spent o
    coins ← spend_inputs os
    return (coin ∷ coins)

  unfoldable pub create_output :
      Hash256 → ℕ → ℕ → Bool → TxOutput → Action S ValidationError (Unit {0})
  create_output id index height is_first output =
      if is_stored output
      then add_or st tx_creates_existing_outpoint (outpoint_for id index)
          (created_coin height is_first output)
      else return tt

  unfoldable pub create_outputs :
      Hash256 → ℕ → ℕ → Bool → List TxOutput → Action S ValidationError (Unit {0})
  create_outputs id index height is_first [] = return tt
  create_outputs id index height is_first (output ∷ outputs) = do
    create_output id index height is_first output
    create_outputs id (suc index) height is_first outputs

  unfoldable pub remove_stored : OutPoint → Coin → Action S DisconnectError (Unit {0})
  remove_stored o created = do
    removed ← spend_or st created_coin_missing o
    lift (reject_if (not (removed == created)) created_coin_does_not_match)

  unfoldable pub remove_output :
      Hash256 → ℕ → ℕ → Bool → TxOutput → Action S DisconnectError (Unit {0})
  remove_output id index height is_first output =
      if is_stored output
      then remove_stored (outpoint_for id index) (created_coin height is_first output)
      else return tt

  unfoldable pub remove_outputs :
      Hash256 → ℕ → ℕ → Bool → List TxOutput → Action S DisconnectError (Unit {0})
  remove_outputs id index height is_first [] = return tt
  remove_outputs id index height is_first (output ∷ outputs) = do
    remove_output id index height is_first output
    remove_outputs id (suc index) height is_first outputs

  -- From the last input to the first.
  unfoldable pub restore_inputs : List OutPoint → List Coin → Action S DisconnectError (Unit {0})
  restore_inputs [] coins = return tt
  restore_inputs (o ∷ os) [] = return tt
  restore_inputs (o ∷ os) (coin ∷ coins) = do
    restore_inputs os coins
    add_or st spent_outpoint_occupied o coin

  unfoldable pub restore_transaction :
      List OutPoint → List TxUndo → Action S DisconnectError (Unit {0})
  restore_transaction os [] = lift (err undo_does_not_describe_block)
  restore_transaction os (undo ∷ undos) = do
    lift (reject_if (not (length undo.spent == length os)) undo_does_not_describe_block)
    restore_inputs os undo.spent

  module _ (b : Backend) where
    unfoldable pub connect_inputs :
        Transaction → ℕ → ChainParams → ℤ → Action S ValidationError (List TxUndo × ℤ)
    connect_inputs tx height params total_fees = do
      spent ← spend_inputs (outpoints_of tx.inputs)
      fee ← lift (check_transaction_inputs b tx spent height params)
      total ← lift (add_fee total_fees fee)
      return (record { spent = spent } ∷ [], total)

    -- One round of the loop over the transactions: its undo entry, if any, and the fees so far.
    unfoldable pub connect_transaction :
        Bool → Transaction → ℕ → ChainParams → ℤ → Action S ValidationError (List TxUndo × ℤ)
    connect_transaction is_first tx height params total_fees = do
      lift (reject_if (not (is_coinbase tx == is_first)) block_multiple_coinbases)
      r ← if is_first then return ([], total_fees) else connect_inputs tx height params total_fees
      create_outputs (txid b tx) 0 height is_first tx.outputs
      return r

    unfoldable pub connect_transactions :
        Bool → List Transaction → ℕ → ChainParams → ℤ → Action S ValidationError (List TxUndo × ℤ)
    connect_transactions is_first [] height params total_fees = return ([], total_fees)
    connect_transactions is_first (tx ∷ txs) height params total_fees = do
      r ← connect_transaction is_first tx height params total_fees
      rest ← connect_transactions false txs height params r.1
      return (r.0 ++ rest.0, rest.1)

    unfoldable pub disconnect_transaction :
        Bool → Transaction → ℕ → List TxUndo → Action S DisconnectError (Unit {0})
    disconnect_transaction is_first tx height undos = do
      remove_outputs (txid b tx) 0 height is_first tx.outputs
      if is_first then return tt else restore_transaction (outpoints_of tx.inputs) undos

    -- From the last transaction to the first.
    unfoldable pub disconnect_transactions :
        Bool → List Transaction → ℕ → List TxUndo → Action S DisconnectError (Unit {0})
    disconnect_transactions is_first [] height undos = return tt
    disconnect_transactions is_first (tx ∷ txs) height undos = do
      disconnect_transactions false txs height (later_undos is_first undos)
      disconnect_transaction is_first tx height undos

    unfoldable pub finish_connect :
        Block → ChainParams → (List TxUndo × ℤ) → Action S ValidationError ConnectResult
    finish_connect block params r = do
      lift (check_coinbase_amount block r.1 params)
      return (record { undo = record { transactions = r.0 }; total_fees = r.1 })

    -- The transactions and then the supply rule, on the batch.
    unfoldable pub connect_batch : Block → ChainParams → Action S ValidationError ConnectResult
    connect_batch block params = do
      lift (reject_if (length block.transactions == 0) block_no_transactions)
      lift (reject_if (not (front_is_coinbase block.transactions)) block_first_tx_not_coinbase)
      r ← connect_transactions true block.transactions block.header.height params (pos 0)
      finish_connect block params r

    unfoldable pub disconnect_batch : Block → BlockUndo → Action S DisconnectError (Unit {0})
    disconnect_batch block undo = do
      lift (reject_if (describes_another block undo) undo_does_not_describe_block)
      disconnect_transactions true block.transactions block.header.height undo.transactions

-- A batch reaches the caller's cache only when it succeeded; the error leaves that cache as it was.
abbrev pub commit :
    {E A : Type 0} → CoinsCache → Result E (A × CoinsCache) → Result E A × CoinsCache
commit coins (err e) = (err e, coins)
commit coins (ok (a, batch)) = (ok a, (flush batch coins).1)

unfoldable pub connect_block :
    Backend → Block → CoinsCache → ChainParams → Computed ConnectResult × CoinsCache
connect_block b block coins params =
    commit coins (connect_batch cache_store b block params (over (as_view coins)))

unfoldable pub disconnect_block :
    Backend → Block → BlockUndo → CoinsCache → Result DisconnectError (Unit {0}) × CoinsCache
disconnect_block b block undo coins =
    commit coins (disconnect_batch cache_store b block undo (over (as_view coins)))
