-- ===== src/Utxo/Connect/Refinement.antt =====
-- `ConnectBlock` and `DisconnectBlock` on a cache do to the set of coins that it shows what the same
-- loops do on that set directly.
use amarian_amr.Base.{
  ℕ, suc, not, Bool, true, false, List, [], ◌∷◌, ◌++◌, length, ◌==◌, bool_eq, nat_eq,
}
use amarian_amr.Base.Int.{ℤ, pos}
use amarian_amr.Base.Result.{err, reject_if}
use amarian_amr.Crypto.{Backend}
use amarian_amr.Primitives.Hash.{Hash256}
use amarian_amr.Primitives.OutPoint.{OutPoint}
use amarian_amr.Primitives.Transaction.{Transaction, TxOutput, is_coinbase}
use amarian_amr.Primitives.Coin.{Coin, coin_eq}
use amarian_amr.Primitives.Digests.{txid}
use amarian_amr.Consensus.Params.{ChainParams}
use amarian_amr.Consensus.Validation.{
  tx_input_missing_or_spent, tx_creates_existing_outpoint, block_multiple_coinbases,
  block_no_transactions, block_first_tx_not_coinbase,
}
use amarian_amr.Consensus.Validation.Structure.{outpoints_of}
use amarian_amr.Consensus.Validation.Spend.{check_transaction_inputs}
use amarian_amr.Utxo.Ledger.{cache_store, coins_store}
use amarian_amr.Utxo.Ledger.Simulation.{
  Simulates, Simulates-return, Simulates-lift, Simulates-bind, Simulates-if, Simulates-spend_or,
  Simulates-add_or,
}
use amarian_amr.Utxo.Undo.{TxUndo, BlockUndo}
use amarian_amr.Primitives.Block.{Block}
use amarian_amr.Consensus.Validation.Blocks.{front_is_coinbase, check_coinbase_amount}
use amarian_amr.Utxo.Connect.{
  finish_connect, connect_batch, disconnect_batch, describes_another, add_fee, outpoint_for,
  is_stored, created_coin, spend_inputs, create_output, create_outputs, remove_stored,
  remove_output, remove_outputs, restore_inputs, restore_transaction, connect_inputs,
  connect_transaction, connect_transactions, disconnect_transaction, disconnect_transactions,
  later_undos, undo_does_not_describe_block, spent_outpoint_occupied, created_coin_missing,
  created_coin_does_not_match,
}

spend_inputs-Simulates :
    (os : List OutPoint) → Simulates (spend_inputs cache_store os) (spend_inputs coins_store os)
unfolding spend_inputs
spend_inputs-Simulates [] = Simulates-return []
spend_inputs-Simulates (o ∷ os) =
    Simulates-bind _ _ (Simulates-spend_or tx_input_missing_or_spent o) λ coin.
      Simulates-bind _ _ (spend_inputs-Simulates os) λ coins. Simulates-return (coin ∷ coins)

restore_inputs-Simulates :
    (os : List OutPoint) (coins : List Coin)
    → Simulates (restore_inputs cache_store os coins) (restore_inputs coins_store os coins)
unfolding restore_inputs
restore_inputs-Simulates [] coins = Simulates-return tt
restore_inputs-Simulates (o ∷ os) [] = Simulates-return tt
restore_inputs-Simulates (o ∷ os) (coin ∷ coins) =
    Simulates-bind _ _ (restore_inputs-Simulates os coins)
      λ _. Simulates-add_or spent_outpoint_occupied o coin

restore_transaction-Simulates :
    (os : List OutPoint) (undos : List TxUndo)
    → Simulates
        (restore_transaction cache_store os undos)
        (restore_transaction coins_store os undos)
unfolding restore_transaction
restore_transaction-Simulates os [] = Simulates-lift (err undo_does_not_describe_block)
restore_transaction-Simulates os (undo ∷ undos) =
    Simulates-bind _ _
      (Simulates-lift
        (reject_if (not (length undo.spent == length os)) undo_does_not_describe_block))
      λ _. restore_inputs-Simulates os undo.spent

module _ (id : Hash256) (height : ℕ) (is_first : Bool) where
  create_outputs-Simulates :
      (i : ℕ) (outputs : List TxOutput)
      → Simulates
          (create_outputs cache_store id i height is_first outputs)
          (create_outputs coins_store id i height is_first outputs)
  unfolding create_outputs create_output
  create_outputs-Simulates i [] = Simulates-return tt
  create_outputs-Simulates i (output ∷ outputs) =
      Simulates-bind _ _
        (Simulates-if (is_stored output)
          (Simulates-add_or tx_creates_existing_outpoint (outpoint_for id i)
            (created_coin height is_first output))
          (Simulates-return tt))
        λ _. create_outputs-Simulates (suc i) outputs

  remove_stored-Simulates :
      (o : OutPoint) (coin : Coin)
      → Simulates (remove_stored cache_store o coin) (remove_stored coins_store o coin)
  unfolding remove_stored
  remove_stored-Simulates o coin =
      Simulates-bind _ _ (Simulates-spend_or created_coin_missing o)
        λ removed. Simulates-lift (reject_if (not (removed == coin)) created_coin_does_not_match)

  remove_outputs-Simulates :
      (i : ℕ) (outputs : List TxOutput)
      → Simulates
          (remove_outputs cache_store id i height is_first outputs)
          (remove_outputs coins_store id i height is_first outputs)
  unfolding remove_outputs remove_output
  remove_outputs-Simulates i [] = Simulates-return tt
  remove_outputs-Simulates i (output ∷ outputs) =
      Simulates-bind _ _
        (Simulates-if (is_stored output)
          (remove_stored-Simulates (outpoint_for id i) (created_coin height is_first output))
          (Simulates-return tt))
        λ _. remove_outputs-Simulates (suc i) outputs

module _ (b : Backend) (height : ℕ) where
  module _ (params : ChainParams) where
    connect_inputs-Simulates :
        (tx : Transaction) (fees : ℤ)
        → Simulates
            (connect_inputs cache_store b tx height params fees)
            (connect_inputs coins_store b tx height params fees)
    unfolding connect_inputs
    connect_inputs-Simulates tx fees =
        Simulates-bind _ _ (spend_inputs-Simulates (outpoints_of tx.inputs)) λ spent.
          Simulates-bind _ _ (Simulates-lift (check_transaction_inputs b tx spent height params))
            λ fee.
              Simulates-bind _ _ (Simulates-lift (add_fee fees fee))
                λ total. Simulates-return (record { spent = spent } ∷ [], total)

    connect_transaction-Simulates :
        (is_first : Bool) (tx : Transaction) (fees : ℤ)
        → Simulates
            (connect_transaction cache_store b is_first tx height params fees)
            (connect_transaction coins_store b is_first tx height params fees)
    unfolding connect_transaction
    connect_transaction-Simulates is_first tx fees =
        Simulates-bind _ _
          (Simulates-lift (reject_if (not (is_coinbase tx == is_first)) block_multiple_coinbases))
          λ _.
            Simulates-bind _ _
              (Simulates-if is_first (Simulates-return ([], fees))
                (connect_inputs-Simulates tx fees))
              λ r.
                Simulates-bind _ _
                  (create_outputs-Simulates (txid b tx) height is_first 0 tx.outputs)
                  λ _. Simulates-return r

    -- Connecting on a cache is connecting on the set of coins it shows, errors and results alike.
    pub connect_transactions-Simulates :
        (is_first : Bool) (txs : List Transaction) (fees : ℤ)
        → Simulates
            (connect_transactions cache_store b is_first txs height params fees)
            (connect_transactions coins_store b is_first txs height params fees)
    unfolding connect_transactions
    connect_transactions-Simulates is_first [] fees = Simulates-return ([], fees)
    connect_transactions-Simulates is_first (tx ∷ txs) fees =
        Simulates-bind _ _ (connect_transaction-Simulates is_first tx fees) λ r.
          Simulates-bind _ _ (connect_transactions-Simulates false txs r.1)
            λ rest. Simulates-return (r.0 ++ rest.0, rest.1)

  disconnect_transaction-Simulates :
      (is_first : Bool) (tx : Transaction) (undos : List TxUndo)
      → Simulates
          (disconnect_transaction cache_store b is_first tx height undos)
          (disconnect_transaction coins_store b is_first tx height undos)
  unfolding disconnect_transaction
  disconnect_transaction-Simulates is_first tx undos =
      Simulates-bind _ _ (remove_outputs-Simulates (txid b tx) height is_first 0 tx.outputs) λ _.
        Simulates-if is_first (Simulates-return tt)
          (restore_transaction-Simulates (outpoints_of tx.inputs) undos)

  pub disconnect_transactions-Simulates :
      (is_first : Bool) (txs : List Transaction) (undos : List TxUndo)
      → Simulates
          (disconnect_transactions cache_store b is_first txs height undos)
          (disconnect_transactions coins_store b is_first txs height undos)
  unfolding disconnect_transactions
  disconnect_transactions-Simulates is_first [] undos = Simulates-return tt
  disconnect_transactions-Simulates is_first (tx ∷ txs) undos =
      Simulates-bind _ _ (disconnect_transactions-Simulates false txs (later_undos is_first undos))
        λ _. disconnect_transaction-Simulates is_first tx undos

-- The two operations up to the flush.
pub connect_batch-Simulates :
    (b : Backend) (block : Block) (params : ChainParams)
    → Simulates
        (connect_batch cache_store b block params)
        (connect_batch coins_store b block params)
unfolding connect_batch finish_connect
connect_batch-Simulates b block params =
    Simulates-bind _ _
      (Simulates-lift (reject_if (length block.transactions == 0) block_no_transactions))
      λ _.
        Simulates-bind _ _
          (Simulates-lift
            (reject_if (not (front_is_coinbase block.transactions)) block_first_tx_not_coinbase))
          λ _.
            Simulates-bind _ _
              (connect_transactions-Simulates b block.header.height params true block.transactions
                (pos 0))
              λ r. Simulates-bind _ _ (Simulates-lift (check_coinbase_amount block r.1 params)) λ _.
                Simulates-return (record { undo = record { transactions = r.0 }; total_fees = r.1 })

pub disconnect_batch-Simulates :
    (b : Backend) (block : Block) (undo : BlockUndo)
    → Simulates
        (disconnect_batch cache_store b block undo)
        (disconnect_batch coins_store b block undo)
unfolding disconnect_batch
disconnect_batch-Simulates b block undo =
    Simulates-bind _ _
      (Simulates-lift (reject_if (describes_another block undo) undo_does_not_describe_block))
      λ _.
        disconnect_transactions-Simulates b block.header.height true block.transactions
          undo.transactions
