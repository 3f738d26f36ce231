-- ===== src/Utxo/Undo.antt =====
-- `TxUndo` and `BlockUndo`: include/amarian/utxo/connect.hpp and src/utxo/connect.cpp.
use amarian_amr.Base.{ℕ, ◌≤◌, ◌≡◌, some, List, ◌++◌, arith, length, length-append, concat_map}
use amarian_amr.Base.Bytes.{AllBytes}
use amarian_amr.Wire.{
  Reader, at, Read, ◌>>=◌, return, read_sequence, write_sequence, write_compact_size,
}
use amarian_amr.Wire.Rules.{Reads-map, Parses-map, bind-Sticky, return-Marks}
use amarian_amr.Wire.Failure.{length-write_compact_size, compact_size_len_pos}
use amarian_amr.Wire.Codec.{
  IsCodec, IsCodec-round_trip, IsCodec-canonical, sequence-IsCodec, FitsSequence,
}
use amarian_amr.Primitives.Coin
use amarian_amr.Primitives.Coin.{Coin, coin-IsCodec}
use amarian_amr.Consensus.Params.{ChainParams}

pub record TxUndo : Type 0 where
  pub spent : List Coin

pub record BlockUndo : Type 0 where
  pub transactions : List TxUndo

unfoldable pub serialize_tx : TxUndo → List ℕ
serialize_tx undo = write_sequence Coin.serialize undo.spent

unfoldable pub deserialize_tx : ℕ → ℕ → Read TxUndo
deserialize_tx max_inputs max_lock_program_size = do
  spent ← read_sequence max_inputs Coin.min_serialized_size (Coin.deserialize max_lock_program_size)
  return (record { spent = spent })

unfoldable pub serialize : BlockUndo → List ℕ
serialize undo = write_sequence serialize_tx undo.transactions

unfoldable pub deserialize : ChainParams → Read BlockUndo
deserialize params = do
  transactions ← read_sequence params.block_limits.max_transactions 1 (
      deserialize_tx params.block_limits.tx.max_inputs params.block_limits.tx.max_lock_program_size)
  return (record { transactions = transactions })

abbrev pub FitsTx : ℕ → ℕ → TxUndo → Type 0
FitsTx max_inputs max undo = FitsSequence max_inputs (Coin.Fits max) undo.spent

abbrev pub Fits : ChainParams → BlockUndo → Type 0
Fits params undo =
    FitsSequence params.block_limits.max_transactions
      (FitsTx params.block_limits.tx.max_inputs params.block_limits.tx.max_lock_program_size)
      undo.transactions

pub tx_undo-IsCodec :
    (max_inputs max : ℕ)
    → IsCodec (deserialize_tx max_inputs max) serialize_tx (FitsTx max_inputs max)
unfolding serialize_tx deserialize_tx
tx_undo-IsCodec max_inputs max =
    let coins =
      sequence-IsCodec (coin-IsCodec max) max_inputs Coin.min_serialized_size (omega arith)
        (λ c h. Coin.length-serialize-le c) in
    record {
      reads = λ u h. Reads-map _ (coins.reads u.spent h);
      parses = Parses-map _ coins.parses λ s w r. r;
      sticky = bind-Sticky _ coins.sticky λ s. return-Marks _;
    }

length-serialize_tx-le : (u : TxUndo) → 1 ≤ length (serialize_tx u)
unfolding serialize_tx write_sequence
length-serialize_tx-le u = omega (
  arith,
  length-append (write_compact_size (length u.spent)) (concat_map Coin.serialize u.spent),
  length-write_compact_size (length u.spent),
  compact_size_len_pos (length u.spent),
)

pub block_undo-IsCodec :
    (params : ChainParams) → IsCodec (deserialize params) serialize (Fits params)
unfolding serialize deserialize
block_undo-IsCodec params =
    let limits = params.block_limits in
    let txs =
      sequence-IsCodec (tx_undo-IsCodec limits.tx.max_inputs limits.tx.max_lock_program_size)
        limits.max_transactions 1 (omega arith) (λ u h. length-serialize_tx-le u) in
    record {
      reads = λ u h. Reads-map _ (txs.reads u.transactions h);
      parses = Parses-map _ txs.parses λ s w r. r;
      sticky = bind-Sticky _ txs.sticky λ s. return-Marks _;
    }

-- An undo record that fits the limits, written in front of any bytes, is read back as itself, and the
-- reader then stands before those bytes.
pub undo_round_trip :
    (params : ChainParams) (undo : BlockUndo) (rest : List ℕ)
    → Fits params undo
    → deserialize params (at (serialize undo ++ rest)) ≡ (some undo, at rest)
undo_round_trip params undo rest h = IsCodec-round_trip (block_undo-IsCodec params) undo rest h

-- Whatever bytes an undo record is read from begin with the record's own encoding, the reader stands
-- behind it, and the record fits the limits.
pub undo_canonical :
    (params : ChainParams) (bytes : List ℕ) (undo : BlockUndo) (after : Reader)
    → AllBytes bytes
    → deserialize params (at bytes) ≡ (some undo, after)
    → (rest : List ℕ) × (after ≡ at rest) × (bytes ≡ serialize undo ++ rest) × Fits params undo
undo_canonical params bytes undo after h e =
    IsCodec-canonical (block_undo-IsCodec params) bytes undo after h e
