-- ===== src/Primitives/RoundTrip.antt =====
-- What the encodings of a transaction and of a block promise.
use amarian_amr.Base.{ℕ, ◌≡◌, false, some, none, List, ◌++◌}
use amarian_amr.Base.Bytes.{AllBytes}
use amarian_amr.Wire.{Reader, at}
use amarian_amr.Wire.Codec.{IsCodec-round_trip, IsCodec-canonical}
use amarian_amr.Primitives.Transaction
use amarian_amr.Primitives.Transaction.{Transaction, TxLimits}
use amarian_amr.Primitives.Transaction.Codec
use amarian_amr.Primitives.Transaction.Codec.{transaction-IsCodec}
use amarian_amr.Primitives.Block
use amarian_amr.Primitives.Block.{Block, BlockLimits, block-IsCodec}

-- A block that fits the limits, written in front of any bytes, is read back as itself, and the reader
-- then stands before those bytes.
pub block_round_trip :
    (l : BlockLimits) (block : Block) (rest : List ℕ)
    → Block.Fits l block
    → Block.deserialize l (at (Block.serialize block ++ rest)) ≡ (some block, at rest)
block_round_trip l block rest h = IsCodec-round_trip (block-IsCodec l) block rest h

-- Whatever bytes a block is read from begin with the block's own encoding, the reader stands behind
-- it, and the block fits the limits: no block has a second encoding.
pub block_canonical :
    (l : BlockLimits) (bytes : List ℕ) (block : Block) (after : Reader)
    → AllBytes bytes
    → Block.deserialize l (at bytes) ≡ (some block, after)
    → (rest : List ℕ) × (after ≡ at rest)
      × (bytes ≡ Block.serialize block ++ rest)
      × Block.Fits l block
block_canonical l bytes block after h e = IsCodec-canonical (block-IsCodec l) bytes block after h e

-- When a block cannot be read, the reader is marked as failed, and every later attempt to read a block
-- from it, whatever the limits, fails as well and leaves it as it is.
pub block_failure_sticks :
    (l m : BlockLimits) (r : Reader)
    → (Block.deserialize l r).0 ≡ none
    → ((Block.deserialize l r).1.ok ≡ false)
      × (Block.deserialize m (Block.deserialize l r).1 ≡ (none, (Block.deserialize l r).1))
block_failure_sticks l m r h =
    let marked = (block-IsCodec l).sticky.marks.run r h in
    (marked, (block-IsCodec m).sticky.stays (Block.deserialize l r).1 marked)

-- A transaction that fits the limits, written in front of any bytes, is read back as itself, a coinbase
-- with its data and any other transaction with its witnesses.
pub transaction_round_trip :
    (l : TxLimits) (tx : Transaction) (rest : List ℕ)
    → Codec.Fits l tx
    → Transaction.deserialize l (at (Transaction.serialize tx ++ rest)) ≡ (some tx, at rest)
transaction_round_trip l tx rest h = IsCodec-round_trip (transaction-IsCodec l) tx rest h
