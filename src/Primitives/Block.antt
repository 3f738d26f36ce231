-- ===== src/Primitives/Block.antt =====
-- `BlockHeader` and `Block`: include/amarian/primitives/block.hpp and src/primitives/block.cpp.
use amarian_amr.Base.{
  ◌*◌, ℕ, ◌+◌, ◌^◌, ◌<◌, ap₂, List, [], ◌∷◌, ◌++◌, arith, length, nat_eq, list_eq, bool_eq,
}
use amarian_amr.Base.Int.{ℤ, int_eq}
use amarian_amr.Wire.{
  Read, ◌>>=◌, return, read_u32, read_u64, read_i64, write_u32, write_u64, write_i64, read_sequence,
  write_sequence, compact_size_len,
}
use amarian_amr.Wire.Rules.{
  Reads-bind, Reads-map, Parses-bind, Parses-map, bind-Sticky, bind-Marks, return-Marks,
}
use amarian_amr.Wire.Integers.{IsI64}
use amarian_amr.Wire.Codec.{IsCodec, integer-IsCodec, IsI64-IsCodec, sequence-IsCodec, FitsSequence}
use amarian_amr.Primitives.Hash.{Hash256, IsHash, read_hash256, write_hash256, IsHash-IsCodec}
use amarian_amr.Primitives.Transaction
use amarian_amr.Primitives.Transaction.{Transaction, TxLimits, serialize_without_witnesses}
use amarian_amr.Primitives.Transaction.Codec.{transaction-IsCodec}
use amarian_amr.Primitives.Transaction.Codec

pub record BlockHeader : Type 0 where
  pub version : ℕ
  pub height : ℕ
  pub prev_block : Hash256
  pub merkle_root : Hash256
  pub timestamp : ℤ
  pub target_bits : ℕ
  pub nonce : ℕ

abbrev pub header_serialized_size : ℕ
header_serialized_size = 92

pub record BlockLimits : Type 0 where
  pub max_transactions : ℕ
  pub tx : TxLimits

pub record Block : Type 0 where
  pub header : BlockHeader
  pub transactions : List Transaction

unfoldable pub serialize_header : BlockHeader → List ℕ
serialize_header h =
    write_u32 h.version
    ++ (write_u32 h.height
        ++ (write_hash256 h.prev_block
            ++ (write_hash256 h.merkle_root
                ++ (write_i64 h.timestamp ++ (write_u32 h.target_bits ++ write_u64 h.nonce)))))

unfoldable pub deserialize_header : Read BlockHeader
deserialize_header = do
  version ← read_u32
  height ← read_u32
  prev_block ← read_hash256
  merkle_root ← read_hash256
  timestamp ← read_i64
  target_bits ← read_u32
  nonce ← read_u64
  return (record {
    version = version;
    height = height;
    prev_block = prev_block;
    merkle_root = merkle_root;
    timestamp = timestamp;
    target_bits = target_bits;
    nonce = nonce;
  })

unfoldable pub serialize : Block → List ℕ
serialize b = serialize_header b.header ++ write_sequence Transaction.serialize b.transactions

unfoldable pub deserialize : BlockLimits → Read Block
deserialize l = do
  header ← deserialize_header
  transactions ←
      read_sequence l.max_transactions Transaction.min_serialized_size
        (Transaction.deserialize l.tx)
  return (record { header = header; transactions = transactions })

sum_weights : List Transaction → ℕ
sum_weights [] = 0
sum_weights (tx ∷ txs) = Transaction.weight tx + sum_weights txs

unfoldable pub weight : Block → ℕ
unfolding sum_weights
weight b =
    (header_serialized_size + compact_size_len (length b.transactions))
      * Transaction.witness_scale_factor
    + sum_weights b.transactions

abbrev pub FitsHeader : BlockHeader → Type 0
FitsHeader h =
    (h.version < 256 ^ 4)
    × (h.height < 256 ^ 4)
    × IsHash h.prev_block
    × IsHash h.merkle_root
    × IsI64 h.timestamp
    × (h.target_bits < 256 ^ 4)
    × (h.nonce < 256 ^ 8)

abbrev pub Fits : BlockLimits → Block → Type 0
Fits l b = FitsHeader b.header × FitsSequence l.max_transactions (Codec.Fits l.tx) b.transactions

pub header-IsCodec : IsCodec deserialize_header serialize_header FitsHeader
unfolding deserialize_header serialize_header write_u32 write_u64
header-IsCodec =
    let u32 = integer-IsCodec 4 in
    let u64 = integer-IsCodec 8 in
    record {
      reads = λ h f. Reads-bind _ (u32.reads h.version f.0) (
          Reads-bind _ (u32.reads h.height f.1) (
            Reads-bind _ (IsHash-IsCodec.reads h.prev_block f.2) (
              Reads-bind _ (IsHash-IsCodec.reads h.merkle_root f.3) (
                Reads-bind _ (IsI64-IsCodec.reads h.timestamp f.4) (
                  Reads-bind _ (u32.reads h.target_bits f.5)
                    (Reads-map _ (u64.reads h.nonce f.6)))))));
      parses = Parses-bind u32.parses λ v u0 q0. Parses-bind u32.parses λ ht u1 q1.
          Parses-bind IsHash-IsCodec.parses λ p u2 q2. Parses-bind IsHash-IsCodec.parses λ m u3 q3.
            Parses-bind IsI64-IsCodec.parses λ t u4 q4. Parses-bind u32.parses λ b u5 q5.
              Parses-map _ u64.parses λ n u6 q6. (
                ap₂ ◌++◌ q0.0 (
                    ap₂ ◌++◌ q1.0
                      (ap₂ ◌++◌ q2.0 (ap₂ ◌++◌ q3.0 (ap₂ ◌++◌ q4.0 (ap₂ ◌++◌ q5.0 q6.0))))),
                (q0.1, q1.1, q2.1, q3.1, q4.1, q5.1, q6.1),
              );
      sticky = bind-Sticky _ u32.sticky λ v. bind-Marks _ u32.sticky.marks λ ht.
          bind-Marks _ IsHash-IsCodec.sticky.marks λ p.
            bind-Marks _ IsHash-IsCodec.sticky.marks λ m.
              bind-Marks _ IsI64-IsCodec.sticky.marks λ t.
                bind-Marks _ u32.sticky.marks
                  λ b. bind-Marks _ u64.sticky.marks λ n. return-Marks _;
    }

transactions-IsCodec :
    (l : BlockLimits)
    → IsCodec
        (read_sequence l.max_transactions Transaction.min_serialized_size
          (Transaction.deserialize l.tx))
        (write_sequence Transaction.serialize)
        (FitsSequence l.max_transactions (Codec.Fits l.tx))
transactions-IsCodec l =
    sequence-IsCodec (transaction-IsCodec l.tx) l.max_transactions Transaction.min_serialized_size
      (omega arith) (λ tx h. Codec.length-serialize-le tx)

-- A block that fits its limits is read back whole, and an accepted one was written in its one form.
pub block-IsCodec : (l : BlockLimits) → IsCodec (deserialize l) serialize (Fits l)
unfolding serialize deserialize
block-IsCodec l =
    let txs = transactions-IsCodec l in
    record {
      reads = λ b h.
          Reads-bind _ (header-IsCodec.reads b.header h.0)
            (Reads-map _ (txs.reads b.transactions h.1));
      parses =
          Parses-bind header-IsCodec.parses
            λ c u q. Parses-map _ txs.parses λ s w r. (ap₂ ◌++◌ q.0 r.0, (q.1, r.1));
      sticky =
          bind-Sticky _ header-IsCodec.sticky
            λ c. bind-Marks _ txs.sticky.marks λ s. return-Marks _;
    }
