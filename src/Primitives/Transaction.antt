-- ===== src/Primitives/Transaction.antt =====
-- `TxInput`, `TxOutput` and `Transaction`: include/amarian/primitives/transaction.hpp and
-- src/primitives/transaction.cpp.
pub mod Codec
pub mod Columns
use amarian_amr.Base.{
  ◌*◌, ◌-◌, ℕ, zero, suc, ◌+◌, ◌^◌, ◌≤◌, ◌<◌, ◌≡◌, ◌↔◌, refl, ap, ap₂, sym, subst, ◌∙◌, Bool, true,
  false, not, Option, some, none, List, [], ◌∷◌, ◌++◌, append-nil, append_assoc, ◌&&◌, ◌||◌, inl,
  inr, Bool-cases, arith, length, length-append, replicate, All, ltb, leb, if◌then◌else◌,
  concat_map, Eq, ◌==◌, nat_eq, list_eq, bool_eq, list_beq_iff, nat_beq_iff, bool_beq_iff,
}
use amarian_amr.Base.Bytes.{AllBytes, length-le_bytes}
use amarian_amr.Base.Int.{ℤ, pos, negsuc, ◌≤ℤ◌, leb_ℤ, int_eq, int_beq_iff}
use amarian_amr.Wire.{
  Read, ◌>>=◌, ◌>>◌, return, require, read_u8, read_u16, read_u32, read_u64, read_i64, write_u8,
  write_u16, write_u32, write_u64, write_i64, read_byte_string, write_byte_string, read_sequence,
  write_sequence, write_compact_size, compact_size_len, size_max,
}
use amarian_amr.Wire.Rules.{
  Reads, Parses, Reads-bind, Reads-map, Reads-require, Parses-bind, Parses-map, Parses-require,
  Parses-weaken, bind-Sticky, bind-Marks, return-Marks, require-Marks, return-Reads, return-Parses,
  Marks, Sticky,
}
use amarian_amr.Wire.Integers.{IsI64}
use amarian_amr.Wire.Failure.{
  length-write_byte_string-le, length-write_compact_size, compact_size_len_pos,
}
use amarian_amr.Wire.Codec.{
  IsCodec, integer-IsCodec, IsI64-IsCodec, byte_string-IsCodec, FitsBytes, sequence-IsCodec,
  FitsSequence,
}
use amarian_amr.Primitives.Amount.{is_valid_amount, valid_amount-IsI64}
use amarian_amr.Primitives.Hash.{Hash256, is_zero}
use amarian_amr.Primitives.OutPoint
use amarian_amr.Primitives.OutPoint.{OutPoint, outpoint-IsCodec}
use amarian_amr.Primitives.Lock
use amarian_amr.Primitives.Lock.{Lock, lock-IsCodec, lock_eq, lock_beq_iff}
use amarian_amr.Primitives.Witness
use amarian_amr.Primitives.Witness.{Witness, witness-IsCodec}

abbrev pub witness_scale_factor : ℕ
witness_scale_factor = 4

abbrev pub coinbase_outpoint_index : ℕ
coinbase_outpoint_index = 0xffff_ffff

abbrev pub input_serialized_size : ℕ
input_serialized_size = 40

abbrev pub output_min_serialized_size : ℕ
output_min_serialized_size = 10

abbrev pub min_serialized_size : ℕ
min_serialized_size = 11

pub record TxLimits : Type 0 where
  pub max_inputs : ℕ
  pub max_outputs : ℕ
  pub max_witnesses : ℕ
  pub max_lock_program_size : ℕ
  pub witness : Witness.Limits
  pub max_coinbase_data_size : ℕ

pub record TxInput : Type 0 where
  pub outpoint : OutPoint
  pub sequence : ℕ

pub record TxOutput : Type 0 where
  pub amount : ℤ
  pub lock : Lock

pub record Transaction : Type 0 where
  pub version : ℕ
  pub inputs : List TxInput
  pub outputs : List TxOutput
  pub locktime : ℕ
  pub witnesses : List Witness
  pub coinbase_data : List ℕ

abbrev pub output_beq : TxOutput → TxOutput → Bool
output_beq a b = a.amount == b.amount && a.lock == b.lock

pub output_beq_iff : (a b : TxOutput) → (output_beq a b ≡ true) ↔ (a ≡ b)
output_beq_iff a b = (
  λ h. ground (arith, int_beq_iff a.amount b.amount, lock_beq_iff a.lock b.lock),
  λ h. ground (arith, int_beq_iff a.amount b.amount, lock_beq_iff a.lock b.lock),
)

instance abbrev pub output_eq : Eq TxOutput
output_eq = record { same = output_beq; same_iff = output_beq_iff }

-- `inputs.size() == 1` and the first input names the sentinel outpoint.
unfoldable pub is_coinbase_inputs : List TxInput → Bool
is_coinbase_inputs [] = false
is_coinbase_inputs (i ∷ []) = is_zero i.outpoint.txid && i.outpoint.index == coinbase_outpoint_index
is_coinbase_inputs (i ∷ j ∷ rest) = false

unfoldable pub is_coinbase : Transaction → Bool
is_coinbase tx = is_coinbase_inputs tx.inputs

unfoldable pub serialize_input : TxInput → List ℕ
serialize_input i = OutPoint.serialize i.outpoint ++ write_u32 i.sequence

unfoldable pub deserialize_input : Read TxInput
deserialize_input = do
  outpoint ← OutPoint.deserialize
  sequence ← read_u32
  return (record { outpoint = outpoint; sequence = sequence })

unfoldable pub serialize_output : TxOutput → List ℕ
serialize_output o = write_i64 o.amount ++ Lock.serialize o.lock

unfoldable pub deserialize_output : ℕ → Read TxOutput
deserialize_output max_lock_program_size = do
  amount ← read_i64
  lock ← Lock.deserialize max_lock_program_size
  require (is_valid_amount amount)
  return (record { amount = amount; lock = lock })

unfoldable pub serialize_without_witnesses : Transaction → List ℕ
serialize_without_witnesses tx =
    write_u32 tx.version
    ++ (write_sequence serialize_input tx.inputs
        ++ (write_sequence serialize_output tx.outputs ++ write_u32 tx.locktime))

-- The coinbase data stands where a spend has its witnesses.
unfoldable pub serialize_tail : Transaction → List ℕ
serialize_tail tx =
    if is_coinbase tx
    then write_byte_string tx.coinbase_data
    else write_sequence Witness.serialize tx.witnesses

unfoldable pub serialize : Transaction → List ℕ
serialize tx = serialize_without_witnesses tx ++ serialize_tail tx

-- Up to the locktime.
unfoldable pub deserialize_base : TxLimits → Read Transaction
deserialize_base l = do
  version ← read_u32
  inputs ← read_sequence l.max_inputs input_serialized_size deserialize_input
  outputs ←
      read_sequence l.max_outputs output_min_serialized_size
        (deserialize_output l.max_lock_program_size)
  locktime ← read_u32
  return (record {
    version = version;
    inputs = inputs;
    outputs = outputs;
    locktime = locktime;
    witnesses = [];
    coinbase_data = [];
  })

unfoldable pub deserialize_coinbase_data : TxLimits → Transaction → Read Transaction
deserialize_coinbase_data l decoded = do
  coinbase_data ← read_byte_string l.max_coinbase_data_size
  return (record decoded { coinbase_data = coinbase_data })

unfoldable pub deserialize_witnesses : TxLimits → Transaction → Read Transaction
deserialize_witnesses l decoded = do
  witnesses ←
      read_sequence l.max_witnesses Witness.min_serialized_size (Witness.deserialize l.witness)
  return (record decoded { witnesses = witnesses })

unfoldable pub deserialize_tail : TxLimits → Transaction → Read Transaction
deserialize_tail l decoded =
    if is_coinbase decoded
    then deserialize_coinbase_data l decoded
    else deserialize_witnesses l decoded

unfoldable pub deserialize : TxLimits → Read Transaction
deserialize l = do decoded ← deserialize_base l; deserialize_tail l decoded

-- The weight: a base byte counts four times, a witness byte once.
unfoldable pub weight : Transaction → ℕ
weight tx =
    let base = length (serialize_without_witnesses tx) in
    base * witness_scale_factor + (length (serialize tx) - base)

unfoldable pub make_coinbase_input : ℕ → TxInput
make_coinbase_input height = record {
  outpoint = record { txid = zeros; index = coinbase_outpoint_index };
  sequence = height;
}
  where
    zeros : Hash256
    zeros = replicate 32 0
