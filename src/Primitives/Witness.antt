-- ===== src/Primitives/Witness.antt =====
-- `Witness`: include/amarian/primitives/witness.hpp and src/primitives/witness.cpp.
use amarian_amr.Base.{
  ℕ, ◌≤◌, ap₂, List, ◌++◌, arith, length, length-append, concat_map, nat_eq, list_eq, bool_eq,
}
use amarian_amr.Base.Int.{int_eq}
use amarian_amr.Wire.{Read, ◌>>=◌, return, read_sequence, write_sequence, write_compact_size}
use amarian_amr.Wire.Rules.{
  Reads-bind, Reads-map, Parses-bind, Parses-map, bind-Sticky, bind-Marks, return-Marks,
}
use amarian_amr.Wire.Failure.{length-write_compact_size, compact_size_len_pos}
use amarian_amr.Wire.Codec.{IsCodec, sequence-IsCodec, FitsSequence}
use amarian_amr.Primitives.SpendCondition
use amarian_amr.Primitives.SpendCondition.{
  SpendCondition, Signature, serialize_signature, deserialize_signature, FitsSignature,
  signature-IsCodec, signature_min_serialized_size, length-serialize_signature-le,
  condition-IsCodec,
}

pub record Witness : Type 0 where
  pub condition : SpendCondition
  pub signatures : List Signature

abbrev pub min_serialized_size : ℕ
min_serialized_size = 4

-- The bounds that `Deserialize` takes.
pub record Limits : Type 0 where
  pub max_keys : ℕ
  pub max_key_size : ℕ
  pub max_signatures : ℕ
  pub max_signature_size : ℕ

unfoldable pub serialize : Witness → List ℕ
serialize w =
    SpendCondition.serialize w.condition ++ write_sequence serialize_signature w.signatures

unfoldable pub deserialize : Limits → Read Witness
deserialize l = do
  condition ← SpendCondition.deserialize l.max_keys l.max_key_size
  signatures ←
      read_sequence l.max_signatures signature_min_serialized_size
        (deserialize_signature l.max_signature_size)
  return (record { condition = condition; signatures = signatures })

abbrev pub Fits : Limits → Witness → Type 0
Fits l w =
    SpendCondition.Fits l.max_keys l.max_key_size w.condition
    × FitsSequence l.max_signatures (FitsSignature l.max_signature_size) w.signatures

signatures-IsCodec :
    (max_signatures max : ℕ)
    → IsCodec
        (read_sequence max_signatures signature_min_serialized_size (deserialize_signature max))
        (write_sequence serialize_signature)
        (FitsSequence max_signatures (FitsSignature max))
signatures-IsCodec max_signatures max =
    sequence-IsCodec (signature-IsCodec max) max_signatures signature_min_serialized_size
      (omega arith) (λ s h. length-serialize_signature-le s)

pub witness-IsCodec : (l : Limits) → IsCodec (deserialize l) serialize (Fits l)
unfolding serialize deserialize
witness-IsCodec l =
    let sigs = signatures-IsCodec l.max_signatures l.max_signature_size in
    let cond = condition-IsCodec l.max_keys l.max_key_size in
    record {
      reads = λ w h.
          Reads-bind _ (cond.reads w.condition h.0) (Reads-map _ (sigs.reads w.signatures h.1));
      parses =
          Parses-bind cond.parses
            λ c u q. Parses-map _ sigs.parses λ s w r. (ap₂ ◌++◌ q.0 r.0, (q.1, r.1));
      sticky = bind-Sticky _ cond.sticky λ c. bind-Marks _ sigs.sticky.marks λ s. return-Marks _;
    }

pub length-serialize-le : (w : Witness) → min_serialized_size ≤ length (serialize w)
unfolding serialize write_sequence
length-serialize-le w = omega (
  arith,
  length-append (SpendCondition.serialize w.condition)
      (write_sequence serialize_signature w.signatures),
  SpendCondition.length-serialize-le w.condition,
  length-append (write_compact_size (length w.signatures))
      (concat_map serialize_signature w.signatures),
  length-write_compact_size (length w.signatures),
  compact_size_len_pos (length w.signatures),
)
