-- ===== src/Primitives/SpendCondition.antt =====
-- `PublicKey`, `Signature` and `SpendCondition`: include/amarian/primitives/spend_condition.hpp and
-- src/primitives/spend_condition.cpp.
use amarian_amr.Base.{
  ℕ, ◌^◌, ◌≤◌, ◌<◌, ap₂, List, ◌++◌, arith, length, length-append, concat_map, nat_eq, list_eq,
  bool_eq,
}
use amarian_amr.Base.Bytes.{length-le_bytes}
use amarian_amr.Base.Int.{int_eq}
use amarian_amr.Wire.{
  Read, ◌>>=◌, return, read_u8, read_u16, write_u8, write_u16, read_byte_string, write_byte_string,
  read_sequence, write_sequence, write_compact_size,
}
use amarian_amr.Wire.Rules.{
  Reads-bind, Reads-map, Parses-bind, Parses-map, bind-Sticky, bind-Marks, return-Marks,
}
use amarian_amr.Wire.Failure.{
  length-write_byte_string-le, length-write_compact_size, compact_size_len_pos,
}
use amarian_amr.Wire.Codec.{
  IsCodec, integer-IsCodec, byte_string-IsCodec, FitsBytes, sequence-IsCodec, FitsSequence,
}

abbrev pub scheme_reserved : ℕ
scheme_reserved = 0

abbrev pub version_reserved : ℕ
version_reserved = 0

abbrev pub version_threshold : ℕ
version_threshold = 1

pub record PublicKey : Type 0 where
  pub scheme : ℕ
  pub bytes : List ℕ

pub record Signature : Type 0 where
  pub scheme : ℕ
  pub bytes : List ℕ

pub record SpendCondition : Type 0 where
  pub version : ℕ
  pub threshold : ℕ
  pub keys : List PublicKey

abbrev pub key_min_serialized_size : ℕ
key_min_serialized_size = 3

abbrev pub signature_min_serialized_size : ℕ
signature_min_serialized_size = 3

abbrev pub condition_min_serialized_size : ℕ
condition_min_serialized_size = 3

unfoldable pub serialize_key : PublicKey → List ℕ
serialize_key k = write_u16 k.scheme ++ write_byte_string k.bytes

unfoldable pub deserialize_key : ℕ → Read PublicKey
deserialize_key max_key_size = do
  scheme ← read_u16
  bytes ← read_byte_string max_key_size
  return (record { scheme = scheme; bytes = bytes })

unfoldable pub serialize_signature : Signature → List ℕ
serialize_signature s = write_u16 s.scheme ++ write_byte_string s.bytes

unfoldable pub deserialize_signature : ℕ → Read Signature
deserialize_signature max_signature_size = do
  scheme ← read_u16
  bytes ← read_byte_string max_signature_size
  return (record { scheme = scheme; bytes = bytes })

unfoldable pub serialize : SpendCondition → List ℕ
serialize c = write_u8 c.version ++ (write_u8 c.threshold ++ write_sequence serialize_key c.keys)

unfoldable pub deserialize : ℕ → ℕ → Read SpendCondition
deserialize max_keys max_key_size = do
  version ← read_u8
  threshold ← read_u8
  keys ← read_sequence max_keys key_min_serialized_size (deserialize_key max_key_size)
  return (record { version = version; threshold = threshold; keys = keys })

abbrev pub FitsKey : ℕ → PublicKey → Type 0
FitsKey max k = (k.scheme < 256 ^ 2) × FitsBytes max k.bytes

abbrev pub FitsSignature : ℕ → Signature → Type 0
FitsSignature max s = (s.scheme < 256 ^ 2) × FitsBytes max s.bytes

abbrev pub Fits : ℕ → ℕ → SpendCondition → Type 0
Fits max_keys max_key_size c =
    (c.version < 256 ^ 1)
    × (c.threshold < 256 ^ 1)
    × FitsSequence max_keys (FitsKey max_key_size) c.keys

pub key-IsCodec : (max : ℕ) → IsCodec (deserialize_key max) serialize_key (FitsKey max)
unfolding serialize_key deserialize_key write_u16
key-IsCodec max = record {
  reads = λ k h.
      Reads-bind _ ((integer-IsCodec 2).reads k.scheme h.0)
        (Reads-map _ ((byte_string-IsCodec max).reads k.bytes h.1));
  parses = Parses-bind (integer-IsCodec 2).parses λ v u q.
      Parses-map _ (byte_string-IsCodec max).parses λ p w r. (ap₂ ◌++◌ q.0 r.0, (q.1, r.1));
  sticky =
      bind-Sticky _ (integer-IsCodec 2).sticky
        λ v. bind-Marks _ (byte_string-IsCodec max).sticky.marks λ p. return-Marks _;
}

pub signature-IsCodec :
    (max : ℕ) → IsCodec (deserialize_signature max) serialize_signature (FitsSignature max)
unfolding serialize_signature deserialize_signature write_u16
signature-IsCodec max = record {
  reads = λ s h.
      Reads-bind _ ((integer-IsCodec 2).reads s.scheme h.0)
        (Reads-map _ ((byte_string-IsCodec max).reads s.bytes h.1));
  parses = Parses-bind (integer-IsCodec 2).parses λ v u q.
      Parses-map _ (byte_string-IsCodec max).parses λ p w r. (ap₂ ◌++◌ q.0 r.0, (q.1, r.1));
  sticky =
      bind-Sticky _ (integer-IsCodec 2).sticky
        λ v. bind-Marks _ (byte_string-IsCodec max).sticky.marks λ p. return-Marks _;
}

length-serialize_key-le : (k : PublicKey) → key_min_serialized_size ≤ length (serialize_key k)
unfolding serialize_key write_u16
length-serialize_key-le k = omega (
  arith,
  length-append (write_u16 k.scheme) (write_byte_string k.bytes),
  length-le_bytes 2 k.scheme,
  length-write_byte_string-le k.bytes,
)

pub length-serialize_signature-le :
    (s : Signature) → signature_min_serialized_size ≤ length (serialize_signature s)
unfolding serialize_signature write_u16
length-serialize_signature-le s = omega (
  arith,
  length-append (write_u16 s.scheme) (write_byte_string s.bytes),
  length-le_bytes 2 s.scheme,
  length-write_byte_string-le s.bytes,
)

keys-IsCodec :
    (max_keys max : ℕ)
    → IsCodec
        (read_sequence max_keys key_min_serialized_size (deserialize_key max))
        (write_sequence serialize_key)
        (FitsSequence max_keys (FitsKey max))
keys-IsCodec max_keys max =
    sequence-IsCodec (key-IsCodec max) max_keys key_min_serialized_size (omega arith)
      (λ k h. length-serialize_key-le k)

pub condition-IsCodec :
    (max_keys max : ℕ) → IsCodec (deserialize max_keys max) serialize (Fits max_keys max)
unfolding serialize deserialize write_u8
condition-IsCodec max_keys max = record {
  reads = λ c h. Reads-bind _ ((integer-IsCodec 1).reads c.version h.0) (
      Reads-bind _ ((integer-IsCodec 1).reads c.threshold h.1)
        (Reads-map _ ((keys-IsCodec max_keys max).reads c.keys h.2)));
  parses = Parses-bind (integer-IsCodec 1).parses λ v u q.
      Parses-bind (integer-IsCodec 1).parses λ t w r.
        Parses-map _ (keys-IsCodec max_keys max).parses
          λ ks x s. (ap₂ ◌++◌ q.0 (ap₂ ◌++◌ r.0 s.0), (q.1, r.1, s.1));
  sticky = bind-Sticky _ (integer-IsCodec 1).sticky λ v.
      bind-Marks _ (integer-IsCodec 1).sticky.marks
        λ t. bind-Marks _ (keys-IsCodec max_keys max).sticky.marks λ ks. return-Marks _;
}

pub length-serialize-le :
    (c : SpendCondition) → condition_min_serialized_size ≤ length (serialize c)
unfolding serialize write_u8 write_sequence
length-serialize-le c = omega (
  arith,
  length-append (write_u8 c.version) (write_u8 c.threshold ++ write_sequence serialize_key c.keys),
  length-append (write_u8 c.threshold) (write_sequence serialize_key c.keys),
  length-append (write_compact_size (length c.keys)) (concat_map serialize_key c.keys),
  length-le_bytes 1 c.version,
  length-le_bytes 1 c.threshold,
  length-write_compact_size (length c.keys),
  compact_size_len_pos (length c.keys),
)
