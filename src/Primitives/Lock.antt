-- ===== src/Primitives/Lock.antt =====
-- `Lock`: include/amarian/primitives/lock.hpp and src/primitives/lock.cpp.
use amarian_amr.Base.{
  ℕ, ◌^◌, ◌≤◌, ◌<◌, ◌≡◌, ◌↔◌, ap₂, Bool, true, List, ◌++◌, ◌&&◌, arith, length, length-append, Eq,
  ◌==◌, nat_eq, list_eq, bool_eq, list_beq_iff, nat_beq_iff,
}
use amarian_amr.Base.Bytes.{length-le_bytes}
use amarian_amr.Base.Int.{int_eq}
use amarian_amr.Wire.{Read, ◌>>=◌, return, read_u8, write_u8, read_byte_string, write_byte_string}
use amarian_amr.Wire.Rules.{
  Reads-bind, Reads-map, Parses-bind, Parses-map, bind-Sticky, bind-Marks, return-Marks,
}
use amarian_amr.Wire.Failure.{length-write_byte_string-le}
use amarian_amr.Wire.Codec.{IsCodec, integer-IsCodec, byte_string-IsCodec, FitsBytes}

abbrev pub version_unspendable : ℕ
version_unspendable = 0

abbrev pub version_condition_commitment : ℕ
version_condition_commitment = 1

pub record Lock : Type 0 where
  pub version : ℕ
  pub program : List ℕ

unfoldable pub is_unspendable : Lock → Bool
is_unspendable l = l.version == version_unspendable

abbrev pub lock_beq : Lock → Lock → Bool
lock_beq a b = a.version == b.version && a.program == b.program

pub lock_beq_iff : (a b : Lock) → (lock_beq a b ≡ true) ↔ (a ≡ b)
lock_beq_iff a b = (
  λ h. ground (arith, nat_beq_iff a.version b.version, list_beq_iff a.program b.program),
  λ h. ground (arith, nat_beq_iff a.version b.version, list_beq_iff a.program b.program),
)

instance abbrev pub lock_eq : Eq Lock
lock_eq = record { same = lock_beq; same_iff = lock_beq_iff }

abbrev pub Fits : ℕ → Lock → Type 0
Fits max_program_size l = (l.version < 256 ^ 1) × FitsBytes max_program_size l.program

unfoldable pub serialize : Lock → List ℕ
serialize l = write_u8 l.version ++ write_byte_string l.program

unfoldable pub deserialize : ℕ → Read Lock
deserialize max_program_size = do
  version ← read_u8
  program ← read_byte_string max_program_size
  return (record { version = version; program = program })

pub lock-IsCodec : (max : ℕ) → IsCodec (deserialize max) serialize (Fits max)
unfolding serialize deserialize write_u8
lock-IsCodec max = record {
  reads = λ l h.
      Reads-bind _ ((integer-IsCodec 1).reads l.version h.0)
        (Reads-map _ ((byte_string-IsCodec max).reads l.program h.1));
  parses = Parses-bind (integer-IsCodec 1).parses λ v u q.
      Parses-map _ (byte_string-IsCodec max).parses λ p w r. (ap₂ ◌++◌ q.0 r.0, (q.1, r.1));
  sticky =
      bind-Sticky _ (integer-IsCodec 1).sticky
        λ v. bind-Marks _ (byte_string-IsCodec max).sticky.marks λ p. return-Marks _;
}

pub length-serialize-le : (l : Lock) → 2 ≤ length (serialize l)
unfolding serialize write_u8
length-serialize-le l = omega (
  arith,
  length-append (write_u8 l.version) (write_byte_string l.program),
  length-le_bytes 1 l.version,
  length-write_byte_string-le l.program,
)
