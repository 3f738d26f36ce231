-- ===== src/Primitives/OutPoint.antt =====
-- `OutPoint`: include/amarian/primitives/outpoint.hpp and src/primitives/outpoint.cpp.
use amarian_amr.Base.{
  ℕ, ◌^◌, ◌<◌, ◌≡◌, ◌↔◌, ap₂, Bool, true, List, ◌++◌, ◌&&◌, arith, length, length-append, Eq, ◌==◌,
  nat_eq, list_eq, list_beq_iff, nat_beq_iff,
}
use amarian_amr.Base.Bytes.{length-le_bytes}
use amarian_amr.Wire.{Read, ◌>>=◌, return, read_u32, write_u32}
use amarian_amr.Wire.Rules.{
  Reads-bind, Reads-map, Parses-bind, Parses-map, bind-Sticky, bind-Marks, return-Marks,
}
use amarian_amr.Wire.Codec.{IsCodec, integer-IsCodec}
use amarian_amr.Primitives.Hash.{Hash256, IsHash, read_hash256, write_hash256, IsHash-IsCodec}

pub record OutPoint : Type 0 where
  pub txid : Hash256
  pub index : ℕ

abbrev pub outpoint_beq : OutPoint → OutPoint → Bool
outpoint_beq a b = a.txid == b.txid && a.index == b.index

pub outpoint_beq_iff : (a b : OutPoint) → (outpoint_beq a b ≡ true) ↔ (a ≡ b)
outpoint_beq_iff a b = (
  λ h. ground (arith, list_beq_iff a.txid b.txid, nat_beq_iff a.index b.index),
  λ h. ground (arith, list_beq_iff a.txid b.txid, nat_beq_iff a.index b.index),
)

instance abbrev pub outpoint_eq : Eq OutPoint
outpoint_eq = record { same = outpoint_beq; same_iff = outpoint_beq_iff }

abbrev pub Fits : OutPoint → Type 0
Fits o = IsHash o.txid × (o.index < 256 ^ 4)

unfoldable pub serialize : OutPoint → List ℕ
serialize o = write_hash256 o.txid ++ write_u32 o.index

unfoldable pub deserialize : Read OutPoint
deserialize = do
  txid ← read_hash256
  index ← read_u32
  return (record { txid = txid; index = index })

pub outpoint-IsCodec : IsCodec deserialize serialize Fits
unfolding serialize deserialize write_u32
outpoint-IsCodec = record {
  reads = λ o h.
      Reads-bind _ (IsHash-IsCodec.reads o.txid h.0)
        (Reads-map _ ((integer-IsCodec 4).reads o.index h.1));
  parses =
      Parses-bind IsHash-IsCodec.parses
        λ t u q. Parses-map _ (integer-IsCodec 4).parses λ i v r. (ap₂ ◌++◌ q.0 r.0, (q.1, r.1));
  sticky =
      bind-Sticky _ IsHash-IsCodec.sticky
        λ t. bind-Marks _ (integer-IsCodec 4).sticky.marks λ i. return-Marks _;
}

abbrev pub serialized_size : ℕ
serialized_size = 36

pub length-serialize : (o : OutPoint) → Fits o → length (serialize o) ≡ serialized_size
unfolding serialize write_u32
length-serialize o h =
    omega (arith, length-append o.txid (write_u32 o.index), length-le_bytes 4 o.index, h.0.0)
