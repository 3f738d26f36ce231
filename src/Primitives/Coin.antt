-- ===== src/Primitives/Coin.antt =====
-- `Coin`: include/amarian/primitives/coin.hpp and src/primitives/coin.cpp.
use amarian_amr.Base.{
  ℕ, ◌^◌, ◌≤◌, ◌<◌, ◌≡◌, ◌↔◌, ap, ap₂, sym, subst, ◌∙◌, Bool, true, false, not, List, ◌++◌, ◌&&◌,
  arith, length, length-append, ltb, Eq, ◌==◌, nat_eq, list_eq, bool_eq, nat_beq_iff, bool_beq_iff,
}
use amarian_amr.Base.Bytes.{length-le_bytes}
use amarian_amr.Base.Int.{int_eq}
use amarian_amr.Wire.{Read, ◌>>=◌, ◌>>◌, return, require, read_u8, read_u32, write_u8, write_u32}
use amarian_amr.Wire.Rules.{
  Reads, Reads-bind, Reads-map, Reads-require, Parses-bind, Parses-map, Parses-require, bind-Sticky,
  bind-Marks, return-Marks, require-Marks,
}
use amarian_amr.Wire.Codec.{IsCodec, integer-IsCodec}
use amarian_amr.Primitives.Transaction
use amarian_amr.Primitives.Transaction.{TxOutput, output_eq, output_beq_iff}
use amarian_amr.Primitives.Transaction.Codec.{
  FitsOutput, output-IsCodec, length-serialize_output-le,
}

pub record Coin : Type 0 where
  pub output : TxOutput
  pub height : ℕ
  pub is_coinbase : Bool

abbrev pub min_serialized_size : ℕ
min_serialized_size = 15

abbrev pub coin_beq : Coin → Coin → Bool
coin_beq a b = (a.output == b.output && a.height == b.height) && a.is_coinbase == b.is_coinbase

pub coin_beq_iff : (a b : Coin) → (coin_beq a b ≡ true) ↔ (a ≡ b)
coin_beq_iff a b = (
  λ h. ground (
    arith,
    output_beq_iff a.output b.output,
    nat_beq_iff a.height b.height,
    bool_beq_iff a.is_coinbase b.is_coinbase,
  ),
  λ h. ground (
    arith,
    output_beq_iff a.output b.output,
    nat_beq_iff a.height b.height,
    bool_beq_iff a.is_coinbase b.is_coinbase,
  ),
)

instance abbrev pub coin_eq : Eq Coin
coin_eq = record { same = coin_beq; same_iff = coin_beq_iff }

abbrev flag : Bool → ℕ
flag true = 1
flag false = 0

unfoldable pub serialize : Coin → List ℕ
serialize c =
    write_u32 c.height ++ (write_u8 (flag c.is_coinbase) ++ Transaction.serialize_output c.output)

unfoldable pub deserialize : ℕ → Read Coin
deserialize max_lock_program_size = do
  height ← read_u32
  flag ← read_u8
  require (not (ltb 1 flag))
  output ← Transaction.deserialize_output max_lock_program_size
  return (record { output = output; height = height; is_coinbase = flag == 1 })

abbrev pub Fits : ℕ → Coin → Type 0
Fits max c = (c.height < 256 ^ 4) × FitsOutput max c.output

flag_read : (b : Bool) → (flag b < 256 ^ 1) × (not (ltb 1 (flag b)) ≡ true) × ((flag b == 1) ≡ b)
flag_read true = ground arith
flag_read false = ground arith

flag_written : (v : ℕ) → not (ltb 1 v) ≡ true → flag (v == 1) ≡ v
flag_written v h = ground arith

pub coin-IsCodec : (max : ℕ) → IsCodec (deserialize max) serialize (Fits max)
unfolding serialize deserialize write_u32 write_u8
coin-IsCodec max = record {
  reads = λ c h.
      let (fits, in_range, back) = flag_read c.is_coinbase in
      subst (λ b. Reads (deserialize max) (record c { is_coinbase = b }) (serialize c)) back
        (Reads-bind _ ((integer-IsCodec 4).reads c.height h.0) (
          Reads-bind _ ((integer-IsCodec 1).reads (flag c.is_coinbase) fits)
            (Reads-require _ _ in_range (Reads-map _ ((output-IsCodec max).reads c.output h.1)))));
  parses = Parses-bind (integer-IsCodec 4).parses λ height u q.
      Parses-bind (integer-IsCodec 1).parses λ v u' q'. Parses-require (not (ltb 1 v)) _ λ in_range.
        Parses-map _ (output-IsCodec max).parses λ o w r. (
          ap₂ ◌++◌ q.0 (ap₂ ◌++◌ (q'.0 ∙ ap write_u8 (sym (flag_written v in_range))) r.0),
          (q.1, r.1),
        );
  sticky = bind-Sticky _ (integer-IsCodec 4).sticky λ height.
      bind-Marks _ (integer-IsCodec 1).sticky.marks λ v.
        bind-Marks _ (require-Marks _)
          λ _. bind-Marks _ (output-IsCodec max).sticky.marks λ o. return-Marks _;
}

pub length-serialize-le : (c : Coin) → min_serialized_size ≤ length (serialize c)
unfolding serialize write_u32 write_u8
length-serialize-le c = omega (
  arith,
  length-append (write_u32 c.height)
      (write_u8 (flag c.is_coinbase) ++ Transaction.serialize_output c.output),
  length-append (write_u8 (flag c.is_coinbase)) (Transaction.serialize_output c.output),
  length-le_bytes 4 c.height,
  length-le_bytes 1 (flag c.is_coinbase),
  length-serialize_output-le c.output,
)
