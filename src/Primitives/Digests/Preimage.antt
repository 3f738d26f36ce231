-- ===== src/Primitives/Digests/Preimage.antt =====
-- The preimage that a signature signs.
use amarian_amr.Base.{
  ℕ, ◌^◌, ◌<◌, ◌≡◌, refl, sym, ap, ◌∙◌, List, arith, length, length-append, append_inj,
}
use amarian_amr.Base.Bytes.{le_bytes, length-le_bytes, le_value, le_value-le_bytes}
use amarian_amr.Base.Int.{ℤ}
use Prim.Native.String.{String}
use amarian_amr.Wire.Integers.{IsI64, to_u64-lt, from_u64-to_u64}
use amarian_amr.Crypto.{Backend, sha256, tagged_hash}
use amarian_amr.Wire.{write_u8, write_u32, write_u64, write_i64, to_u64, from_u64}
use amarian_amr.Primitives.Hash.{Hash256, hash_size}
use amarian_amr.Primitives.SpendCondition.{SpendCondition}
use amarian_amr.Primitives.Transaction.{Transaction}
use amarian_amr.Primitives.Digests.{
  sighash_preimage_size, begin_preimage, spend_condition_commitment, compute_sighash_midstates,
  signature_hash_preimage,
}

-- The hash function's one documented property that lengths need.
abbrev pub HashesAre32Bytes : Backend → Type 0
HashesAre32Bytes b = (bytes : List ℕ) → length (b.sha256 bytes) ≡ hash_size

length-tagged_hash :
    (b : Backend)
    → HashesAre32Bytes b
    → (tag : String) (bytes : List ℕ) → length (tagged_hash b tag bytes) ≡ 32
unfolding tagged_hash sha256
length-tagged_hash b h tag bytes = h _

-- When every hash has 32 bytes, and so the chain's identifier, the preimage that is hashed for an input
-- has the announced size of 181 bytes, whatever the transaction, the input, the amount and the
-- condition.
pub length-signature_hash_preimage :
    (b : Backend) (chain_id : Hash256) (tx : Transaction) (index : ℕ) (amount : ℤ)
    (condition : SpendCondition)
    → HashesAre32Bytes b
    → length chain_id ≡ 32
    → length (
        signature_hash_preimage b chain_id tx
          (compute_sighash_midstates b tx)
          index
          amount
          condition)
      ≡ sighash_preimage_size
unfolding signature_hash_preimage begin_preimage compute_sighash_midstates
    spend_condition_commitment write_u8 write_u32 write_i64 write_u64
length-signature_hash_preimage b chain_id tx index amount condition h k =
    simp (length-append, length-le_bytes, k, length-tagged_hash b h) (omega arith)

le_bytes_inj : (n v w : ℕ) → v < 256 ^ n → w < 256 ^ n → le_bytes n v ≡ le_bytes n w → v ≡ w
le_bytes_inj n v w h k e = sym (le_value-le_bytes n v h) ∙ ap le_value e ∙ le_value-le_bytes n w k

to_u64_inj : (a b : ℤ) → IsI64 a → IsI64 b → to_u64 a ≡ to_u64 b → a ≡ b
to_u64_inj a b h k e = sym (from_u64-to_u64 a h) ∙ ap from_u64 e ∙ from_u64-to_u64 b k

-- What one signature is bound to.
pub record Signed : Type 0 where
  pub chain_id : Hash256
  pub tx : Transaction
  pub index : ℕ
  pub amount : ℤ
  pub condition : SpendCondition

abbrev pub preimage_of : Backend → Signed → List ℕ
preimage_of b s =
    signature_hash_preimage b s.chain_id s.tx (compute_sighash_midstates b s.tx) s.index s.amount
      s.condition

-- The fields are of the widths that the code's types give them.
pub record FitsFields (s : Signed) : Type 0 where
  pub chain : length s.chain_id ≡ 32
  pub version : s.tx.version < 256 ^ 4
  pub locktime : s.tx.locktime < 256 ^ 4
  pub index : s.index < 256 ^ 4
  pub amount : IsI64 s.amount

pub record SameFields (b : Backend) (s t : Signed) : Type 0 where
  pub chain : s.chain_id ≡ t.chain_id
  pub version : s.tx.version ≡ t.tx.version
  pub locktime : s.tx.locktime ≡ t.tx.locktime
  pub midstates : compute_sighash_midstates b s.tx ≡ compute_sighash_midstates b t.tx
  pub index : s.index ≡ t.index
  pub amount : s.amount ≡ t.amount
  pub condition :
      spend_condition_commitment b s.condition ≡ spend_condition_commitment b t.condition

-- When every hash has 32 bytes and the fields have their widths, two equal preimages agree in the chain,
-- the version, the locktime, the three midstates, the input's index, the spent amount and the
-- commitment to the condition.
pub preimage_of-SameFields :
    (b : Backend) (s t : Signed)
    → HashesAre32Bytes b
    → FitsFields s
    → FitsFields t
    → preimage_of b s ≡ preimage_of b t
    → SameFields b s t
unfolding signature_hash_preimage begin_preimage compute_sighash_midstates
    spend_condition_commitment write_u8 write_u32 write_i64 write_u64
preimage_of-SameFields b s t h f g e =
    let m = compute_sighash_midstates b s.tx in
    let n = compute_sighash_midstates b t.tx in
    let w = length-tagged_hash b h in
    let a0 = append_inj (le_bytes 1 4) _ (le_bytes 1 4) _ refl e in
    let a1 = append_inj s.chain_id _ t.chain_id _ (f.chain ∙ sym g.chain) a0.1 in
    let a2 =
      append_inj (le_bytes 4 s.tx.version) _ (le_bytes 4 t.tx.version) _
        (widths 4 s.tx.version t.tx.version) a1.1 in
    let a3 =
      append_inj (le_bytes 4 s.tx.locktime) _ (le_bytes 4 t.tx.locktime) _
        (widths 4 s.tx.locktime t.tx.locktime) a2.1 in
    let a4 = append_inj m.outpoints _ n.outpoints _ (w _ _ ∙ sym (w _ _)) a3.1 in
    let a5 = append_inj m.sequences _ n.sequences _ (w _ _ ∙ sym (w _ _)) a4.1 in
    let a6 = append_inj m.outputs _ n.outputs _ (w _ _ ∙ sym (w _ _)) a5.1 in
    let a7 =
      append_inj (le_bytes 4 s.index) _ (le_bytes 4 t.index) _ (widths 4 s.index t.index) a6.1 in
    let a8 =
      append_inj (le_bytes 8 (to_u64 s.amount)) _ (le_bytes 8 (to_u64 t.amount)) _
        (widths 8 (to_u64 s.amount) (to_u64 t.amount)) a7.1 in
    record {
      chain = a1.0;
      version = le_bytes_inj 4 s.tx.version t.tx.version f.version g.version a2.0;
      locktime = le_bytes_inj 4 s.tx.locktime t.tx.locktime f.locktime g.locktime a3.0;
      midstates = cc (a4.0, a5.0, a6.0);
      index = le_bytes_inj 4 s.index t.index f.index g.index a7.0;
      amount = to_u64_inj s.amount t.amount f.amount g.amount (
          le_bytes_inj 8 (to_u64 s.amount) (to_u64 t.amount)
            (omega (arith, to_u64-lt s.amount f.amount))
            (omega (arith, to_u64-lt t.amount g.amount)) a8.0);
      condition = a8.1;
    }
  where
    widths : (k v u : ℕ) → length (le_bytes k v) ≡ length (le_bytes k u)
    widths k v u = length-le_bytes k v ∙ sym (length-le_bytes k u)
