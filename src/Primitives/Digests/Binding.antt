-- ===== src/Primitives/Digests/Binding.antt =====
-- What a signature is bound to: `SignatureHash` and `ComputeSigHashMidstates` of src/primitives/sighash.cpp.
use Prim.Native.String.{String}
use amarian_amr.Base.{
  ℕ, ◌≡◌, ◌⊎◌, inl, inr, refl, sym, ap, ◌∙◌, true, List, ◌++◌, map, Bool-cases, beq→eq, beq_refl,
  ◌==◌, nat_eq, list_eq, append_inj,
}
use amarian_amr.Wire.{write_u32, write_sequence}
use amarian_amr.Wire.Codec.{IsCodec-inj}
use amarian_amr.Crypto.{Backend, tagged_hash}
use amarian_amr.Primitives.Hash.{Hash256}
use amarian_amr.Primitives.OutPoint
use amarian_amr.Primitives.OutPoint.{OutPoint, outpoint-IsCodec}
use amarian_amr.Primitives.SpendCondition
use amarian_amr.Primitives.SpendCondition.{SpendCondition, condition-IsCodec}
use amarian_amr.Primitives.Transaction.{TxLimits, TxInput, serialize_output}
use amarian_amr.Primitives.Transaction.Codec.{FitsInputs, FitsOutputs, outputs-IsCodec}
use amarian_amr.Primitives.Transaction.Columns.{
  write_sequence-map, inputs_eq, outpoints-inj, sequences-inj,
}
use amarian_amr.Primitives.Digests.{
  SigHashDomain, SigHashMidstates, outpoints, sequences, outputs, sighash_tag, spend_condition_tag,
  begin_preimage, spend_condition_commitment, compute_sighash_midstates, signature_hash,
}
use amarian_amr.Primitives.Digests.Preimage.{
  Signed, FitsFields, SameFields, HashesAre32Bytes, preimage_of, preimage_of-SameFields,
}

abbrev pub signature_hash_of : Backend → Signed → Hash256
signature_hash_of b s =
    signature_hash b s.chain_id s.tx (compute_sighash_midstates b s.tx) s.index s.amount s.condition

-- The five messages that are hashed for a signature.
pub data Part : Type 0 where
  whole spent_outpoints spent_sequences created_outputs spend_condition : Part

abbrev pub tag_of : Part → String
tag_of spend_condition = spend_condition_tag
tag_of part = sighash_tag

abbrev pub message_of : Backend → Part → Signed → List ℕ
message_of b whole s = preimage_of b s
message_of b spent_outpoints s =
    begin_preimage outpoints
    ++ write_sequence OutPoint.serialize (map (λ (i : TxInput). i.outpoint) s.tx.inputs)
message_of b spent_sequences s =
    begin_preimage sequences
    ++ write_sequence write_u32 (map (λ (i : TxInput). i.sequence) s.tx.inputs)
message_of b created_outputs s =
    begin_preimage outputs ++ write_sequence serialize_output s.tx.outputs
message_of b spend_condition s = SpendCondition.serialize s.condition

-- Two different messages, of one part of the two signatures, that have one hash.
pub record Collision (b : Backend) (s t : Signed) : Type 0 where
  pub part : Part
  pub differ : message_of b part s ≡ message_of b part t → ⊥
  pub collide :
      tagged_hash b (tag_of part) (message_of b part s)
      ≡ tagged_hash b (tag_of part) (message_of b part t)

-- What the code would read back: the fields have their widths, and the inputs, the outputs and the
-- condition keep to the limits.
pub record FitsSigned (l : TxLimits) (s : Signed) : Type 0 where
  pub fields : FitsFields s
  pub inputs : FitsInputs l s.tx.inputs
  pub outputs : FitsOutputs l s.tx.outputs
  pub condition : SpendCondition.Fits l.witness.max_keys l.witness.max_key_size s.condition

pub record SameSigned (s t : Signed) : Type 0 where
  pub chain : s.chain_id ≡ t.chain_id
  pub version : s.tx.version ≡ t.tx.version
  pub locktime : s.tx.locktime ≡ t.tx.locktime
  pub inputs : s.tx.inputs ≡ t.tx.inputs
  pub outputs : s.tx.outputs ≡ t.tx.outputs
  pub index : s.index ≡ t.index
  pub amount : s.amount ≡ t.amount
  pub condition : s.condition ≡ t.condition

-- One hash is of one message, unless the two parts collide.
part_or_Collision :
    (b : Backend) (s t : Signed) (part : Part)
    → tagged_hash b (tag_of part) (message_of b part s)
      ≡ tagged_hash b (tag_of part) (message_of b part t)
    → Collision b s t ⊎ (message_of b part s ≡ message_of b part t)
part_or_Collision b s t part h = elim (Bool-cases (message_of b part s == message_of b part t)) [
  | inl q ↦ inr (beq→eq q)
  | inr n ↦ inl (record {
    part = part;
    differ = λ e.
        let same : (message_of b part s == message_of b part t) ≡ true =
          ap (λ w. message_of b part s == w) (sym e) ∙ beq_refl (message_of b part s) in
        cc (same, n);
    collide = h;
  })
]

or_else : {A C D : Type 0} → C ⊎ A → (A → C ⊎ D) → C ⊎ D
or_else (inl c) f = inl c
or_else (inr x) f = f x

-- The midstates are the hashes of three parts.
module _ (b : Backend) (s : Signed) where
  outpoints-message :
      (compute_sighash_midstates b s.tx).outpoints
      ≡ tagged_hash b sighash_tag (message_of b spent_outpoints s)
  unfolding compute_sighash_midstates
  outpoints-message =
      ap (λ w. tagged_hash b sighash_tag (begin_preimage outpoints ++ w))
        (write_sequence-map OutPoint.serialize (λ (i : TxInput). i.outpoint) s.tx.inputs)

  sequences-message :
      (compute_sighash_midstates b s.tx).sequences
      ≡ tagged_hash b sighash_tag (message_of b spent_sequences s)
  unfolding compute_sighash_midstates
  sequences-message =
      ap (λ w. tagged_hash b sighash_tag (begin_preimage sequences ++ w))
        (write_sequence-map write_u32 (λ (i : TxInput). i.sequence) s.tx.inputs)

  outputs-message :
      (compute_sighash_midstates b s.tx).outputs
      ≡ tagged_hash b sighash_tag (message_of b created_outputs s)
  unfolding compute_sighash_midstates
  outputs-message = refl

conditions_hashed :
    (b : Backend) (s t : Signed)
    → SameFields b s t
    → tagged_hash b spend_condition_tag (SpendCondition.serialize s.condition)
      ≡ tagged_hash b spend_condition_tag (SpendCondition.serialize t.condition)
unfolding spend_condition_commitment
conditions_hashed b s t same = same.condition

-- When every hash has 32 bytes and both sides fit the limits under which the code reads them, two equal
-- signature hashes are of the same chain, version, locktime, inputs, outputs, input index, spent amount and
-- condition, or else there is a collision: for one of the five messages that are hashed for a signature, the
-- two sides have different messages with one tagged hash.
pub signature_hash-binds :
    (b : Backend) (l : TxLimits) (s t : Signed)
    → HashesAre32Bytes b
    → FitsSigned l s
    → FitsSigned l t
    → signature_hash_of b s ≡ signature_hash_of b t
    → Collision b s t ⊎ SameSigned s t
unfolding signature_hash
signature_hash-binds b l s t h f g e = or_else (part_or_Collision b s t whole e) λ w.
    let same = preimage_of-SameFields b s t h f.fields g.fields w in
    or_else
      (part_or_Collision b s t spent_outpoints (
        sym (outpoints-message b s)
        ∙ ap (λ m. SigHashMidstates.outpoints m) same.midstates
        ∙ outpoints-message b t))
      λ spent.
        or_else
          (part_or_Collision b s t spent_sequences (
            sym (sequences-message b s)
            ∙ ap (λ m. SigHashMidstates.sequences m) same.midstates
            ∙ sequences-message b t))
          λ numbers.
            or_else
              (part_or_Collision b s t created_outputs (
                sym (outputs-message b s)
                ∙ ap (λ m. SigHashMidstates.outputs m) same.midstates
                ∙ outputs-message b t))
              λ created.
                or_else (part_or_Collision b s t spend_condition (conditions_hashed b s t same))
                  λ locked. inr (record {
                    chain = same.chain;
                    version = same.version;
                    locktime = same.locktime;
                    inputs =
                        inputs_eq s.tx.inputs t.tx.inputs
                          (outpoints-inj l s.tx.inputs t.tx.inputs f.inputs g.inputs
                            (body outpoints spent))
                          (sequences-inj l s.tx.inputs t.tx.inputs f.inputs g.inputs
                            (body sequences numbers));
                    outputs =
                        IsCodec-inj (outputs-IsCodec l) s.tx.outputs t.tx.outputs f.outputs
                          g.outputs (body outputs created);
                    index = same.index;
                    amount = same.amount;
                    condition =
                        IsCodec-inj (condition-IsCodec l.witness.max_keys l.witness.max_key_size)
                          s.condition t.condition f.condition g.condition locked;
                  })
  where
    body :
        (domain : SigHashDomain) {x y : List ℕ}
        → begin_preimage domain ++ x ≡ begin_preimage domain ++ y
        → x ≡ y
    body domain {x} {y} q =
        (append_inj (begin_preimage domain) x (begin_preimage domain) y refl q).1
