-- ===== src/Primitives/Transaction/Codec.antt =====
-- The serialised forms of inputs, outputs and transactions.
use amarian_amr.Base.{
  ℕ, ◌^◌, ◌≤◌, ◌<◌, ◌≡◌, refl, ap, ap₂, sym, subst, ◌∙◌, Bool, true, false, List, [], ◌++◌,
  append-nil, inl, inr, Bool-cases, arith, length, length-append, nat_eq, list_eq, bool_eq,
}
use amarian_amr.Base.Bytes.{length-le_bytes}
use amarian_amr.Base.Int.{int_eq}
use amarian_amr.Wire.{
  write_u32, write_u64, write_i64, write_byte_string, read_sequence, write_sequence, to_u64,
}
use amarian_amr.Wire.Rules.{
  Reads, Parses, Reads-bind, Reads-map, Reads-require, Parses-bind, Parses-map, Parses-require,
  Parses-weaken, bind-Sticky, bind-Marks, return-Marks, require-Marks, return-Reads, return-Parses,
  Marks, Sticky,
}
use amarian_amr.Wire.Failure.{length-write_byte_string-le, length-write_sequence-le}
use amarian_amr.Wire.Codec.{
  IsCodec, integer-IsCodec, IsI64-IsCodec, byte_string-IsCodec, FitsBytes, sequence-IsCodec,
  FitsSequence,
}
use amarian_amr.Primitives.Amount.{is_valid_amount, valid_amount-IsI64}
use amarian_amr.Primitives.OutPoint
use amarian_amr.Primitives.OutPoint.{OutPoint, outpoint-IsCodec}
use amarian_amr.Primitives.Lock
use amarian_amr.Primitives.Lock.{lock-IsCodec}
use amarian_amr.Primitives.Witness
use amarian_amr.Primitives.Witness.{Witness, witness-IsCodec}
use amarian_amr.Primitives.Transaction.{
  TxLimits, TxInput, TxOutput, Transaction, is_coinbase, is_coinbase_inputs, serialize_input,
  deserialize_input, serialize_output, deserialize_output, serialize_without_witnesses,
  serialize_tail, serialize, deserialize_base, deserialize_coinbase_data, deserialize_witnesses,
  deserialize_tail, deserialize, input_serialized_size, output_min_serialized_size,
  min_serialized_size,
}

abbrev pub FitsInput : TxInput → Type 0
FitsInput i = OutPoint.Fits i.outpoint × (i.sequence < 256 ^ 4)

abbrev pub FitsOutput : ℕ → TxOutput → Type 0
FitsOutput max o = (is_valid_amount o.amount ≡ true) × Lock.Fits max o.lock

pub input-IsCodec : IsCodec deserialize_input serialize_input FitsInput
unfolding serialize_input deserialize_input write_u32
input-IsCodec = record {
  reads = λ i h.
      Reads-bind _ (outpoint-IsCodec.reads i.outpoint h.0)
        (Reads-map _ ((integer-IsCodec 4).reads i.sequence h.1));
  parses =
      Parses-bind outpoint-IsCodec.parses
        λ o u q. Parses-map _ (integer-IsCodec 4).parses λ s w r. (ap₂ ◌++◌ q.0 r.0, (q.1, r.1));
  sticky =
      bind-Sticky _ outpoint-IsCodec.sticky
        λ o. bind-Marks _ (integer-IsCodec 4).sticky.marks λ s. return-Marks _;
}

pub output-IsCodec : (max : ℕ) → IsCodec (deserialize_output max) serialize_output (FitsOutput max)
unfolding serialize_output deserialize_output
output-IsCodec max = record {
  reads = λ o h. Reads-bind _ (IsI64-IsCodec.reads o.amount (valid_amount-IsI64 o.amount h.0)) (
      subst (Reads _ o) (append-nil (Lock.serialize o.lock)) (
        Reads-bind _ ((lock-IsCodec max).reads o.lock h.1)
          (Reads-require _ _ h.0 (return-Reads o))));
  parses = Parses-bind IsI64-IsCodec.parses λ a u q. Parses-bind (lock-IsCodec max).parses λ l w r.
      Parses-require (is_valid_amount a) _
        λ valid. return-Parses _ _ (ap₂ ◌++◌ q.0 (append-nil w ∙ r.0), (valid, r.1));
  sticky = bind-Sticky _ IsI64-IsCodec.sticky λ a.
      bind-Marks _ (lock-IsCodec max).sticky.marks
        λ l. bind-Marks _ (require-Marks _) λ _. return-Marks _;
}

pub length-serialize_input-le :
    (i : TxInput) → FitsInput i → input_serialized_size ≤ length (serialize_input i)
unfolding serialize_input write_u32
length-serialize_input-le i h = omega (
  arith,
  length-append (OutPoint.serialize i.outpoint) (write_u32 i.sequence),
  OutPoint.length-serialize i.outpoint h.0,
  length-le_bytes 4 i.sequence,
)

pub length-serialize_output-le :
    (o : TxOutput) → output_min_serialized_size ≤ length (serialize_output o)
unfolding serialize_output write_i64 write_u64
length-serialize_output-le o = omega (
  arith,
  length-append (write_i64 o.amount) (Lock.serialize o.lock),
  length-le_bytes 8 (to_u64 o.amount),
  Lock.length-serialize-le o.lock,
)

module _ (l : TxLimits) where
  abbrev pub FitsInputs : List TxInput → Type 0
  FitsInputs = FitsSequence l.max_inputs FitsInput

  abbrev pub FitsOutputs : List TxOutput → Type 0
  FitsOutputs = FitsSequence l.max_outputs (FitsOutput l.max_lock_program_size)

  inputs-IsCodec :
      IsCodec
        (read_sequence l.max_inputs input_serialized_size deserialize_input)
        (write_sequence serialize_input)
        FitsInputs
  inputs-IsCodec =
      sequence-IsCodec input-IsCodec l.max_inputs input_serialized_size (omega arith)
        length-serialize_input-le

  pub outputs-IsCodec :
      IsCodec
        (read_sequence l.max_outputs output_min_serialized_size
          (deserialize_output l.max_lock_program_size))
        (write_sequence serialize_output)
        FitsOutputs
  outputs-IsCodec =
      sequence-IsCodec (output-IsCodec l.max_lock_program_size) l.max_outputs
        output_min_serialized_size (omega arith) (λ o h. length-serialize_output-le o)

  witnesses-IsCodec :
      IsCodec
        (read_sequence l.max_witnesses Witness.min_serialized_size (Witness.deserialize l.witness))
        (write_sequence Witness.serialize)
        (FitsSequence l.max_witnesses (Witness.Fits l.witness))
  witnesses-IsCodec =
      sequence-IsCodec (witness-IsCodec l.witness) l.max_witnesses Witness.min_serialized_size
        (omega arith) (λ w h. Witness.length-serialize-le w)

  -- The part that both kinds of transaction have, with nothing behind it.
  abbrev pub FitsBase : Transaction → Type 0
  FitsBase tx =
      (tx.version < 256 ^ 4)
      × FitsInputs tx.inputs
      × FitsOutputs tx.outputs
      × (tx.locktime < 256 ^ 4)

  -- A coinbase carries data and no witnesses, any other transaction witnesses and no data.
  abbrev pub FitsTail : Bool → Transaction → Type 0
  FitsTail true tx = FitsBytes l.max_coinbase_data_size tx.coinbase_data × (tx.witnesses ≡ [])
  FitsTail false tx =
      FitsSequence l.max_witnesses (Witness.Fits l.witness) tx.witnesses × (tx.coinbase_data ≡ [])

  abbrev pub Fits : Transaction → Type 0
  Fits tx = FitsBase tx × FitsTail (is_coinbase tx) tx

  bare : Transaction → Transaction
  bare tx = record tx { witnesses = []; coinbase_data = [] }

  base-Reads :
      (tx : Transaction)
      → FitsBase tx
      → Reads (deserialize_base l) (bare tx) (serialize_without_witnesses tx)
  unfolding bare deserialize_base serialize_without_witnesses write_u32
  base-Reads tx h = Reads-bind _ ((integer-IsCodec 4).reads tx.version h.0) (
      Reads-bind _ (inputs-IsCodec.reads tx.inputs h.1) (
        Reads-bind _ (outputs-IsCodec.reads tx.outputs h.2)
          (Reads-map _ ((integer-IsCodec 4).reads tx.locktime h.3))))

  base-Parses : Parses (deserialize_base l) (λ tx used.
      (used ≡ serialize_without_witnesses tx)
      × FitsBase tx
      × (tx.witnesses ≡ [])
      × (tx.coinbase_data ≡ []))
  unfolding deserialize_base serialize_without_witnesses write_u32
  base-Parses = Parses-bind (integer-IsCodec 4).parses λ v u q.
      Parses-bind inputs-IsCodec.parses λ is u' q'. Parses-bind outputs-IsCodec.parses λ os u'' q''.
        Parses-map _ (integer-IsCodec 4).parses λ t w r.
          (ap₂ ◌++◌ q.0 (ap₂ ◌++◌ q'.0 (ap₂ ◌++◌ q''.0 r.0)), (q.1, q'.1, q''.1, r.1), refl, refl)

  tail-Reads :
      (tx : Transaction)
      → FitsTail (is_coinbase tx) tx
      → Reads (deserialize_tail l (bare tx)) tx (serialize_tail tx)
  unfolding deserialize_tail serialize_tail is_coinbase bare deserialize_coinbase_data
      deserialize_witnesses
  tail-Reads tx h = elim (Bool-cases (is_coinbase_inputs tx.inputs)) [
    | inl e ↦
        let (fits, bare_eq) = rw e at h in
        rw e (
          subst
            (λ x.
              Reads (deserialize_coinbase_data l (bare tx)) x (write_byte_string tx.coinbase_data))
            (λ i. record tx { witnesses = sym bare_eq i })
            (Reads-map (λ d. record (bare tx) { coinbase_data = d })
              ((byte_string-IsCodec l.max_coinbase_data_size).reads tx.coinbase_data fits)))
    | inr e ↦
        let (fits, bare_eq) = rw e at h in
        rw e (
          subst
            (λ x.
              Reads (deserialize_witnesses l (bare tx)) x
                (write_sequence Witness.serialize tx.witnesses))
            (λ i. record tx { coinbase_data = sym bare_eq i })
            (Reads-map (λ ws. record (bare tx) { witnesses = ws })
              (witnesses-IsCodec.reads tx.witnesses fits)))
  ]

  tail-Parses :
      (tx : Transaction)
      → tx.witnesses ≡ []
      → tx.coinbase_data ≡ []
      → Parses (deserialize_tail l tx) (λ tx' used.
        (used ≡ serialize_tail tx') × FitsTail (is_coinbase tx') tx' × (bare tx' ≡ tx))
  unfolding deserialize_tail serialize_tail is_coinbase bare deserialize_coinbase_data
      deserialize_witnesses
  tail-Parses tx h k = elim (Bool-cases (is_coinbase_inputs tx.inputs)) [
    | inl e ↦ rw e (
        Parses-map _ (byte_string-IsCodec l.max_coinbase_data_size).parses λ d u q. (
          rw e q.0,
          rw e (q.1, h),
          λ i. record tx { witnesses = sym h i; coinbase_data = sym k i },
        ))
    | inr e ↦ rw e (
        Parses-map _ witnesses-IsCodec.parses λ ws u q. (
          rw e q.0,
          rw e (q.1, k),
          λ i. record tx { witnesses = sym h i; coinbase_data = sym k i },
        ))
  ]

  tail-Marks : (tx : Transaction) → Marks (deserialize_tail l tx)
  unfolding deserialize_tail deserialize_coinbase_data deserialize_witnesses
  tail-Marks tx = elim (Bool-cases (is_coinbase tx)) [
    | inl e ↦ rw e (
        bind-Marks _ (byte_string-IsCodec l.max_coinbase_data_size).sticky.marks
          λ d. return-Marks _)
    | inr e ↦ rw e (bind-Marks _ witnesses-IsCodec.sticky.marks λ ws. return-Marks _)
  ]

  base-Sticky : Sticky (deserialize_base l)
  unfolding deserialize_base
  base-Sticky = bind-Sticky _ (integer-IsCodec 4).sticky λ v.
      bind-Marks _ inputs-IsCodec.sticky.marks λ is.
        bind-Marks _ outputs-IsCodec.sticky.marks
          λ os. bind-Marks _ (integer-IsCodec 4).sticky.marks λ t. return-Marks _

  base_of_bare :
      (tx tx' : Transaction)
      → bare tx' ≡ tx
      → (serialize_without_witnesses tx ≡ serialize_without_witnesses tx')
        × (FitsBase tx → FitsBase tx')
  unfolding bare serialize_without_witnesses
  base_of_bare tx tx' e = (ap serialize_without_witnesses (sym e), λ f. subst FitsBase (sym e) f)

  -- A transaction that fits its limits is read back whole; an accepted one fits them and was written
  -- in its one form, a coinbase with no witnesses and a spend with no coinbase data.
  pub transaction-IsCodec : IsCodec (deserialize l) serialize Fits
  unfolding deserialize serialize
  transaction-IsCodec = record {
    reads = λ tx h. Reads-bind _ (base-Reads tx h.0) (tail-Reads tx h.1);
    parses = Parses-bind base-Parses λ tx u q. Parses-weaken (tail-Parses tx q.2 q.3) λ tx' w r.
        let (same, carry) = base_of_bare tx tx' r.2 in
        (ap₂ ◌++◌ (q.0 ∙ same) r.0, (carry q.1, r.1));
    sticky = bind-Sticky _ base-Sticky tail-Marks;
  }

-- No transaction is shorter than the bound by which a block's count is checked.
pub length-serialize-le : (tx : Transaction) → min_serialized_size ≤ length (serialize tx)
unfolding serialize serialize_without_witnesses serialize_tail write_u32 write_sequence
length-serialize-le tx = ground (
  arith,
  length-append (serialize_without_witnesses tx) (serialize_tail tx),
  length-append (write_u32 tx.version) (
      write_sequence serialize_input tx.inputs
      ++ (write_sequence serialize_output tx.outputs ++ write_u32 tx.locktime)),
  length-append (write_sequence serialize_input tx.inputs)
      (write_sequence serialize_output tx.outputs ++ write_u32 tx.locktime),
  length-append (write_sequence serialize_output tx.outputs) (write_u32 tx.locktime),
  length-le_bytes 4 tx.version,
  length-le_bytes 4 tx.locktime,
  length-write_sequence-le serialize_input tx.inputs,
  length-write_sequence-le serialize_output tx.outputs,
  length-write_sequence-le Witness.serialize tx.witnesses,
  length-write_byte_string-le tx.coinbase_data,
)
