-- ===== src/Primitives/Transaction/Columns.antt =====
-- The outpoints and the sequences of a transaction's inputs, written one list each: src/primitives/sighash.cpp.
use amarian_amr.Base.{
  ℕ, suc, ◌^◌, ◌<◌, ◌≡◌, refl, sym, ap, ap₂, ◌∙◌, List, [], ◌∷◌, ◌++◌, map, length, All, arith,
  concat_map,
}
use amarian_amr.Base.Bytes.{length-le_bytes}
use amarian_amr.Wire.{write_u32, write_sequence, write_compact_size}
use amarian_amr.Wire.Codec.{IsCodec-inj, integer-IsCodec, sequence-IsCodec, FitsSequence}
use amarian_amr.Primitives.OutPoint
use amarian_amr.Primitives.OutPoint.{outpoint-IsCodec}
use amarian_amr.Primitives.Transaction.{TxLimits, TxInput}
use amarian_amr.Primitives.Transaction.Codec.{FitsInput, FitsInputs}

module _ {A B : Type 0} (f : B → List ℕ) (g : A → B) where
  concat_map-map : (xs : List A) → concat_map (λ x. f (g x)) xs ≡ concat_map f (map g xs)
  concat_map-map [] = refl
  concat_map-map (x ∷ xs) = ap (λ w. f (g x) ++ w) (concat_map-map xs)

  length-map : (xs : List A) → length (map g xs) ≡ length xs
  length-map [] = refl
  length-map (x ∷ xs) = ap suc (length-map xs)

  pub write_sequence-map :
      (xs : List A) → write_sequence (λ x. f (g x)) xs ≡ write_sequence f (map g xs)
  unfolding write_sequence
  write_sequence-map xs =
      ap₂ (λ n w. write_compact_size n ++ w) (sym (length-map xs)) (concat_map-map xs)

  All-map :
      (P : A → Type 0) (Q : B → Type 0)
      → ((x : A) → P x → Q (g x))
      → (xs : List A) → All P xs
      → All Q (map g xs)
  All-map P Q h [] k = tt
  All-map P Q h (x ∷ xs) k = (h x k.0, All-map P Q h xs k.1)

  FitsSequence-map :
      (P : A → Type 0) (Q : B → Type 0) (max : ℕ)
      → ((x : A) → P x → Q (g x))
      → (xs : List A) → FitsSequence max P xs
      → FitsSequence max Q (map g xs)
  FitsSequence-map P Q max h xs k =
      (omega (arith, length-map xs, k.0), omega (arith, length-map xs, k.1), All-map P Q h xs k.2)

-- Inputs are known by their outpoints and their sequences.
pub inputs_eq :
    (xs ys : List TxInput)
    → map (λ (i : TxInput). i.outpoint) xs ≡ map (λ (i : TxInput). i.outpoint) ys
    → map (λ (i : TxInput). i.sequence) xs ≡ map (λ (i : TxInput). i.sequence) ys
    → xs ≡ ys
inputs_eq [] [] p q = refl
inputs_eq [] (y ∷ ys) p q = absurd (cc (p))
inputs_eq (x ∷ xs) [] p q = absurd (cc (p))
inputs_eq (x ∷ xs) (y ∷ ys) p q =
    let same : x.outpoint ≡ y.outpoint = cc (p) in
    let also : x.sequence ≡ y.sequence = cc (q) in
    let rest = inputs_eq xs ys (cc (p)) (cc (q)) in
    ap₂ (λ o n. record { outpoint = o; sequence = n } ∷ xs) same also ∙ ap (λ z. y ∷ z) rest

module _ (l : TxLimits) where
  pub outpoints-inj :
      (xs ys : List TxInput)
      → FitsInputs l xs
      → FitsInputs l ys
      → write_sequence OutPoint.serialize (map (λ (i : TxInput). i.outpoint) xs)
        ≡ write_sequence OutPoint.serialize (map (λ (i : TxInput). i.outpoint) ys)
      → map (λ (i : TxInput). i.outpoint) xs ≡ map (λ (i : TxInput). i.outpoint) ys
  outpoints-inj xs ys h k =
      IsCodec-inj
        (sequence-IsCodec outpoint-IsCodec l.max_inputs OutPoint.serialized_size (omega arith)
          (λ o f. omega (arith, OutPoint.length-serialize o f)))
        _ _ (fits xs h) (fits ys k)
    where
      fits :
          (zs : List TxInput)
          → FitsInputs l zs
          → FitsSequence l.max_inputs OutPoint.Fits (map (λ (i : TxInput). i.outpoint) zs)
      fits =
          FitsSequence-map OutPoint.serialize (λ (i : TxInput). i.outpoint) FitsInput OutPoint.Fits
            l.max_inputs (λ i f. f.0)

  pub sequences-inj :
      (xs ys : List TxInput)
      → FitsInputs l xs
      → FitsInputs l ys
      → write_sequence write_u32 (map (λ (i : TxInput). i.sequence) xs)
        ≡ write_sequence write_u32 (map (λ (i : TxInput). i.sequence) ys)
      → map (λ (i : TxInput). i.sequence) xs ≡ map (λ (i : TxInput). i.sequence) ys
  unfolding write_u32
  sequences-inj xs ys h k =
      IsCodec-inj
        (sequence-IsCodec (integer-IsCodec 4) l.max_inputs 4 (omega arith)
          (λ v f. omega (arith, length-le_bytes 4 v)))
        _ _ (fits xs h) (fits ys k)
    where
      fits :
          (zs : List TxInput)
          → FitsInputs l zs
          → FitsSequence l.max_inputs (λ v. v < 256 ^ 4) (map (λ (i : TxInput). i.sequence) zs)
      fits =
          FitsSequence-map write_u32 (λ (i : TxInput). i.sequence) FitsInput (λ v. v < 256 ^ 4)
            l.max_inputs (λ i f. f.1)
