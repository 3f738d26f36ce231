-- ===== src/Wire/Codec.antt =====
-- What a `Serialize` and a `Deserialize` owe each other, as an interface, and the codecs that the
-- wire format is built from.
use amarian_amr.Base.{ℕ, ◌^◌, ◌≤◌, ◌<◌, ◌≡◌, ap, subst, some, List, [], ◌∷◌, ◌++◌, length, All}
use amarian_amr.Base.Bytes.{AllBytes, le_bytes}
use amarian_amr.Wire.{
  Reader, at, Read, consume, read_le, read_i64, write_i64, read_byte_string, write_byte_string,
  read_sequence, write_sequence, size_max,
}
use amarian_amr.Wire.Rules.{Reads, Parses, Parses-weaken, Sticky}
use amarian_amr.Wire.Integers.{
  consume-Reads, consume-Parses, read_le-Reads, read_le-Parses, IsI64, read_i64-Reads,
  read_i64-Parses,
}
use amarian_amr.Wire.ByteString.{read_byte_string-Reads, read_byte_string-Parses}
use amarian_amr.Wire.Sequences.{read_sequence-Reads, read_sequence-Parses}
use amarian_amr.Wire.Failure.{
  consume-Sticky, read_le-Sticky, read_i64-Sticky, read_byte_string-Sticky, read_sequence-Sticky,
}

-- On the values that fit, the reader undoes the writer and leaves what follows; whatever the reader
-- accepts fits, and is the writer's own bytes; and a failure is sticky.
pub record IsCodec {A : Type 0} (read : Read A) (write : A → List ℕ) (Fits : A → Type 0)
    : Type 0 where
  pub reads : (x : A) → Fits x → Reads read x (write x)
  pub parses : Parses read (λ x used. (used ≡ write x) × Fits x)
  pub sticky : Sticky read

pub integer-IsCodec : (width : ℕ) → IsCodec (read_le width) (le_bytes width) (λ v. v < 256 ^ width)
integer-IsCodec width = record {
  reads = read_le-Reads width;
  parses = read_le-Parses width;
  sticky = read_le-Sticky width;
}

pub IsI64-IsCodec : IsCodec read_i64 write_i64 IsI64
IsI64-IsCodec = record {
  reads = read_i64-Reads;
  parses = read_i64-Parses;
  sticky = read_i64-Sticky;
}

pub raw-IsCodec :
    (n : ℕ) → IsCodec (consume n) (λ bytes. bytes) (λ bytes. (length bytes ≡ n) × AllBytes bytes)
raw-IsCodec n = record {
  reads = λ bytes h. subst (λ k. Reads (consume k) bytes bytes) h.0 (consume-Reads bytes);
  parses = Parses-weaken (consume-Parses n) (λ bytes used q. (q.0, (q.1, q.2)));
  sticky = consume-Sticky n;
}

abbrev pub FitsBytes : ℕ → List ℕ → Type 0
FitsBytes max bytes = (length bytes ≤ max) × (length bytes ≤ size_max) × AllBytes bytes

pub byte_string-IsCodec :
    (max : ℕ) → IsCodec (read_byte_string max) write_byte_string (FitsBytes max)
byte_string-IsCodec max = record {
  reads = λ bytes h. read_byte_string-Reads max bytes h.0 h.1;
  parses = Parses-weaken (read_byte_string-Parses max) (λ bytes used q. (q.0, (q.1, q.2, q.3)));
  sticky = read_byte_string-Sticky max;
}

abbrev pub FitsSequence : {A : Type 0} → ℕ → (A → Type 0) → List A → Type 0
FitsSequence max P xs = (length xs ≤ max) × (length xs ≤ size_max) × All P xs

module _ {A : Type 0} {read : Read A} {write : A → List ℕ} {Fits : A → Type 0} where
  All-Reads :
      IsCodec read write Fits → (xs : List A) → All Fits xs → All (λ x. Reads read x (write x)) xs
  All-Reads c [] h = tt
  All-Reads c (x ∷ xs) h = (c.reads x h.0, All-Reads c xs h.1)

  All-wide :
      IsCodec read write Fits
      → (m : ℕ) → ((x : A) → Fits x → m ≤ length (write x))
      → (xs : List A) → All Fits xs
      → All (λ x. m ≤ length (write x)) xs
  All-wide c m h [] f = tt
  All-wide c m h (x ∷ xs) f = (h x f.0, All-wide c m h xs f.1)

  pub sequence-IsCodec :
      IsCodec read write Fits
      → (max min_element_bytes : ℕ) → 0 < min_element_bytes
      → ((x : A) → Fits x → min_element_bytes ≤ length (write x))
      → IsCodec
          (read_sequence max min_element_bytes read)
          (write_sequence write)
          (FitsSequence max Fits)
  sequence-IsCodec c max min pos wide = record {
    reads = λ xs h.
        read_sequence-Reads read write max min xs pos h.0 h.1 (All-Reads c xs h.2)
          (All-wide c min wide xs h.2);
    parses =
        Parses-weaken (read_sequence-Parses read write Fits c.parses max min)
          (λ xs used q. (q.0, (q.1, q.2, q.3)));
    sticky = read_sequence-Sticky c.sticky.marks max min;
  }

module _ {A : Type 0} {read : Read A} {write : A → List ℕ} {Fits : A → Type 0}
    (c : IsCodec read write Fits) where
  pub IsCodec-round_trip :
      (x : A) (rest : List ℕ) → Fits x → read (at (write x ++ rest)) ≡ (some x, at rest)
  IsCodec-round_trip x rest h = (c.reads x h).run rest

  pub IsCodec-canonical :
      (bytes : List ℕ) (x : A) (after : Reader)
      → AllBytes bytes
      → read (at bytes) ≡ (some x, after)
      → (rest : List ℕ) × (after ≡ at rest) × (bytes ≡ write x ++ rest) × Fits x
  IsCodec-canonical bytes x after h e =
      let (used, rest, r, split, later, (made, fits)) = c.parses.run bytes x after h e in
      (rest, r, subst (λ z. bytes ≡ z ++ rest) made split, fits)

  -- What is read back is written in no second way.
  pub IsCodec-inj : (x y : A) → Fits x → Fits y → write x ≡ write y → x ≡ y
  IsCodec-inj x y h k e =
      let first = IsCodec-round_trip x [] h in
      let second = IsCodec-round_trip y [] k in
      let moved : read (at (write x ++ [])) ≡ read (at (write y ++ [])) =
        ap (λ w. read (at (w ++ []))) e in
      cc (first, second, moved)
