-- ===== src/Wire/Sequences.antt =====
-- Vectors: a bounded count and the elements behind it.
use amarian_amr.Base.{
  ℕ, zero, suc, ◌≤◌, ◌<◌, ◌≡◌, refl, ap, ap₂, sym, ◌∙◌, false, not, some, List, [], ◌∷◌, ◌++◌,
  append-nil, append_assoc, arith, ltb, length, length-append, concat_map, length-concat_map_le,
  All,
}
use amarian_amr.Wire.{
  Read, at, read_many, read_count, read_sequence, write_sequence, write_compact_size, try_narrow,
  size_max,
}
use amarian_amr.Wire.Rules.{
  Reads, Reads-bind, Reads-map, return-Reads, Parses, Parses-bind, Parses-map, Parses-require,
  Parses-weaken, return-Parses,
}
use amarian_amr.Wire.CompactSize.{read_compact_size_run, read_compact_size-Parses}
use amarian_amr.Wire.ByteString.{narrowed-Parses}

module _ {A : Type 0} (read : Read A) (write : A → List ℕ) where
  read_many-Reads :
      (xs : List A)
      → All (λ x. Reads read x (write x)) xs
      → Reads (read_many (length xs) read) xs (concat_map write xs)
  unfolding read_many
  read_many-Reads [] h = return-Reads []
  read_many-Reads (x ∷ xs) h = Reads-bind _ h.0 (Reads-map (◌∷◌ x) (read_many-Reads xs h.1))

  -- Enough bytes follow the count, since no element is shorter than `min_element_bytes`.
  pub read_sequence-Reads :
      (max min_element_bytes : ℕ) (xs : List A)
      → 0 < min_element_bytes
      → length xs ≤ max
      → length xs ≤ size_max
      → All (λ x. Reads read x (write x)) xs
      → All (λ x. min_element_bytes ≤ length (write x)) xs
      → Reads (read_sequence max min_element_bytes read) xs (write_sequence write xs)
  unfolding read_sequence write_sequence read_count try_narrow
  read_sequence-Reads max min xs pos fits small each wide = record { run = go }
    where
      within : ltb max (length xs) ≡ false
      within = ground arith

      narrow : ltb size_max (length xs) ≡ false
      narrow = ground arith

      go :
          (rest : List ℕ)
          → read_sequence max min read (at (write_sequence write xs ++ rest)) ≡ (some xs, at rest)
      go rest =
          rw
            (
              append_assoc (write_compact_size (length xs)) (concat_map write xs) rest,
              read_compact_size_run min (length xs) (concat_map write xs ++ rest) pos (omega arith)
                  (omega (
                    arith,
                    length-append (concat_map write xs) rest,
                    length-concat_map_le write min xs wide,
                  )),
              within,
              narrow,
            )
            ((read_many-Reads xs each).run rest)

  module _ (P : A → Type 0) (each : Parses read (λ x used. (used ≡ write x) × P x)) where
    read_many-Parses :
        (n : ℕ)
        → Parses
            (read_many n read)
            (λ xs used. (used ≡ concat_map write xs) × (length xs ≡ n) × All P xs)
    unfolding read_many
    read_many-Parses zero = return-Parses [] _ (refl, refl, tt)
    read_many-Parses (suc n) = Parses-bind each λ x u q.
        Parses-map (◌∷◌ x) (read_many-Parses n) λ xs v r. (ap₂ ◌++◌ q.0 r.0, ap suc r.1, (q.1, r.2))

    pub read_sequence-Parses :
        (max min_element_bytes : ℕ)
        → Parses (read_sequence max min_element_bytes read) (λ xs used.
          (used ≡ write_sequence write xs) × (length xs ≤ max) × (length xs ≤ size_max) × All P xs)
    unfolding read_sequence read_count write_sequence
    read_sequence-Parses max min = Parses-bind counted λ count u q.
        Parses-weaken (read_many-Parses count) λ xs v r. (
          ap₂ ◌++◌ (q.0 ∙ ap write_compact_size (sym r.1)) r.0,
          omega (arith, q.1, r.1),
          omega (arith, q.2, r.1),
          r.2,
        )
      where
        counted :
            Parses
              (read_count max min)
              (λ n used. (used ≡ write_compact_size n) × (n ≤ max) × (n ≤ size_max))
        counted = Parses-bind (read_compact_size-Parses min) λ n u q.
            Parses-require (not (ltb max n)) _ λ within. Parses-weaken (narrowed-Parses n) λ m v r.
              (
                ground (arith, q.0, r.0, r.1, append-nil (write_compact_size n)),
                ground arith,
                omega (arith, r.1, r.2),
              )
