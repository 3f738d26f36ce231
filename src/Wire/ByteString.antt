-- ===== src/Wire/ByteString.antt =====
-- Byte strings: `ReadByteString` against `WriteByteString`.
use amarian_amr.Base.{
  ℕ, ◌≤◌, ◌≡◌, refl, false, not, inl, inr, some, List, [], ◌++◌, append_assoc, arith, Bool-cases,
  ltb, length, length-append, nat_eq,
}
use amarian_amr.Base.Bytes.{AllBytes}
use amarian_amr.Wire.{
  at, read_byte_string, write_compact_size, write_byte_string, try_narrow, narrowed, size_max,
}
use amarian_amr.Wire.Rules.{
  Reads, Parses, Parses-bind, Parses-require, Parses-weaken, return-Parses,
}
use amarian_amr.Wire.Integers.{consume-Reads, consume-Parses}
use amarian_amr.Wire.CompactSize.{read_compact_size_run, read_compact_size-Parses}

pub narrowed-Parses :
    (v : ℕ) → Parses (narrowed (try_narrow v)) (λ n used. (used ≡ []) × (n ≡ v) × (v ≤ size_max))
unfolding try_narrow
narrowed-Parses v = elim (Bool-cases (ltb size_max v)) [
  | inl over ↦ rw over (record { run = λ bytes a r h e. cc })
  | inr fits ↦ rw fits (return-Parses v _ (refl, refl, ground arith))
]

pub read_byte_string-Reads :
    (max_len : ℕ) (bytes : List ℕ)
    → length bytes ≤ max_len
    → length bytes ≤ size_max
    → Reads (read_byte_string max_len) bytes (write_byte_string bytes)
unfolding read_byte_string write_byte_string try_narrow
read_byte_string-Reads max_len bytes fits h = record { run = go }
  where
    go :
        (rest : List ℕ)
        → read_byte_string max_len (at ((write_compact_size (length bytes) ++ bytes) ++ rest))
          ≡ (some bytes, at rest)
    go rest =
        rw
          (
            append_assoc (write_compact_size (length bytes)) bytes rest,
            read_compact_size_run 1 (length bytes) (bytes ++ rest) (omega arith) (omega arith)
                (omega (arith, length-append bytes rest)),
            within,
            narrow,
          )
          ((consume-Reads bytes).run rest)
      where
        within : ltb max_len (length bytes) ≡ false
        within = ground arith

        narrow : ltb size_max (length bytes) ≡ false
        narrow = ground arith

pub read_byte_string-Parses :
    (max_len : ℕ)
    → Parses (read_byte_string max_len) (λ bytes used.
      (used ≡ write_byte_string bytes)
      × (length bytes ≤ max_len)
      × (length bytes ≤ size_max)
      × AllBytes bytes)
unfolding read_byte_string write_byte_string
read_byte_string-Parses max_len = Parses-bind (read_compact_size-Parses 1) λ len u q.
    Parses-require (not (ltb max_len len)) _ λ within.
      Parses-bind (narrowed-Parses len) λ count v r.
        Parses-weaken (consume-Parses count) λ bytes w s.
          (ground (arith, q.0, r.0, s.0, r.1, s.1), ground arith, omega (arith, r.1, s.1), s.2)
