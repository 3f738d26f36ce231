-- ===== src/Wire/Failure.antt =====
-- Failure is sticky: once a read fails, the reader fails every later one.
use amarian_amr.Base.{
  ℕ, zero, suc, ◌≤◌, ◌≡◌, List, [], arith, inl, inr, ltb, Bool-cases, ◌==◌, nat_eq, length,
  length-append, concat_map,
}
use amarian_amr.Base.Bytes.{le_bytes, length-le_bytes}
use amarian_amr.Wire.{
  Read, consume, read_le, read_i64, read_wide, read_tagged, bounded, read_compact_size,
  read_byte_string, try_narrow, narrowed, read_count, read_many, read_sequence, write_compact_size,
  write_sequence, compact_size_len, write_u8, write_u16, write_u32, write_u64, write_byte_string,
}
use amarian_amr.Wire.Rules.{
  Marks, Sticky, return-Marks, bind-Marks, bind-Sticky, require-Marks, require-Sticky,
}

pub consume-Sticky : (n : ℕ) → Sticky (consume n)
unfolding consume
consume-Sticky n = record {
  marks = record { run = λ r h. ground arith };
  stays = λ r h. ground arith;
}

pub read_le-Sticky : (n : ℕ) → Sticky (read_le n)
unfolding read_le
read_le-Sticky n = bind-Sticky _ (consume-Sticky n) (λ raw. return-Marks _)

pub read_i64-Sticky : Sticky read_i64
unfolding read_i64
read_i64-Sticky = bind-Sticky _ (read_le-Sticky 8) (λ raw. return-Marks _)

read_wide-Marks : (width least : ℕ) → Marks (read_wide width least)
unfolding read_wide
read_wide-Marks width least =
    bind-Marks _ (read_le-Sticky width).marks
      (λ wide. bind-Marks _ (require-Marks _) (λ _. return-Marks _))

read_tagged-Marks : (tag : ℕ) → Marks (read_tagged tag)
unfolding read_tagged
read_tagged-Marks tag = elim (Bool-cases (ltb tag 0xfd)) [
  | inl one ↦ rw one (return-Marks tag)
  | inr more ↦ elim (Bool-cases (tag == 0xfd)) [
    | inl two ↦ rw (more, two) (read_wide-Marks _ _)
    | inr more' ↦ elim (Bool-cases (tag == 0xfe)) [
      | inl four ↦ rw (more, more', four) (read_wide-Marks _ _)
      | inr eight ↦ rw (more, more', eight) (read_wide-Marks _ _)
    ]
  ]
]

bounded-Marks : (min v : ℕ) → Marks (bounded min v)
unfolding bounded
bounded-Marks min v = record { run = λ r h. ground arith }

narrowed-Marks : (v : ℕ) → Marks (narrowed (try_narrow v))
unfolding try_narrow
narrowed-Marks v = record { run = λ r h. ground arith }

pub read_compact_size-Sticky : (min : ℕ) → Sticky (read_compact_size min)
unfolding read_compact_size
read_compact_size-Sticky min = require-Sticky _ (
    bind-Sticky _ (read_le-Sticky 1)
      (λ tag. bind-Marks _ (read_tagged-Marks tag) (λ v. bounded-Marks min v)))

pub read_byte_string-Sticky : (max : ℕ) → Sticky (read_byte_string max)
unfolding read_byte_string
read_byte_string-Sticky max = bind-Sticky _ (read_compact_size-Sticky 1) (λ len.
    bind-Marks _ (require-Marks _)
      (λ _. bind-Marks _ (narrowed-Marks len) (λ count. (consume-Sticky count).marks)))

module _ {A : Type 0} {read : Read A} (each : Marks read) where
  read_many-Marks : (n : ℕ) → Marks (read_many n read)
  unfolding read_many
  read_many-Marks zero = return-Marks []
  read_many-Marks (suc n) =
      bind-Marks _ each (λ x. bind-Marks _ (read_many-Marks n) (λ xs. return-Marks _))

  pub read_sequence-Sticky : (max min : ℕ) → Sticky (read_sequence max min read)
  unfolding read_sequence read_count
  read_sequence-Sticky max min = bind-Sticky _ counted (λ count. read_many-Marks count)
    where
      counted : Sticky (read_count max min)
      counted =
          bind-Sticky _ (read_compact_size-Sticky min)
            (λ n. bind-Marks _ (require-Marks _) (λ _. narrowed-Marks n))

-- A count takes the bytes that `CompactSizeLen` says.
pub length-write_compact_size : (v : ℕ) → length (write_compact_size v) ≡ compact_size_len v
unfolding write_compact_size compact_size_len write_u8 write_u16 write_u32 write_u64
length-write_compact_size v = ground (
  arith,
  length-le_bytes 1 v,
  length-le_bytes 2 v,
  length-le_bytes 4 v,
  length-le_bytes 8 v,
  length-le_bytes 1 0xfd,
  length-le_bytes 1 0xfe,
  length-le_bytes 1 0xff,
  length-append (le_bytes 1 0xfd) (le_bytes 2 v),
  length-append (le_bytes 1 0xfe) (le_bytes 4 v),
  length-append (le_bytes 1 0xff) (le_bytes 8 v),
)

pub compact_size_len_pos : (v : ℕ) → 1 ≤ compact_size_len v
unfolding compact_size_len
compact_size_len_pos v = ground arith

pub length-write_byte_string-le : (bytes : List ℕ) → 1 ≤ length (write_byte_string bytes)
unfolding write_byte_string
length-write_byte_string-le bytes = omega (
  arith,
  length-append (write_compact_size (length bytes)) bytes,
  length-write_compact_size (length bytes),
  compact_size_len_pos (length bytes),
)

pub length-write_sequence-le :
    {A : Type 0} (write : A → List ℕ) (xs : List A) → 1 ≤ length (write_sequence write xs)
unfolding write_sequence
length-write_sequence-le write xs = omega (
  arith,
  length-append (write_compact_size (length xs)) (concat_map write xs),
  length-write_compact_size (length xs),
  compact_size_len_pos (length xs),
)
