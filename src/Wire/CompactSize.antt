-- ===== src/Wire/CompactSize.antt =====
-- Counts: `ReadCompactSize` against `WriteCompactSize`.
use amarian_amr.Base.{
  ℕ, ◌+◌, ◌*◌, ◌/◌, ◌^◌, ◌≤◌, ◌<◌, ◌≡◌, refl, ap, ap₂, sym, subst, ◌∙◌, true, false, not, ◌⊎◌, inl,
  inr, some, List, [], ◌++◌, append-nil, arith, Bool-cases, ltb, leb, length, ◌==◌, nat_eq,
  nat_beq_iff,
}
use amarian_amr.Base.Bytes.{le_bytes}
use amarian_amr.Wire.{
  Read, at, and_then, ◌>>=◌, return, read_u8, read_wide, read_tagged, bounded, read_compact_size,
  write_u8, write_u16, write_u32, write_u64, write_compact_size,
}
use amarian_amr.Wire.Rules.{
  Reads, Reads-bind, Reads-require, Parses, Parses-bind, Parses-require, Parses-weaken,
  return-Reads, return-Parses, and_then_assoc,
}
use amarian_amr.Wire.Integers.{read_le-Reads, read_le-Parses}

-- A wide form starts at `least`.
read_wide-Reads :
    (width least v : ℕ)
    → least ≤ v
    → v < 256 ^ width
    → Reads (read_wide width least) v (le_bytes width v)
unfolding read_wide
read_wide-Reads width least v lo hi =
    subst (Reads (read_wide width least) v) (append-nil (le_bytes width v)) (
      Reads-bind _ (read_le-Reads width v hi)
        (Reads-require (not (ltb v least)) (return v) (ground arith) (return-Reads v)))

read_wide-Parses :
    (width least : ℕ)
    → Parses
        (read_wide width least)
        (λ v used. (used ≡ le_bytes width v) × (least ≤ v) × (v < 256 ^ width))
unfolding read_wide
read_wide-Parses width least = Parses-bind (read_le-Parses width) λ v u q.
    Parses-require (not (ltb v least)) (return v)
      λ long. return-Parses v _ (append-nil u ∙ q.0, ground arith, q.1)

-- The tag and the value behind it.
tagged : Read ℕ
tagged = read_u8 >>= read_tagged

tagged-Reads : (v : ℕ) → v < 2 ^ 64 → Reads tagged v (write_compact_size v)
unfolding tagged write_compact_size read_tagged write_u8 write_u16 write_u32 write_u64
tagged-Reads v h = elim (Bool-cases (ltb v 0xfd)) [
  | inl one ↦ rw one (
      subst (Reads _ v) (append-nil (le_bytes 1 v))
        (Reads-bind read_tagged (read_le-Reads 1 v (ground arith)) (rw one (return-Reads v))))
  | inr more ↦ elim (Bool-cases (leb v 0xffff)) [
    | inl two ↦
        rw (more, two)
          (Reads-bind read_tagged (read_le-Reads 1 0xfd (omega arith))
            (read_wide-Reads 2 0xfd v (ground arith) (ground arith)))
    | inr more' ↦ elim (Bool-cases (leb v 0xffff_ffff)) [
      | inl four ↦
          rw (more, more', four)
            (Reads-bind read_tagged (read_le-Reads 1 0xfe (omega arith))
              (read_wide-Reads 4 (0xffff + 1) v (ground arith) (ground arith)))
      | inr eight ↦
          rw (more, more', eight)
            (Reads-bind read_tagged (read_le-Reads 1 0xff (omega arith))
              (read_wide-Reads 8 (0xffff_ffff + 1) v (ground arith) (omega arith)))
    ]
  ]
]

-- The form behind a wide tag is the one that is written.
wide_form :
    (tag v : ℕ) (used : List ℕ)
    → (tag ≡ 0xfd) × (0xfd ≤ v) × (v < 256 ^ 2) × (used ≡ le_bytes 2 v)
      ⊎ (tag ≡ 0xfe) × (0xffff + 1 ≤ v) × (v < 256 ^ 4) × (used ≡ le_bytes 4 v)
      ⊎ (tag ≡ 0xff) × (0xffff_ffff + 1 ≤ v) × (v < 256 ^ 8) × (used ≡ le_bytes 8 v)
    → (le_bytes 1 tag ++ used ≡ write_compact_size v) × (v < 2 ^ 64)
unfolding write_compact_size write_u8 write_u16 write_u32 write_u64
wide_form tag v used h = ground arith

short_form : (v : ℕ) → ltb v 0xfd ≡ true → le_bytes 1 v ++ [] ≡ write_compact_size v
unfolding write_compact_size write_u8
short_form v h = rw h (append-nil (le_bytes 1 v))

read_tagged-Parses :
    (tag : ℕ)
    → tag < 256
    → Parses
        (read_tagged tag)
        (λ v used. (le_bytes 1 tag ++ used ≡ write_compact_size v) × (v < 2 ^ 64))
unfolding read_tagged
read_tagged-Parses tag h = elim (Bool-cases (ltb tag 0xfd)) [
  | inl one ↦ rw one (return-Parses tag _ (short_form tag one, ground arith))
  | inr more ↦ elim (Bool-cases (tag == 0xfd)) [
    | inl two ↦
        rw (more, two)
          (Parses-weaken (read_wide-Parses 2 0xfd)
            λ v u q. wide_form tag v u (inl ((nat_beq_iff tag 0xfd).0 two, q.1, q.2, q.0)))
    | inr more' ↦ elim (Bool-cases (tag == 0xfe)) [
      | inl four ↦
          rw (more, more', four)
            (Parses-weaken (read_wide-Parses 4 (0xffff + 1))
              λ v u q. wide_form tag v u (inr (inl ((nat_beq_iff tag 0xfe).0 four, q.1, q.2, q.0))))
      | inr eight ↦
          rw (more, more', eight)
            (Parses-weaken (read_wide-Parses 8 (0xffff_ffff + 1))
              λ v u q. wide_form tag v u (inr (inr (ground arith, q.1, q.2, q.0))))
    ]
  ]
]

-- The one form of each count that is accepted is the one that is written.
tagged-Parses : Parses tagged (λ v used. (used ≡ write_compact_size v) × (v < 2 ^ 64))
unfolding tagged
tagged-Parses =
    Parses-bind (read_le-Parses 1) λ tag u q.
      Parses-weaken (read_tagged-Parses tag q.1) λ v w r. (ap (λ x. x ++ w) q.0 ∙ r.0, r.1)

bounded_enough :
    (m v : ℕ) (rest : List ℕ)
    → 0 < m
    → v * m ≤ length rest
    → bounded m v (at rest) ≡ (some v, at rest)
unfolding bounded
bounded_enough m v rest hm room = ground (arith, v-le-div)
  where
    v-le-div : v ≤ length rest / m
    v-le-div = grind arith

bounded-Parses : (m v : ℕ) → Parses (bounded m v) (λ v' used. (used ≡ []) × (v' ≡ v))
unfolding bounded
bounded-Parses m v = record {
  run = λ bytes a r h e. ([], bytes, ground arith, refl, h, ground arith);
}

-- A count is read back when enough bytes follow it for that many elements.
pub read_compact_size_run :
    (min_element_bytes v : ℕ) (rest : List ℕ)
    → 0 < min_element_bytes
    → v < 2 ^ 64
    → v * min_element_bytes ≤ length rest
    → read_compact_size min_element_bytes (at (write_compact_size v ++ rest)) ≡ (some v, at rest)
unfolding read_compact_size tagged
read_compact_size_run m v rest hm hv room = rw positive (
    sym (and_then_assoc (read_u8 (at (write_compact_size v ++ rest))) read_tagged (bounded m))
    ∙ ap (λ x. and_then x (bounded m)) ((tagged-Reads v hv).run rest)
    ∙ enough)
  where
    positive : (m == 0) ≡ false
    positive = ground arith

    enough : bounded m v (at rest) ≡ (some v, at rest)
    enough = bounded_enough m v rest hm room

-- What comes back is below 2 ^ 64, was written in its one form, and fits what is left.
pub read_compact_size-Parses :
    (min_element_bytes : ℕ)
    → Parses
        (read_compact_size min_element_bytes)
        (λ v used. (used ≡ write_compact_size v) × (v < 2 ^ 64))
unfolding read_compact_size
read_compact_size-Parses m = Parses-require (not (m == 0)) _ λ positive.
    Parses-bind (read_le-Parses 1) λ tag u q. Parses-bind (read_tagged-Parses tag q.1) λ v w r.
      Parses-weaken (bounded-Parses m v) λ v' x s. (
        ap₂ (λ y z. y ++ (w ++ z)) q.0 s.0
            ∙ ap (◌++◌ (le_bytes 1 tag)) (append-nil w)
            ∙ r.0
            ∙ ap write_compact_size (sym s.1),
        omega (arith, s.1, r.1),
      )
