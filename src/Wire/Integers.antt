-- ===== src/Wire/Integers.antt =====
-- Fixed-width reads against fixed-width writes.
use amarian_amr.Base.{
  ℕ, ◌^◌, ◌≤◌, ◌<◌, ◌≡◌, ap, sym, subst, ◌∙◌, some, List, ◌++◌, arith, length, length-append,
  length-take, take, drop, take-append, drop-append, take-append-drop, All-take, All-drop, nat_eq,
}
use amarian_amr.Base.Bytes.{
  AllBytes, le_bytes, le_value, length-le_bytes, le_value-le_bytes, le_bytes-le_value, le_value-lt,
}
use amarian_amr.Base.Int.{ℤ, pos, negsuc}
use amarian_amr.Wire.{
  Reader, at, consume, read_le, write_u64, read_i64, write_i64, to_u64, from_u64,
}
use amarian_amr.Wire.Rules.{Reads, Reads-map, Parses, Parses-map}

-- `consume` takes as many bytes as it is asked for.
pub consume-Reads : (bytes : List ℕ) → Reads (consume (length bytes)) bytes bytes
unfolding consume
consume-Reads bytes = record { run = λ rest. go rest }
  where
    go : (rest : List ℕ) → consume (length bytes) (at (bytes ++ rest)) ≡ (some bytes, at rest)
    go rest =
        ground (arith, length-append bytes rest, take-append bytes rest, drop-append bytes rest)

consume-eq :
    (n : ℕ) (bytes a : List ℕ) (r : Reader)
    → consume n (at bytes) ≡ (some a, r)
    → (take n bytes ≡ a) × (r ≡ at (drop n bytes)) × (n ≤ length bytes)
unfolding consume
consume-eq n bytes a r e = ground arith

pub consume-Parses :
    (n : ℕ)
    → Parses (consume n) (λ bytes used. (used ≡ bytes) × (length bytes ≡ n) × AllBytes bytes)
consume-Parses n = record { run = go }
  where
    go :
        (bytes : List ℕ) (a : List ℕ) (r : Reader)
        → AllBytes bytes
        → consume n (at bytes) ≡ (some a, r)
        → (used rest : List ℕ) × (r ≡ at rest)
          × (bytes ≡ used ++ rest)
          × AllBytes rest
          × ((used ≡ a) × (length a ≡ n) × AllBytes a)
    go bytes a r h e =
        let (taken, left, fits) = consume-eq n bytes a r e in
        (
          take n bytes,
          drop n bytes,
          left,
          sym (take-append-drop n bytes),
          All-drop _ n bytes h,
          (
            taken,
            ap length (sym taken) ∙ length-take n bytes fits,
            subst AllBytes taken (All-take _ n bytes h),
          ),
        )

pub read_le-Reads : (width v : ℕ) → v < 256 ^ width → Reads (read_le width) v (le_bytes width v)
unfolding read_le
read_le-Reads width v h =
    subst (λ x. Reads (read_le width) x (le_bytes width v)) (le_value-le_bytes width v h)
      (Reads-map le_value (
        subst (λ n. Reads (consume n) (le_bytes width v) (le_bytes width v))
          (length-le_bytes width v) (consume-Reads (le_bytes width v))))

pub read_le-Parses :
    (width : ℕ) → Parses (read_le width) (λ v used. (used ≡ le_bytes width v) × (v < 256 ^ width))
unfolding read_le
read_le-Parses width = Parses-map le_value (consume-Parses width) λ bytes used q. (
  q.0 ∙ sym (le_bytes-le_value bytes q.2) ∙ ap (λ n. le_bytes n (le_value bytes)) q.1,
  subst (λ n. le_value bytes < 256 ^ n) q.1 (le_value-lt bytes q.2),
)

-- int64_t is read back from its bit pattern.
abbrev pub IsI64 : ℤ → Type 0
IsI64 (pos n) = n < 2 ^ 63
IsI64 (negsuc n) = n < 2 ^ 63

pub to_u64-lt : (v : ℤ) → IsI64 v → to_u64 v < 2 ^ 64
unfolding to_u64
to_u64-lt (pos n) h = omega arith
to_u64-lt (negsuc n) h = omega arith

pub from_u64-to_u64 : (v : ℤ) → IsI64 v → from_u64 (to_u64 v) ≡ v
unfolding to_u64 from_u64
from_u64-to_u64 (pos n) h = ground arith
from_u64-to_u64 (negsuc n) h = ground arith

pub to_u64-from_u64 : (v : ℕ) → v < 2 ^ 64 → (to_u64 (from_u64 v) ≡ v) × IsI64 (from_u64 v)
unfolding to_u64 from_u64
to_u64-from_u64 v h = ground arith

pub read_i64-Reads : (v : ℤ) → IsI64 v → Reads read_i64 v (write_i64 v)
unfolding read_i64 write_i64 write_u64
read_i64-Reads v h =
    subst (λ x. Reads read_i64 x (write_i64 v)) (from_u64-to_u64 v h)
      (Reads-map from_u64 (read_le-Reads 8 (to_u64 v) (to_u64-lt v h)))

pub read_i64-Parses : Parses read_i64 (λ v used. (used ≡ write_i64 v) × IsI64 v)
unfolding read_i64 write_i64 write_u64
read_i64-Parses =
    Parses-map from_u64 (read_le-Parses 8)
      λ v used q. (q.0 ∙ ap (le_bytes 8) (sym (to_u64-from_u64 v q.1).0), (to_u64-from_u64 v q.1).1)
