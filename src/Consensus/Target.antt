-- ===== src/Consensus/Target.antt =====
-- The compact form of a proof-of-work target: src/consensus/target.cpp. A target is 32 bytes, most
-- significant first.
pub mod Meets
use amarian_amr.Base.{
  ℕ, zero, suc, ◌+◌, ◌-◌, ◌*◌, ◌/◌, ◌%◌, ◌^◌, Bool, true, false, ◌||◌, not, Option, none, some,
  List, [], ◌∷◌, ltb, leb, ◌==◌, nat_eq, list_eq, if◌then◌else◌, length, get_or, replicate,
}
use amarian_amr.Primitives.Hash.{Hash256}

abbrev pub Target : Type 0
Target = List ℕ

abbrev pub target_bytes : ℕ
target_bytes = 32

-- A write within bounds.
unfoldable pub set : List ℕ → ℕ → ℕ → List ℕ
set [] i v = []
set (x ∷ xs) zero v = v ∷ xs
set (x ∷ xs) (suc i) v = x ∷ set xs i v

-- One round of the loop over the mantissa's bytes: the byte goes to `32 - exponent + offset`, and must
-- be zero where that lies outside the target.
unfoldable pub place : ℕ → ℕ → ℕ → Target → Option Target
unfolding set
place exponent offset byte target =
    if ltb (target_bytes + offset) exponent || leb exponent offset
    then if byte == 0 then some target else none
    else some (set target (target_bytes + offset - exponent) byte)

abbrev pub and_place : ℕ → ℕ → ℕ → Option Target → Option Target
and_place exponent offset byte none = none
and_place exponent offset byte (some t) = place exponent offset byte t

-- The zero bytes in front, taken off.
unfoldable pub significant : List ℕ → List ℕ
significant [] = []
significant (b ∷ bs) = if b == 0 then significant bs else b ∷ bs

-- The first three significant bytes, with zeros where the target has fewer.
unfoldable pub leading : List ℕ → ℕ
leading t = (get_or t 0 0 * 256 + get_or t 1 0) * 256 + get_or t 2 0

-- A mantissa with its sign bit set gives up its last byte.
unfoldable pub pack_compact : ℕ → ℕ → ℕ
pack_compact size mantissa =
    if leb 0x80_0000 mantissa
    then (size + 1) * 2 ^ 24 + mantissa / 256
    else size * 2 ^ 24 + mantissa

unfoldable pub target_to_compact : Target → ℕ
unfolding significant leading pack_compact
target_to_compact target =
    let t = significant target in if length t == 0 then 0 else pack_compact (length t) (leading t)

abbrev pub only_canonical : ℕ → Option Target → Option Target
only_canonical bits none = none
only_canonical bits (some target) = if target_to_compact target == bits then some target else none

unfoldable pub compact_to_target : ℕ → Option Target
unfolding place target_to_compact
compact_to_target bits =
    let exponent = bits / 2 ^ 24 in
    let mantissa = bits % 2 ^ 24 in
    if leb 0x80_0000 mantissa || mantissa == 0
    then none
    else only_canonical bits (
        and_place exponent 2 (mantissa % 256) (
          and_place exponent 1 (mantissa / 256 % 256)
            (place exponent 0 (mantissa / 256 ^ 2 % 256) (replicate target_bytes 0))))

-- The comparison of byte arrays, most significant first: `first > second`.
unfoldable pub exceeds : List ℕ → List ℕ → Bool
exceeds [] bs = false
exceeds (a ∷ as') [] = true
exceeds (a ∷ as') (b ∷ bs) = if a == b then exceeds as' bs else ltb b a

-- The digest is read from its last byte on.
unfoldable pub reversed : List ℕ → List ℕ → List ℕ
reversed [] acc = acc
reversed (b ∷ bs) acc = reversed bs (b ∷ acc)

unfoldable pub hash_meets_target : Hash256 → Target → Bool
unfolding exceeds reversed
hash_meets_target hash target = not (exceeds (reversed hash []) target)

abbrev pub meets_decoded : Hash256 → Option Target → Bool
meets_decoded hash none = false
meets_decoded hash (some target) = hash_meets_target hash target

unfoldable pub check_proof_of_work : Hash256 → ℕ → Bool
check_proof_of_work hash bits = meets_decoded hash (compact_to_target bits)
