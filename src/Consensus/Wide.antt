-- ===== src/Consensus/Wide.antt =====
-- `Wide` of src/consensus/asert.cpp: five 64-bit words, least significant first. An or of two words
-- with no bit in common is written as their sum.
pub mod Value
pub mod Multiply
pub mod ShiftRight
pub mod ShiftLeft
pub mod Targets
use amarian_amr.Base.{
  ℕ, zero, suc, ◌+◌, ◌-◌, ◌*◌, ◌/◌, ◌%◌, ◌^◌, Bool, true, false, not, ◌&&◌, ◌||◌, List, [], ◌∷◌,
  ◌++◌, map, ltb, leb, ◌==◌, nat_eq, if◌then◌else◌, get_or, take, drop, concat_map,
}
use amarian_amr.Base.Bytes.{le_bytes, le_value}
use amarian_amr.Consensus.Target.{Target, reversed}

abbrev pub Wide : Type 0
Wide = List ℕ

abbrev pub limb_count : ℕ
limb_count = 5

abbrev pub limb_bits : ℕ
limb_bits = 64

abbrev pub value_bits : ℕ
value_bits = 320

abbrev pub limb_mod : ℕ
limb_mod = 2 ^ 64

abbrev pub no_value : Wide
no_value = 0 ∷ 0 ∷ 0 ∷ 0 ∷ 0 ∷ []

abbrev pub limb_indices : List ℕ
limb_indices = 0 ∷ 1 ∷ 2 ∷ 3 ∷ 4 ∷ []

unfoldable pub is_zero : Wide → Bool
is_zero [] = true
is_zero (limb ∷ limbs) = if limb == 0 then is_zero limbs else false

-- The words of eight bytes each.
unfoldable pub words : ℕ → List ℕ → List ℕ
words zero bytes = []
words (suc n) bytes = le_value (take 8 bytes) ∷ words n (drop 8 bytes)

unfoldable pub from_target : Target → Wide
unfolding words reversed
from_target target = words 4 (reversed target []) ++ 0 ∷ []

unfoldable pub to_target : Wide → Target
unfolding reversed le_bytes
to_target value = reversed (concat_map (le_bytes 8) (take 4 value)) []

-- The two halves of `a * b + add`, by products of 32-bit halves.
unfoldable pub mul_add_64 : ℕ → ℕ → ℕ → ℕ × ℕ
mul_add_64 a b add =
    let a_lo = a % 2 ^ 32 in
    let a_hi = a / 2 ^ 32 in
    let b_lo = b % 2 ^ 32 in
    let b_hi = b / 2 ^ 32 in
    let p00 = a_lo * b_lo in
    let p01 = a_lo * b_hi in
    let p10 = a_hi * b_lo in
    let p11 = a_hi * b_hi in
    let mid_lo = (p01 + p10) % limb_mod in
    let mid_carry : ℕ = if ltb mid_lo p01 then 1 else 0 in
    let low = (mid_lo * 2 ^ 32 % limb_mod + p00) % limb_mod in
    let low_carry : ℕ = if ltb low p00 then 1 else 0 in
    let with_add = (low + add) % limb_mod in
    let add_carry : ℕ = if ltb with_add low then 1 else 0 in
    (with_add, (p11 + mid_carry * 2 ^ 32 + mid_lo / 2 ^ 32 + low_carry + add_carry) % limb_mod)

-- The loop over the words, with the carry out of the last.
unfoldable pub multiply_words : Wide → ℕ → ℕ → Wide × ℕ
multiply_words [] factor carry = ([], carry)
multiply_words (limb ∷ limbs) factor carry =
    let (lo, hi) = mul_add_64 limb factor carry in
    let rest = multiply_words limbs factor hi in (lo ∷ rest.0, rest.1)

-- The product, and whether a set bit was pushed past 320 bits.
unfoldable pub multiply_small : Wide → ℕ → Wide × Bool
unfolding multiply_words mul_add_64
multiply_small value factor =
    let product = multiply_words value factor 0 in (product.0, not (product.1 == 0))

-- The word at `i` of a value shifted right by `limb_shift` words and `bit_shift` bits.
unfoldable pub right_word : Wide → ℕ → ℕ → ℕ → ℕ
right_word value limb_shift bit_shift i =
    if leb limb_count (i + limb_shift)
    then 0
    else (let word = get_or value (i + limb_shift) 0 / 2 ^ bit_shift in
        if not (bit_shift == 0) && ltb (i + limb_shift + 1) limb_count
        then word + get_or value (i + limb_shift + 1) 0 * 2 ^ (limb_bits - bit_shift) % limb_mod
        else word)

unfoldable pub shift_right : Wide → ℕ → Wide
unfolding right_word
shift_right value bits =
    if leb value_bits bits
    then no_value
    else map (right_word value (bits / limb_bits) (bits % limb_bits)) limb_indices

-- The word at `destination` of a value shifted left.
unfoldable pub left_word : Wide → ℕ → ℕ → ℕ → ℕ
left_word value limb_shift bit_shift destination =
    if leb limb_shift destination
    then (let source = destination - limb_shift in
        let word = get_or value source 0 * 2 ^ bit_shift % limb_mod in
        if not (bit_shift == 0) && leb 1 source
        then word + get_or value (source - 1) 0 / 2 ^ (limb_bits - bit_shift)
        else word)
    else 0

-- Whether the word at `source` loses a set bit.
unfoldable pub loses_bits : Wide → ℕ → ℕ → ℕ → Bool
loses_bits value limb_shift bit_shift source =
    if leb limb_count (source + limb_shift)
    then not (get_or value source 0 == 0)
    else if not (bit_shift == 0) && source + limb_shift == limb_count - 1
    then not (get_or value source 0 / 2 ^ (limb_bits - bit_shift) == 0)
    else false

abbrev pub any_limb : (ℕ → Bool) → List ℕ → Bool
any_limb p [] = false
any_limb p (i ∷ is) = p i || any_limb p is

-- The shifted value, and whether a set bit was pushed past 320 bits.
unfoldable pub shift_left : Wide → ℕ → Wide × Bool
unfolding left_word loses_bits
shift_left value bits =
    if bits == 0
    then (value, false)
    else if leb value_bits bits
    then (no_value, not (is_zero value))
    else (
      map (left_word value (bits / limb_bits) (bits % limb_bits)) limb_indices,
      any_limb (loses_bits value (bits / limb_bits) (bits % limb_bits)) limb_indices,
    )

-- The comparison, from the last word on.
unfoldable pub exceeds_words : List ℕ → List ℕ → Bool
exceeds_words [] limits = false
exceeds_words (limb ∷ limbs) [] = true
exceeds_words (limb ∷ limbs) (limit ∷ limits) =
    if limb == limit then exceeds_words limbs limits else ltb limit limb

unfoldable pub exceeds : Wide → Wide → Bool
unfolding exceeds_words reversed
exceeds value limit = exceeds_words (reversed value []) (reversed limit [])
