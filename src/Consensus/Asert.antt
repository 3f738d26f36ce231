-- ===== src/Consensus/Asert.antt =====
-- Difficulty retargeting: src/consensus/asert.cpp over `Wide`. `int64_t` is ℤ: the clamps keep every
-- value below in its range.
pub mod Factor
pub mod Quotient
pub mod Exponent
pub mod Exact
use amarian_amr.Base.{
  ℕ, zero, suc, ◌+◌, ◌-◌, ◌*◌, ◌/◌, ◌%◌, ◌^◌, Bool, true, false, ◌||◌, Option, none, some, ltb, leb,
  ◌==◌, nat_eq, if◌then◌else◌, ◌∷◌, [], replicate, ◌++◌,
}
use amarian_amr.Base.Int.{ℤ, pos, negsuc, ltb_ℤ, leb_ℤ, ◌-ℤ◌, ◌*ℤ◌}
use amarian_amr.Consensus.Params.{ChainParams}
use amarian_amr.Consensus.Target.{Target, compact_to_target, target_to_compact}
use amarian_amr.Consensus.Wide.{
  Wide, from_target, to_target, exceeds, is_zero, multiply_small, shift_left, shift_right,
}

abbrev pub radix_bits : ℕ
radix_bits = 16

abbrev pub radix : ℕ
radix = 0x1_0000

abbrev pub exponent_saturation : ℕ
exponent_saturation = 2 ^ 32

unfoldable pub clamp : ℤ → ℤ → ℤ → ℤ
clamp value low high = if ltb_ℤ value low then low else if ltb_ℤ high value then high else value

-- Bit `bit` of `high << 16`.
abbrev pub numerator_bit : ℕ → ℕ → ℕ
numerator_bit high bit = if leb 16 bit then high / 2 ^ (bit - 16) % 2 else 0

-- The rounds for the bits below `bits`.
unfoldable pub quotient_loop : ℕ → ℕ → ℕ → ℕ → ℕ → ℕ
quotient_loop high divisor zero remainder quotient = quotient
quotient_loop high divisor (suc bit) remainder quotient =
    let shifted = remainder * 2 % 2 ^ 64 + numerator_bit high bit in
    let fits = leb divisor shifted in
    let remainder' : ℕ = if fits then shifted - divisor else shifted in
    let quotient' = quotient * 2 % 2 ^ 64 + (if fits then 1 else 0) in
    let rest = quotient_loop high divisor bit remainder' quotient' in
    if leb exponent_saturation quotient' then exponent_saturation else rest

unfoldable pub scaled_quotient : ℕ → ℕ → ℕ
unfolding quotient_loop
scaled_quotient high divisor =
    if divisor == 0 || ltb (2 ^ 62) divisor
    then exponent_saturation
    else quotient_loop high divisor 80 0 0

unfoldable pub fraction_factor : ℕ → ℕ
fraction_factor fraction =
    let linear = 195766423245049 * fraction % 2 ^ 64 in
    let quadratic = 971821376 * fraction % 2 ^ 64 * fraction % 2 ^ 64 in
    let cubic = 5127 * fraction % 2 ^ 64 * fraction % 2 ^ 64 * fraction % 2 ^ 64 in
    let polynomial = (linear + quadratic + cubic + 2 ^ 47) % 2 ^ 64 in radix + polynomial / 2 ^ 48

-- `numerator < 0 ? 0U - static_cast<uint64_t>(numerator) : static_cast<uint64_t>(numerator)`.
abbrev pub magnitude : ℤ → ℕ
magnitude (pos n) = n
magnitude (negsuc n) = suc n

-- `n` with the sign of `numerator`.
abbrev pub with_sign : ℤ → ℕ → ℤ
with_sign (pos m) n = pos n
with_sign (negsuc m) n = pos 0 -ℤ pos n

-- `exponent >> RADIX_BITS`, which rounds down.
abbrev pub integer_shift : ℤ → ℤ
integer_shift (pos n) = pos (n / radix)
integer_shift (negsuc n) = negsuc (n / radix)

-- `static_cast<uint64_t>(exponent) & (RADIX - 1)`.
abbrev pub fraction : ℤ → ℕ
fraction (pos n) = n % radix
fraction (negsuc n) = radix - 1 - n % radix

-- The signed fixed-point exponent.
unfoldable pub scaled_exponent : ℤ → ℤ → ℤ → ℤ → ℤ → ℤ
unfolding scaled_quotient clamp ◌-ℤ◌ ◌*ℤ◌
scaled_exponent anchor_time height_delta tip_time spacing_seconds half_life_seconds =
    let bound = pos (2 ^ 61) in
    let lower = pos 0 -ℤ bound in
    let origin = clamp anchor_time lower bound in
    let observed = clamp tip_time lower bound in
    let spacing = clamp spacing_seconds (pos 1) (pos (2 ^ 31)) in
    let height = clamp height_delta (pos 1) (pos (2 ^ 31)) in
    let numerator = observed -ℤ origin -ℤ spacing *ℤ height in
    let half_life = magnitude (clamp half_life_seconds (pos 1) (pos (2 ^ 62))) in
    with_sign numerator (scaled_quotient (magnitude numerator) half_life)

abbrev pub hardest : Target
hardest = replicate 31 0 ++ 1 ∷ []

-- The two ends of the range: zero is raised to one, and what is easier than the floor is the floor.
unfoldable pub into_range : Wide → Wide → Target
unfolding exceeds to_target
into_range target limit =
    if is_zero target
    then hardest
    else if exceeds target limit
    then to_target limit
    else to_target target

-- The shift by the integer part and the division by `RADIX`, as one shift.
unfoldable pub shift_into_range : Wide → Bool → ℤ → Wide → Target
unfolding shift_left shift_right into_range
shift_into_range target overflow (pos zero) limit = into_range target limit
shift_into_range target overflow (pos (suc n)) limit =
    let shifted = shift_left target (suc n) in
    if shifted.1 || overflow then to_target limit else into_range shifted.0 limit
shift_into_range target overflow (negsuc n) limit = into_range (shift_right target (suc n)) limit

unfoldable pub scale_target : Wide → ℤ → Wide → Target
unfolding multiply_small fraction_factor shift_into_range
scale_target target exponent limit =
    let product = multiply_small target (fraction_factor (fraction exponent)) in
    shift_into_range product.0 product.1 (integer_shift exponent -ℤ pos radix_bits) limit

unfoldable pub capped : Wide → Wide → Wide
unfolding exceeds
capped target limit = if exceeds target limit then limit else target

-- What `AsertNextBits` compacts.
unfoldable pub asert_target : Target → ℤ → ℤ → ℤ → ℤ → ℤ → Target → Target
unfolding from_target capped to_target scale_target scaled_exponent
asert_target anchor anchor_time height_delta tip_time spacing_seconds half_life_seconds floor =
    let limit = from_target floor in
    let target = capped (from_target anchor) limit in
    let exponent =
      scaled_exponent anchor_time height_delta tip_time spacing_seconds half_life_seconds in
    if leb_ℤ height_delta (pos 0) then to_target target else scale_target target exponent limit

unfoldable pub asert_next_bits : ℕ → ℤ → ℤ → ℤ → ℤ → ℤ → ℕ → ℕ
unfolding asert_target compact_to_target target_to_compact
asert_next_bits anchor_bits anchor_time height_delta tip_time spacing_seconds half_life_seconds
      pow_limit_bits =
    elim (compact_to_target pow_limit_bits) [
      | none ↦ pow_limit_bits
      | some floor ↦ elim (compact_to_target anchor_bits) [
        | none ↦ pow_limit_bits
        | some anchor ↦ target_to_compact (
            asert_target anchor anchor_time height_delta tip_time spacing_seconds half_life_seconds
              floor)
      ]
    ]

unfoldable pub asert_next_bits_for : ChainParams → ℕ → ℤ → ℕ
unfolding asert_next_bits
asert_next_bits_for params tip_height tip_time =
    asert_next_bits params.genesis_bits params.genesis_timestamp (pos tip_height) tip_time
      params.target_block_seconds params.asert_half_life_seconds params.pow_limit_bits
