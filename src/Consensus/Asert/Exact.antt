-- ===== src/Consensus/Asert/Exact.antt =====
-- The target that ASERT computes, against the formula over numbers of any size.
use amarian_amr.Base.{
  ℕ, zero, suc, ◌+◌, ◌*◌, ◌/◌, ◌^◌, ◌≤◌, ◌<◌, ◌≡◌, refl, sym, ap, ap₂, subst, ◌∙◌, false, ltb,
  arith, if◌then◌else◌, ◌==◌, nat_eq, All, Bool-cases, inl, inr,
}
use native.Mathlib.Nat.{mul-one}
use amarian_amr.Base.Int.{ℤ, pos, negsuc, leb_ℤ, ◌-ℤ◌}
use amarian_amr.Primitives.Hash.{IsHash}
use amarian_amr.Consensus.Target.{Target}
use amarian_amr.Consensus.Target.Meets.{be_value, be_value-lt}
use amarian_amr.Consensus.Wide.{
  Wide, from_target, to_target, multiply_small, shift_left, shift_right, multiply_words,
}
use amarian_amr.Consensus.Wide.Value.{wide_value, IsWord, IsWide, five, five_words}
use amarian_amr.Consensus.Wide.Multiply.{multiply_words-exact}
use amarian_amr.Consensus.Wide.ShiftRight.{
  length-shift_right, shift_right-value, shift_right-IsWord,
}
use amarian_amr.Consensus.Wide.ShiftLeft.{
  shift_left-exact, shift_left-IsWord, length-shift_left, is_zero-eq,
}
use amarian_amr.Consensus.Wide.Targets.{
  from_target-value, from_target-IsWide, to_target-value, exceeds-eq, large_top,
}
use amarian_amr.Consensus.Asert.Factor.{cubic_factor, fraction_factor-exact, cubic_factor-lt}
use amarian_amr.Consensus.Asert.{
  radix, radix_bits, fraction, integer_shift, hardest, into_range, shift_into_range, scale_target,
  capped, scaled_exponent, asert_target,
}

-- A value brought into the range from one to `limit`.
abbrev pub in_range : ℕ → ℕ → ℕ
in_range value limit = if value == 0 then 1 else if ltb limit value then limit else value

-- The smaller of two numbers.
abbrev pub smaller : ℕ → ℕ → ℕ
smaller a b = if ltb b a then b else a

-- `value` times two to the power of the integer, rounded down.
abbrev pub times_power : ℕ → ℤ → ℕ
times_power value (pos n) = value * 2 ^ n
times_power value (negsuc n) = value / 2 ^ suc n

-- A floor below 2^256, as five words.
abbrev IsLimit : Wide → Type 0
IsLimit limit = IsWide limit × (wide_value limit < 2 ^ 256)

limit-value : (limit : Wide) → IsLimit limit → be_value (to_target limit) ≡ wide_value limit
limit-value limit h =
    five_words (λ w. wide_value w < 2 ^ 256 → be_value (to_target w) ≡ wide_value w) five_case limit
      h.0 h.1
  where
    five_case :
        (a b c d e : ℕ)
        → All IsWord (five a b c d e)
        → wide_value (five a b c d e) < 2 ^ 256
        → be_value (to_target (five a b c d e)) ≡ wide_value (five a b c d e)
    five_case a b c d zero h l = to_target-value a b c d (omega arith)
    five_case a b c d (suc e) h l = absurd (omega (arith, large_top a b c d e))

hardest-value : be_value hardest ≡ 1
unfolding be_value
hardest-value = refl

below_limit : (v l : ℕ) → ltb l v ≡ false → l < 2 ^ 256 → v < 2 ^ 256
below_limit v l e h = ground arith

into_range-value :
    (w limit : Wide)
    → IsWide w
    → IsLimit limit
    → be_value (into_range w limit) ≡ in_range (wide_value w) (wide_value limit)
unfolding into_range
into_range-value w limit h k = elim (Bool-cases (wide_value w == 0)) [
  | inl z ↦ rw (is_zero-eq w, z) hardest-value
  | inr f ↦ elim (Bool-cases (ltb (wide_value limit) (wide_value w))) [
    | inl above ↦ rw (is_zero-eq w, f, exceeds-eq w limit h k.0, above) (limit-value limit k)
    | inr below ↦
        rw (is_zero-eq w, f, exceeds-eq w limit h k.0, below)
          (limit-value w (h, below_limit (wide_value w) (wide_value limit) below k.1))
  ]
]

past_limit : (v l : ℕ) → 2 ^ 320 ≤ v → l < 2 ^ 256 → in_range v l ≡ l
past_limit v l h k = ground arith

shift_into_range-value :
    (w limit : Wide) (z : ℤ)
    → IsWide w
    → IsLimit limit
    → be_value (shift_into_range w false z limit)
      ≡ in_range (times_power (wide_value w) z) (wide_value limit)
unfolding shift_into_range
shift_into_range-value w limit (pos zero) h k =
    into_range-value w limit h k
    ∙ ap (λ v. in_range v (wide_value limit)) (sym (mul-one (wide_value w)))
shift_into_range-value w limit (pos (suc n)) h k =
    five_words
      (λ v.
        be_value (shift_into_range v false (pos (suc n)) limit)
        ≡ in_range (wide_value v * 2 ^ suc n) (wide_value limit))
      left w h
  where
    left :
        (a b c d e : ℕ)
        → All IsWord (five a b c d e)
        → be_value (shift_into_range (five a b c d e) false (pos (suc n)) limit)
          ≡ in_range (wide_value (five a b c d e) * 2 ^ suc n) (wide_value limit)
    left a b c d e g =
        let exact = shift_left-exact a b c d e (suc n) g in
        elim (Bool-cases (shift_left (five a b c d e) (suc n)).1) [
          | inl lost ↦
              rw lost
                (limit-value limit k ∙ sym (past_limit _ (wide_value limit) (exact.1 lost) k.1))
          | inr kept ↦ rw kept (
              into_range-value (shift_left (five a b c d e) (suc n)).0 limit
                (length-shift_left a b c d e (suc n), shift_left-IsWord a b c d e (suc n) g) k
              ∙ ap (λ v. in_range v (wide_value limit)) (exact.0 kept))
        ]
shift_into_range-value w limit (negsuc n) h k =
    five_words
      (λ v.
        be_value (shift_into_range v false (negsuc n) limit)
        ≡ in_range (wide_value v / 2 ^ suc n) (wide_value limit))
      (λ a b c d e g.
        into_range-value (shift_right (five a b c d e) (suc n)) limit
          (length-shift_right a b c d e (suc n), shift_right-IsWord a b c d e (suc n) g) k
        ∙ ap (λ v. in_range v (wide_value limit)) (shift_right-value a b c d e (suc n) g))
      w h

multiply_small-value :
    (w : Wide) (factor : ℕ)
    → IsWide w
    → wide_value w < 2 ^ 256
    → factor < 2 ^ 18
    → (wide_value (multiply_small w factor).0 ≡ wide_value w * factor)
      × IsWide (multiply_small w factor).0
      × ((multiply_small w factor).1 ≡ false)
unfolding multiply_small
multiply_small-value w factor h l k =
    let exact = multiply_words-exact w factor 0 h.1 (omega arith) (omega arith) in
    let small : wide_value w * factor < 2 ^ 274 = product_lt (wide_value w) factor l k in
    let none =
      no_carry (wide_value (multiply_words w factor 0).0) (multiply_words w factor 0).1
        (wide_value w * factor) (rw h.0 at exact.0) small in
    (none.1, (exact.2 ∙ h.0, exact.1), rw none.0)
  where
    product_lt : (v f : ℕ) → v < 2 ^ 256 → f < 2 ^ 18 → v * f < 2 ^ 274
    product_lt v f h k = grind arith

    no_carry : (v c t : ℕ) → v + (2 ^ 64) ^ 5 * c ≡ t + 0 → t < 2 ^ 274 → (c ≡ 0) × (v ≡ t)
    no_carry v c t e h = (omega arith, omega arith)

fraction-lt : (e : ℤ) → fraction e < radix
fraction-lt (pos n) = omega arith
fraction-lt (negsuc n) = omega arith

-- The formula over numbers of any size: the start times two to the power of the exponent, whose
-- fraction the cubic approximates, brought into the range from one to `limit`.
abbrev pub asert_formula : ℕ → ℤ → ℕ → ℕ
asert_formula start exponent limit =
    in_range
      (times_power (start * cubic_factor (fraction exponent))
        (integer_shift exponent -ℤ pos radix_bits))
      limit

scale_target-value :
    (w limit : Wide) (exponent : ℤ)
    → IsLimit w
    → IsLimit limit
    → be_value (scale_target w exponent limit)
      ≡ asert_formula (wide_value w) exponent (wide_value limit)
unfolding scale_target
scale_target-value w limit exponent h k =
    let factor = fraction_factor-exact (fraction exponent) (fraction-lt exponent) in
    let product =
      multiply_small-value w (cubic_factor (fraction exponent)) h.0 h.1
        (cubic_factor-lt (fraction exponent) (fraction-lt exponent)) in
    rw (factor, product.2)
      (shift_into_range-value (multiply_small w (cubic_factor (fraction exponent))).0 limit
          (integer_shift exponent -ℤ pos radix_bits) product.1 k
        ∙ ap
            (λ v.
              in_range (times_power v (integer_shift exponent -ℤ pos radix_bits))
                (wide_value limit))
            product.0)

from_target-IsLimit : (t : Target) → IsHash t → IsLimit (from_target t)
from_target-IsLimit t h = (
  from_target-IsWide t h,
  omega (arith, from_target-value t h, subst (λ n. be_value t < 256 ^ n) h.0 (be_value-lt t h.1)),
)

capped-value :
    (w limit : Wide)
    → IsLimit w
    → IsLimit limit
    → IsLimit (capped w limit)
      × (wide_value (capped w limit) ≡ smaller (wide_value w) (wide_value limit))
unfolding capped
capped-value w limit h k = elim (Bool-cases (ltb (wide_value limit) (wide_value w))) [
  | inl above ↦ rw (exceeds-eq w limit h.0 k.0, above) (k, refl)
  | inr below ↦ rw (exceeds-eq w limit h.0 k.0, below) (h, refl)
]

-- For targets of 32 bytes, the target that `AsertNextBits` compacts is exactly what the formula over
-- numbers of any size gives: the anchor, lowered to the floor where it is easier, for a height that is not
-- positive, and else its multiple by two to the power of the exponent, the fraction of which the cubic
-- approximates, rounded down, raised to one where it is zero and lowered to the floor where it is easier.
-- No word overflows on the way.
pub asert_target-exact :
    (anchor floor : Target)
    (anchor_time height_delta tip_time spacing_seconds half_life_seconds : ℤ)
    → IsHash anchor
    → IsHash floor
    → be_value (
        asert_target anchor anchor_time height_delta tip_time spacing_seconds half_life_seconds
          floor)
      ≡ (if leb_ℤ height_delta (pos 0)
          then smaller (be_value anchor) (be_value floor)
          else asert_formula
              (smaller (be_value anchor) (be_value floor))
              (scaled_exponent anchor_time height_delta tip_time spacing_seconds half_life_seconds)
              (be_value floor))
unfolding asert_target
asert_target-exact anchor floor at height_delta tip spacing half_life h k =
    let exponent = scaled_exponent at height_delta tip spacing half_life in
    let limit = from_target-IsLimit floor k in
    let start =
      capped-value (from_target anchor) (from_target floor) (from_target-IsLimit anchor h) limit in
    let value : wide_value (capped (from_target anchor) (from_target floor))
        ≡ smaller (be_value anchor) (be_value floor) =
      start.1 ∙ ap₂ smaller (from_target-value anchor h) (from_target-value floor k) in
    elim (Bool-cases (leb_ℤ height_delta (pos 0))) [
      | inl early ↦ rw early (limit-value _ start.0 ∙ value)
      | inr later ↦ rw later (
          scale_target-value (capped (from_target anchor) (from_target floor)) (from_target floor)
            exponent start.0 limit
          ∙ ap₂ (λ v l. asert_formula v exponent l) value (from_target-value floor k))
    ]
