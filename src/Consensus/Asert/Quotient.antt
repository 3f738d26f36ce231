-- ===== src/Consensus/Asert/Quotient.antt =====
-- `ScaledQuotient` is the division of 80 bits that it stands for.
use amarian_amr.Base.{
  ℕ, zero, suc, ◌+◌, ◌-◌, ◌*◌, ◌/◌, ◌%◌, ◌^◌, ◌≤◌, ◌<◌, ◌≡◌, sym, ap, ◌∙◌, true, false, ltb, leb,
  leb→le, arith, if◌then◌else◌, ◌==◌, nat_eq, Bool-cases, inl, inr,
}
use native.Mathlib.Nat.{
  pow-suc, mul-div_cancel, div-le_self, div-div-eq-div-mul, mul-div-mul_right, div-one,
  le-div_iff_mul-le,
}
use amarian_amr.Base.Powers.{pow-add, pow_pos, quotient_unique}
use amarian_amr.Consensus.Asert.{exponent_saturation, numerator_bit, quotient_loop, scaled_quotient}

-- The quotient, cut off at the saturation point.
abbrev pub saturated : ℕ → ℕ
saturated q = if leb exponent_saturation q then exponent_saturation else q

-- The bits from `k` on are the bit at `k` and those above.
bits_from : (n k : ℕ) → n / 2 ^ k ≡ 2 * (n / 2 ^ suc k) + n / 2 ^ k % 2
bits_from n k = omega (arith, halve)
  where
    halve : n / 2 ^ suc k ≡ n / 2 ^ k / 2
    halve = ap (λ (t : ℕ). n / t) (pow-suc 2 k) ∙ sym (div-div-eq-div-mul n (2 ^ k) 2)

-- The bit that the loop reads is the bit of `high << 16`.
numerator_bit-eq : (high k : ℕ) → numerator_bit high k ≡ high * 2 ^ 16 / 2 ^ k % 2
numerator_bit-eq high k = elim (Bool-cases (leb 16 k)) [
  | inl above ↦ rw above (ap (λ (t : ℕ). t % 2) (sym (cancel (leb→le 16 k above))))
  | inr below ↦ rw below (low (ground arith))
]
  where
    cancel : 16 ≤ k → high * 2 ^ 16 / 2 ^ k ≡ high / 2 ^ (k - 16)
    cancel h =
        ap (λ (t : ℕ). high * 2 ^ 16 / 2 ^ t) {x = k} {y = k - 16 + 16} (omega arith)
        ∙ ap (λ (t : ℕ). high * 2 ^ 16 / t) (pow-add 2 (k - 16) 16)
        ∙ mul-div-mul_right high (2 ^ (k - 16)) (omega arith)

    even : k < 16 → high * 2 ^ 16 ≡ high * 2 ^ (15 - k) * 2 * 2 ^ k
    even h =
        ap (λ (t : ℕ). high * 2 ^ t) {x = 16} {y = 15 - k + suc k} (omega arith)
        ∙ ap (λ (t : ℕ). high * t) (pow-add 2 (15 - k) (suc k))
        ∙ omega (arith, ap (λ (t : ℕ). high * (2 ^ (15 - k) * t)) (pow-suc 2 k))

    low : k < 16 → 0 ≡ high * 2 ^ 16 / 2 ^ k % 2
    low h = omega (
      arith,
      ap (λ (t : ℕ). t / 2 ^ k) (even h),
      mul-div_cancel (high * 2 ^ (15 - k) * 2) (pow_pos 2 k (omega arith)),
    )

-- A quotient of some of the bits is at most the whole quotient.
part-le : (n k d q r : ℕ) → 0 < d → n / 2 ^ k ≡ q * d + r → q ≤ n / d
part-le n k d q r h e = (le-div_iff_mul-le h).1 (omega (arith, e, div-le_self n (2 ^ k)))

saturated_above :
    (q n : ℕ) → leb exponent_saturation q ≡ true → q ≤ n → exponent_saturation ≡ saturated n
saturated_above q n h k = ground arith

module _ (high d : ℕ) (positive : 0 < d) (bounded : d ≤ 2 ^ 62) where
  abbrev numerator : ℕ
  numerator = high * 2 ^ 16

  -- The rest of the rounds, from a quotient and a remainder of the bits from `k` on.
  quotient_loop-exact :
      (k r q : ℕ)
      → numerator / 2 ^ k ≡ q * d + r
      → r < d
      → q < exponent_saturation
      → quotient_loop high d k r q ≡ saturated (numerator / d)
  unfolding quotient_loop
  quotient_loop-exact zero r q e h l =
      let whole : numerator ≡ d * q + r = omega (arith, e, div-one numerator) in
      done (numerator / d) (quotient_unique numerator d q r whole h)
    where
      done : (x : ℕ) → x ≡ q → q ≡ saturated x
      done x e = ground arith
  quotient_loop-exact (suc k) r q e h l =
      rw (shifted, doubled)
        (elim (Bool-cases (leb d (r * 2 + numerator_bit high k))) [
          | inl fits ↦ rw fits (
              go (r * 2 + bit - d) (q * 2 + 1) (omega (arith, bits, leb→le d (r * 2 + bit) fits)) (
                quotient_loop-exact k (r * 2 + bit - d) (q * 2 + 1)
                  (omega (arith, bits, leb→le d (r * 2 + bit) fits)) (omega (arith, bit_lt))))
          | inr small ↦ rw small (
              go (r * 2 + bit) (q * 2 + 0) (omega (arith, bits)) (
                quotient_loop-exact k (r * 2 + bit) (q * 2 + 0) (omega (arith, bits))
                  (ground arith)))
        ])
    where
      bit : ℕ
      bit = numerator_bit high k

      bit_lt : bit < 2
      bit_lt = ground (arith, numerator_bit-eq high k)

      go :
          (r' q' : ℕ)
          → numerator / 2 ^ k ≡ q' * d + r'
          → (q' < exponent_saturation → quotient_loop high d k r' q' ≡ saturated (numerator / d))
          → (if leb exponent_saturation q'
              then exponent_saturation
              else quotient_loop high d k r' q')
            ≡ saturated (numerator / d)
      go r' q' e rest = elim (Bool-cases (leb exponent_saturation q')) [
        | inl full ↦
            rw full
              (saturated_above q' (numerator / d) full (part-le numerator k d q' r' positive e))
        | inr more ↦ rw more (rest (ground arith))
      ]

      bits : numerator / 2 ^ k ≡ 2 * (q * d + r) + numerator_bit high k
      bits = omega (arith, bits_from numerator k, numerator_bit-eq high k, e)

      shifted : r * 2 % 2 ^ 64 ≡ r * 2
      shifted = omega arith

      doubled : q * 2 % 2 ^ 64 ≡ q * 2
      doubled = omega arith

-- For a 64-bit magnitude and a divisor that the clamp allows, the loop computes
-- `floor(high * 2^16 / divisor)` exactly, cut off at the saturation point.
pub scaled_quotient-exact :
    (high divisor : ℕ)
    → high < 2 ^ 64
    → 0 < divisor
    → divisor ≤ 2 ^ 62
    → scaled_quotient high divisor ≡ saturated (high * 2 ^ 16 / divisor)
unfolding scaled_quotient
scaled_quotient-exact high divisor h k l =
    rw (not_zero, not_large) (quotient_loop-exact high divisor k l 80 0 0 all k (omega arith))
  where
    not_zero : (divisor == 0) ≡ false
    not_zero = ground arith

    not_large : ltb (2 ^ 62) divisor ≡ false
    not_large = ground arith

    all : high * 2 ^ 16 / 2 ^ 80 ≡ 0 * divisor + 0
    all = omega arith
