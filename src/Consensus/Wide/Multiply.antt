-- ===== src/Consensus/Wide/Multiply.antt =====
-- `MulAdd64` and `MultiplySmall` are exact.
use amarian_amr.Base.{
  ℕ, suc, ◌+◌, ◌*◌, ◌/◌, ◌%◌, ◌^◌, ◌<◌, ◌≡◌, refl, ap, ap₂, ◌∙◌, List, [], ◌∷◌, ltb, arith, length,
  if◌then◌else◌, nat_eq, All,
}
use native.Mathlib.Nat.{pow-suc}
use amarian_amr.Consensus.Wide.{mul_add_64, multiply_words}
use amarian_amr.Consensus.Wide.Value.{wide_value, IsWord}

-- The sum of the four products, as the code adds it up.
abbrev low_half : ℕ → ℕ → ℕ → ℕ → ℕ
low_half p00 p01 p10 add = (((p01 + p10) % 2 ^ 64 * 2 ^ 32 % 2 ^ 64 + p00) % 2 ^ 64 + add) % 2 ^ 64

abbrev high_half : ℕ → ℕ → ℕ → ℕ → ℕ → ℕ
high_half p00 p01 p10 p11 add =
    let mid_lo = (p01 + p10) % 2 ^ 64 in
    let mid_carry : ℕ = if ltb mid_lo p01 then 1 else 0 in
    let low = (mid_lo * 2 ^ 32 % 2 ^ 64 + p00) % 2 ^ 64 in
    let low_carry : ℕ = if ltb low p00 then 1 else 0 in
    let with_add = (low + add) % 2 ^ 64 in
    let add_carry : ℕ = if ltb with_add low then 1 else 0 in
    p11 + mid_carry * 2 ^ 32 + mid_lo / 2 ^ 32 + low_carry + add_carry

carry_of :
    (x y : ℕ)
    → x < 2 ^ 64
    → y < 2 ^ 64
    → x + y ≡ (x + y) % 2 ^ 64 + 2 ^ 64 * (if ltb ((x + y) % 2 ^ 64) x then 1 else 0)
carry_of x y h k = ground arith

carry_of' :
    (x y : ℕ)
    → x < 2 ^ 64
    → y < 2 ^ 64
    → x + y ≡ (x + y) % 2 ^ 64 + 2 ^ 64 * (if ltb ((x + y) % 2 ^ 64) y then 1 else 0)
carry_of' x y h k = ground arith

halves_sum :
    (p00 p01 p10 p11 add : ℕ)
    → p00 < 2 ^ 64
    → p01 < 2 ^ 64
    → p10 < 2 ^ 64
    → add < 2 ^ 64
    → low_half p00 p01 p10 add + 2 ^ 64 * high_half p00 p01 p10 p11 add
      ≡ p11 * 2 ^ 64 + (p01 + p10) * 2 ^ 32 + p00 + add
halves_sum p00 p01 p10 p11 add h0 h1 h2 h3 =
    let mid = carry_of p01 p10 h1 h2 in
    let low = carry_of' ((p01 + p10) % 2 ^ 64 * 2 ^ 32 % 2 ^ 64) p00 (omega arith) h0 in
    let all =
      carry_of (((p01 + p10) % 2 ^ 64 * 2 ^ 32 % 2 ^ 64 + p00) % 2 ^ 64) add (omega arith) h3 in
    omega (arith, mid, low, all)

expand :
    (al ah bl bh : ℕ)
    → (ah * 2 ^ 32 + al) * (bh * 2 ^ 32 + bl)
      ≡ ah * bh * 2 ^ 64 + (al * bh + ah * bl) * 2 ^ 32 + al * bl
expand al ah bl bh = omega arith

small_product : (x y : ℕ) → x < 2 ^ 32 → y < 2 ^ 32 → x * y < 2 ^ 64
small_product x y h k = grind arith

square_bound :
    (a b add : ℕ) → a < 2 ^ 64 → b < 2 ^ 64 → add < 2 ^ 64 → a * b + add < 2 ^ 64 * 2 ^ 64
square_bound a b add h k l = grind arith

-- For words, the two halves are words and stand for `a * b + add`.
pub mul_add_64-exact :
    (a b add : ℕ)
    → IsWord a
    → IsWord b
    → IsWord add
    → ((mul_add_64 a b add).0 + 2 ^ 64 * (mul_add_64 a b add).1 ≡ a * b + add)
      × IsWord (mul_add_64 a b add).0
      × IsWord (mul_add_64 a b add).1
unfolding mul_add_64
mul_add_64-exact a b add h k l =
    let al = a % 2 ^ 32 in
    let ah = a / 2 ^ 32 in
    let bl = b % 2 ^ 32 in
    let bh = b / 2 ^ 32 in
    let sum =
      halves_sum (al * bl) (al * bh) (ah * bl) (ah * bh) add
        (small_product al bl (omega arith) (omega arith))
        (small_product al bh (omega arith) (omega arith))
        (small_product ah bl (omega arith) (omega arith)) l in
    let product : a * b ≡ ah * bh * 2 ^ 64 + (al * bh + ah * bl) * 2 ^ 32 + al * bl =
      recombine a b ∙ expand al ah bl bh in
    let bound = square_bound a b add h k l in
    finish (low_half (al * bl) (al * bh) (ah * bl) add)
      (high_half (al * bl) (al * bh) (ah * bl) (ah * bh) add) (a * b + add)
      (omega (arith, sum, product)) bound (omega arith)
  where
    recombine :
        (a b : ℕ) → a * b ≡ (a / 2 ^ 32 * 2 ^ 32 + a % 2 ^ 32) * (b / 2 ^ 32 * 2 ^ 32 + b % 2 ^ 32)
    recombine a b = ap₂ ◌*◌ (omega arith) (omega arith)

    finish :
        (lo hi total : ℕ)
        → lo + 2 ^ 64 * hi ≡ total
        → total < 2 ^ 64 * 2 ^ 64
        → lo < 2 ^ 64
        → (lo + 2 ^ 64 * (hi % 2 ^ 64) ≡ total) × (lo < 2 ^ 64) × (hi % 2 ^ 64 < 2 ^ 64)
    finish lo hi total h k l = (omega arith, l, omega arith)

carry_through :
    (x f c lo hi v r n p : ℕ)
    → lo + 2 ^ 64 * hi ≡ x * f + c
    → v + p * r ≡ n * f + hi
    → lo + 2 ^ 64 * v + p * 2 ^ 64 * r ≡ (x + 2 ^ 64 * n) * f + c
carry_through x f c lo hi v r n p h k = omega (arith, h, ap (λ (t : ℕ). 2 ^ 64 * t) k)

-- The words and the carry stand for the product; the words stay words.
pub multiply_words-exact :
    (limbs : List ℕ) (factor carry : ℕ)
    → All IsWord limbs
    → IsWord factor
    → IsWord carry
    → (wide_value (multiply_words limbs factor carry).0
          + (2 ^ 64) ^ length limbs * (multiply_words limbs factor carry).1
        ≡ wide_value limbs * factor + carry)
      × All IsWord (multiply_words limbs factor carry).0
      × (length (multiply_words limbs factor carry).0 ≡ length limbs)
unfolding multiply_words wide_value
multiply_words-exact [] factor carry h k l = (omega arith, tt, refl)
multiply_words-exact (x ∷ xs) factor carry h k l =
    let step = mul_add_64-exact x factor carry h.0 k l in
    let rest = multiply_words-exact xs factor (mul_add_64 x factor carry).1 h.1 k step.2 in
    (
      rw (pow-suc (2 ^ 64) (length xs)) (
          carry_through x factor carry (mul_add_64 x factor carry).0 (mul_add_64 x factor carry).1
            (wide_value (multiply_words xs factor (mul_add_64 x factor carry).1).0)
            (multiply_words xs factor (mul_add_64 x factor carry).1).1 (wide_value xs)
            ((2 ^ 64) ^ length xs) step.0 rest.0),
      (step.1, rest.1),
      ap suc rest.2,
    )
