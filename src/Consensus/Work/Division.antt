-- ===== src/Consensus/Work/Division.antt =====
-- The long division of `Work::OfTarget` is division.
use amarian_amr.Base.{
  ℕ, zero, suc, ◌+◌, ◌-◌, ◌*◌, ◌/◌, ◌^◌, ◌≤◌, ◌<◌, ◌≡◌, ◌↔◌, refl, sym, ap, subst, ◌∙◌, Bool, true,
  false, not, List, leb, leb→le, arith, length, nat_eq, replicate, Bool-cases, inl, inr,
}
use native.Mathlib.Nat.{
  pow-suc, lt_of_lt_of_le, le_trans, le_of_eq, pow-le-pow_right, mul-lt-mul_of_pos_right,
  div-eq_of_lt, mul-le-mul_right,
}
use amarian_amr.Base.Bytes.{AllBytes}
use amarian_amr.Base.Powers.{pow-add, pow_pos, quotient_unique}
use amarian_amr.Consensus.Target.{exceeds}
use amarian_amr.Consensus.Target.Meets.{be_value, be_value-lt, exceeds-lt}
use amarian_amr.Consensus.Work.{
  shift_left, subtract, subtract_bytes, set_bit, bit_length, divide_loop, divide,
}
use amarian_amr.Consensus.Work.Bytes.{subtract_bytes-value}
use amarian_amr.Consensus.Work.Bits.{shift_left-value, zeros-value}
use amarian_amr.Consensus.Work.SingleBits.{bit_length-bounds, set_bit-value}

-- 32 bytes that stand for a number.
abbrev pub Stands : List ℕ → ℕ → Type 0
Stands bytes v = (be_value bytes ≡ v) × AllBytes bytes × (length bytes ≡ 32)

subtract-value :
    (m s : List ℕ) (x y : ℕ) → Stands m x → Stands s y → y ≤ x → Stands (subtract m s) (x - y)
unfolding subtract
subtract-value m s x y h k l =
    let exact = subtract_bytes-value m s (h.2 ∙ sym k.2) h.1 k.1 in
    let small = be_value-lt (subtract m s) exact.1 in
    (
      no_borrow (be_value (subtract m s)) x y (subtract_bytes m s).1
          (subst (λ t. be_value (subtract m s) + t ≡ x + 256 ^ 32 * (subtract_bytes m s).1) k.0
            (subst
              (λ t. be_value (subtract m s) + be_value s ≡ t + 256 ^ 32 * (subtract_bytes m s).1)
              h.0
              (subst
                (λ t.
                  be_value (subtract m s) + be_value s
                  ≡ be_value m + 256 ^ t * (subtract_bytes m s).1)
                h.2 exact.0)))
          (subst (λ t. be_value (subtract m s) < 256 ^ t) (exact.2 ∙ h.2) small) l,
      exact.1,
      exact.2 ∙ h.2,
    )
  where
    no_borrow : (v x y b : ℕ) → v + y ≡ x + 256 ^ 32 * b → v < 256 ^ 32 → y ≤ x → v ≡ x - y
    no_borrow v x y zero e h l = omega arith
    no_borrow v x y (suc b) e h l = absurd (omega arith)

same_test : (t : Bool) (x y : ℕ) → (t ≡ true) ↔ (y < x) → not t ≡ leb x y
same_test true x y i = ground (arith, i.0 refl)
same_test false x y i = elim (Bool-cases (leb x y)) [
  | inl le ↦ sym le
  | inr gt ↦ absurd (clash (i.1 (ground arith)))
]
  where
    clash : false ≡ true → ⊥
    clash e = cc

fits-eq : (a r : List ℕ) (x y : ℕ) → Stands a x → Stands r y → not (exceeds a r) ≡ leb x y
fits-eq a r x y h k = same_test (exceeds a r) x y (
    subst (λ t. (exceeds a r ≡ true) ↔ (y < t)) h.0
      (subst (λ t. (exceeds a r ≡ true) ↔ (t < be_value a)) k.0
        (exceeds-lt a r (h.2 ∙ sym k.2) h.1 k.1)))

half : (d s : ℕ) → d * 2 ^ suc s < 2 ^ 257 → d * 2 ^ s < 2 ^ 256
half d s h = omega (arith, ap (λ (t : ℕ). d * t) (pow-suc 2 s))

-- The bits that a round settles.
next_remainder : (d s r : ℕ) → r < d * 2 ^ suc s → d * 2 ^ s ≤ r → r - d * 2 ^ s < d * 2 ^ s
next_remainder d s r h k = omega (arith, ap (λ (t : ℕ). d * t) (pow-suc 2 s))

split_quotient : (c s : ℕ) → c * 2 ^ suc s ≡ 2 * c * 2 ^ s
split_quotient c s = omega (arith, ap (λ (t : ℕ). c * t) (pow-suc 2 s))

shift_Stands :
    (divisor : List ℕ) (d s : ℕ)
    → Stands divisor d
    → s < 256
    → d * 2 ^ s < 2 ^ 256
    → Stands (shift_left divisor s) (d * 2 ^ s)
shift_Stands divisor d s h l b =
    subst (λ t. Stands (shift_left divisor s) (t * 2 ^ s)) h.0
      (shift_left-value divisor s h.2 h.1 l (subst (λ t. t * 2 ^ s < 2 ^ 256) (sym h.0) b))

set_Stands :
    (quotient : List ℕ) (c s : ℕ)
    → Stands quotient (c * 2 ^ suc s)
    → s < 256
    → Stands (set_bit quotient s) ((2 * c + 1) * 2 ^ s)
set_Stands quotient c s h l =
    let added = set_bit-value quotient s h.2 h.1 l c h.0 in
    (added.0 ∙ ap (λ (t : ℕ). t + 2 ^ s) (h.0 ∙ split_quotient c s) ∙ omega arith, added.1, added.2)

module _ (divisor : List ℕ) (d n : ℕ) (h : Stands divisor d) (positive : 0 < d) where
  divide_loop-value :
      (shifts r c : ℕ) (remainder quotient : List ℕ)
      → shifts ≤ 256
      → d * 2 ^ shifts < 2 ^ 257
      → Stands remainder r
      → Stands quotient (c * 2 ^ shifts)
      → r < d * 2 ^ shifts
      → n ≡ c * 2 ^ shifts * d + r
      → Stands (divide_loop divisor shifts remainder quotient) (n / d)
  unfolding divide_loop
  divide_loop-value zero r c remainder quotient l b hr hq lt e =
      (hq.0 ∙ sym (quotient_unique n d (c * 2 ^ 0) r (omega (arith, e)) (omega arith)), hq.1, hq.2)
  divide_loop-value (suc shift) r c remainder quotient l b hr hq lt e =
      let aligned = shift_Stands divisor d shift h (omega arith) (half d shift b) in
      elim (Bool-cases (leb (d * 2 ^ shift) r)) [
        | inl fits ↦
            rw (fits-eq (shift_left divisor shift) remainder (d * 2 ^ shift) r aligned hr, fits)
              (divide_loop-value shift (r - d * 2 ^ shift) (2 * c + 1)
                (subtract remainder (shift_left divisor shift)) (set_bit quotient shift)
                (omega arith) (omega (arith, half d shift b))
                (subtract-value remainder (shift_left divisor shift) r (d * 2 ^ shift) hr aligned
                  (leb→le (d * 2 ^ shift) r fits))
                (set_Stands quotient c shift hq (omega arith))
                (next_remainder d shift r lt (leb→le (d * 2 ^ shift) r fits))
                (omega (
                  arith,
                  e,
                  leb→le (d * 2 ^ shift) r fits,
                  ap (λ (t : ℕ). t * d) (split_quotient c shift),
                )))
        | inr less ↦
            rw (fits-eq (shift_left divisor shift) remainder (d * 2 ^ shift) r aligned hr, less)
              (divide_loop-value shift r (2 * c) remainder quotient (omega arith)
                (omega (arith, half d shift b)) hr (hq.0 ∙ split_quotient c shift, hq.1, hq.2)
                (ground arith) (e ∙ ap (λ (t : ℕ). t * d + r) (split_quotient c shift)))
      ]

-- The divisor, aligned under the highest bit of the dividend.
aligned_bound : (d a b : ℕ) → d < 2 ^ b → b ≤ a → a ≤ 256 → d * 2 ^ (a - b + 1) < 2 ^ 257
aligned_bound d a b h k l =
    lt_of_lt_of_le (mul-lt-mul_of_pos_right h (pow_pos 2 (a - b + 1) (omega arith))) (
      le_trans (le_of_eq (sym (pow-add 2 b (a - b + 1))))
        (pow-le-pow_right {n = 2} (omega arith) {i = b + (a - b + 1)} {j = 257} (omega arith)))

aligned_above :
    (n d a b : ℕ) → n < 2 ^ a → 2 ^ (b - 1) ≤ d → 1 ≤ b → b ≤ a → n < d * 2 ^ (a - b + 1)
aligned_above n d a b h k l m = lt_of_lt_of_le h (
    le_trans
      (le_of_eq (
        ap (λ (t : ℕ). 2 ^ t) {x = a} {y = b - 1 + (a - b + 1)} (omega arith)
        ∙ pow-add 2 (b - 1) (a - b + 1)))
      (mul-le-mul_right (2 ^ (a - b + 1)) k))

shorter_below : (n d a b : ℕ) → n < 2 ^ a → 2 ^ (b - 1) ≤ d → a < b → n < d
shorter_below n d a b h k l =
    lt_of_lt_of_le h
      (le_trans (pow-le-pow_right {n = 2} (omega arith) {i = a} {j = b - 1} (omega arith)) k)

-- For a dividend and a divisor of 32 bytes that are not zero, `divide` is the quotient.
pub divide-value :
    (dividend divisor : List ℕ) (n d : ℕ)
    → Stands dividend n
    → Stands divisor d
    → 0 < n
    → 0 < d
    → Stands (divide dividend divisor) (n / d)
unfolding divide
divide-value dividend divisor n d h k pn pd =
    let top = bit_length-bounds dividend h.1 (omega (arith, h.0)) in
    let low = bit_length-bounds divisor k.1 (omega (arith, k.0)) in
    let zeros = zeros-value 32 in
    let upper : n < 2 ^ bit_length dividend = omega (arith, top.2, h.0) in
    let lower : 2 ^ (bit_length divisor - 1) ≤ d = omega (arith, low.1, k.0) in
    elim (Bool-cases (leb (bit_length divisor) (bit_length dividend))) [
      | inl longer ↦
          let order = leb→le (bit_length divisor) (bit_length dividend) longer in
          rw longer (
            divide_loop-value divisor d n k pd (bit_length dividend - bit_length divisor + 1) n 0
              dividend (replicate 32 0) (omega (arith, top.3, h.2, low.0))
              (aligned_bound d (bit_length dividend) (bit_length divisor)
                (omega (arith, low.2, k.0)) order (omega (arith, top.3, h.2)))
              h (omega (arith, zeros.0), zeros.2, refl)
              (aligned_above n d (bit_length dividend) (bit_length divisor) upper lower low.0 order)
              (omega arith))
      | inr shorter ↦ rw shorter (
        zeros.0
            ∙ sym (
                div-eq_of_lt (
                  shorter_below n d (bit_length dividend) (bit_length divisor) upper lower
                    (ground arith))),
        zeros.2,
        refl,
      )
    ]
