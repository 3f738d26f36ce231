-- ===== src/Consensus/Work/Exact.antt =====
-- What work is: the reciprocal of a target, a saturating sum, and an order of numbers.
use amarian_amr.Base.{
  ℕ, zero, suc, ◌+◌, ◌-◌, ◌*◌, ◌/◌, ◌^◌, ◌≤◌, ◌<◌, ◌≡◌, ◌↔◌, refl, sym, ap, ap₂, subst, ◌∙◌, true,
  false, List, [], ◌∷◌, arith, length, if◌then◌else◌, ◌==◌, nat_eq, list_eq, beq→eq, beq_refl,
  replicate, Bool-cases, inl, inr,
}
use Prim.Native.Nat.{min}
use native.Mathlib.Nat.{add-div_right, div-mul-le_self, mul-le-mul_left}
use amarian_amr.Base.Powers.{pow_pos}
use amarian_amr.Primitives.Hash.{IsHash}
use amarian_amr.Consensus.Target.{Target}
use amarian_amr.Consensus.Target.Meets.{be_value, be_value-lt, exceeds-lt}
use amarian_amr.Consensus.Work.{
  Work, add, add_bytes, more_work, of_target, from_u64, increment, complement, divide,
}
use amarian_amr.Consensus.Work.Bytes.{bit_of, add_bytes-value, increment-value, complement-value}
use amarian_amr.Consensus.Work.Bits.{zeros-value}
use amarian_amr.Consensus.Work.Division.{Stands, divide-value}

abbrev largest : ℕ
largest = 2 ^ 256 - 1

saturated-value : be_value (replicate 32 255) ≡ largest
unfolding be_value
saturated-value = refl

one-Stands : Stands (from_u64 1) 1
unfolding from_u64 be_value
one-Stands = (refl, omega arith, refl)

add-Stands :
    (a b : Work) (x y : ℕ) → Stands a x → Stands b y → Stands (add a b) (min (x + y) largest)
unfolding add
add-Stands a b x y h k =
    let sum = add_bytes-value a b (h.2 ∙ sym k.2) h.1 k.1 in
    let small : be_value (add_bytes a b).0 < 256 ^ 32 =
      subst (λ n. be_value (add_bytes a b).0 < 256 ^ n) (sum.2 ∙ h.2) (be_value-lt _ sum.1) in
    let total : be_value (add_bytes a b).0 + 256 ^ 32 * (add_bytes a b).1 ≡ x + y =
      subst (λ n. be_value (add_bytes a b).0 + 256 ^ n * (add_bytes a b).1 ≡ x + y) h.2
        (sum.0 ∙ ap₂ ◌+◌ h.0 k.0) in
    elim (Bool-cases ((add_bytes a b).1 == 0)) [
      | inl z ↦ rw z (within _ _ x y total small z, sum.1, sum.2 ∙ h.2)
      | inr c ↦ rw c (saturated-value ∙ beyond _ _ x y total c, omega arith, refl)
    ]
  where
    within :
        (v c x y : ℕ)
        → v + 256 ^ 32 * c ≡ x + y
        → v < 256 ^ 32
        → (c == 0) ≡ true
        → v ≡ min (x + y) largest
    within v c x y e h z = let none : c ≡ 0 = ground arith in omega (arith, e, none)

    beyond :
        (v c x y : ℕ) → v + 256 ^ 32 * c ≡ x + y → (c == 0) ≡ false → largest ≡ min (x + y) largest
    beyond v c x y e z = let some : 1 ≤ c = ground arith in omega (arith, e, some)

-- `operator+=` adds, and stops at 2^256 - 1 where the sum does not fit.
pub add-saturates :
    (first second : Work)
    → IsHash first
    → IsHash second
    → be_value (add first second) ≡ min (be_value first + be_value second) (2 ^ 256 - 1)
add-saturates first second h k =
    (add-Stands first second (be_value first) (be_value second) (refl, h.1, h.0) (refl, k.1, k.0)).0

-- The order of byte arrays is the order of the amounts.
pub more_work_iff :
    (first second : Work)
    → IsHash first
    → IsHash second
    → (more_work first second ≡ true) ↔ (be_value second < be_value first)
unfolding more_work
more_work_iff first second h k = exceeds-lt first second (h.0 ∙ sym k.0) h.1 k.1

zero_bytes : (bs : List ℕ) → be_value bs ≡ 0 → bs ≡ replicate (length bs) 0
unfolding be_value
zero_bytes [] e = refl
zero_bytes (zero ∷ bs) e = ap (◌∷◌ 0) (zero_bytes bs (omega (arith, e)))
zero_bytes (suc b ∷ bs) e = absurd (omega (arith, e, pow_pos 256 (length bs) (omega arith)))

-- The quotient of the complement, plus one, is the quotient of 2^256.
complement_quotient :
    (t : ℕ) → 0 < t → t + 1 < 2 ^ 256 → (2 ^ 256 - 1 - t) / (t + 1) + 1 ≡ 2 ^ 256 / (t + 1)
complement_quotient t h l =
    sym (add-div_right (2 ^ 256 - 1 - t) {k = t + 1} (omega arith))
    ∙ ap (λ (n : ℕ). n / (t + 1)) {x = 2 ^ 256 - 1 - t + (t + 1)} {y = 2 ^ 256} (omega arith)

-- The quotient is far from the largest amount.
quotient_small :
    (t : ℕ)
    → 0 < t
    → t + 1 < 2 ^ 256
    → min ((2 ^ 256 - 1 - t) / (t + 1) + 1) largest ≡ (2 ^ 256 - 1 - t) / (t + 1) + 1
quotient_small t h l = omega (
  arith,
  half ((2 ^ 256 - 1 - t) / (t + 1)) (t + 1) (2 ^ 256 - 1 - t) (div-mul-le_self _ (t + 1))
      (omega arith),
)
  where
    half : (q d n : ℕ) → q * d ≤ n → 2 ≤ d → q * 2 ≤ n
    half q d n h l = omega (arith, h, mul-le-mul_left q l)

inverted :
    (target : Target)
    → IsHash target
    → 0 < be_value target
    → be_value (
        if (increment target).1
        then from_u64 1
        else add (divide (complement target) (increment target).0) (from_u64 1))
      ≡ 2 ^ 256 / (be_value target + 1)
inverted target h pos =
    let next = increment-value target h.1 in
    let below = complement-value target h.1 in
    let small : be_value (increment target).0 < 256 ^ 32 =
      subst (λ n. be_value (increment target).0 < 256 ^ n) (next.2 ∙ h.0) (be_value-lt _ next.1) in
    let value : be_value (increment target).0 + 256 ^ 32 * bit_of (increment target).1
        ≡ be_value target + 1 =
      subst
        (λ n.
          be_value (increment target).0 + 256 ^ n * bit_of (increment target).1
          ≡ be_value target + 1)
        h.0 next.0 in
    let complemented : be_value (complement target) + be_value target + 1 ≡ 256 ^ 32 =
      below.0 ∙ ap (λ (n : ℕ). 256 ^ n) h.0 in
    elim (Bool-cases (increment target).1) [
      | inl c ↦ rw c (
          one-Stands.0
          ∙ full (be_value target) (be_value (increment target).0) (rw c at value)
              (subst (λ n. be_value target < 256 ^ n) h.0 (be_value-lt target h.1)))
      | inr c ↦
          let exact : be_value (increment target).0 ≡ be_value target + 1 =
            omega (arith, rw c at value) in
          let quotient =
            divide-value (complement target) (increment target).0 (2 ^ 256 - 1 - be_value target)
              (be_value target + 1) (omega (arith, complemented), below.1, below.2 ∙ h.0)
              (exact, next.1, next.2 ∙ h.0) (omega (arith, exact, small)) (omega arith) in
          rw c (
            (add-Stands _ _ _ 1 quotient one-Stands).0
            ∙ quotient_small (be_value target) pos (omega (arith, exact, small))
            ∙ complement_quotient (be_value target) pos (omega (arith, exact, small)))
    ]
  where
    full : (t v : ℕ) → v + 256 ^ 32 * 1 ≡ t + 1 → t < 256 ^ 32 → 1 ≡ 2 ^ 256 / (t + 1)
    full t v e h = let top : t + 1 ≡ 2 ^ 256 = omega (arith, e) in rw top

-- For a target of 32 bytes, the work is `floor(2^256 / (target + 1))`, and zero for the zero target. The
-- division runs to its end and nothing in it overflows.
pub of_target-exact :
    (target : Target)
    → IsHash target
    → be_value (of_target target)
      ≡ (if be_value target == 0 then 0 else 2 ^ 256 / (be_value target + 1))
unfolding of_target
of_target-exact target h = elim (Bool-cases (target == replicate 32 0)) [
  | inl z ↦
      let zeros = zeros-value 32 in
      let value : be_value target ≡ 0 = ap be_value (beq→eq z) ∙ zeros.0 in rw (z, value) (zeros.0)
  | inr f ↦ elim (Bool-cases (be_value target == 0)) [
    | inl z ↦ absurd (clash z f)
    | inr p ↦ rw (f, p) (inverted target h (ground arith))
  ]
]
  where
    different : false ≡ true → ⊥
    different e = cc

    clash : (be_value target == 0) ≡ true → (target == replicate 32 0) ≡ false → ⊥
    clash z f =
        let all : target ≡ replicate 32 0 =
          zero_bytes target (ground arith) ∙ ap (λ (n : ℕ). replicate n 0) h.0 in
        different
          (sym f ∙ ap (λ t. t == replicate 32 0) all ∙ beq_refl {A = List ℕ} (replicate 32 0))
