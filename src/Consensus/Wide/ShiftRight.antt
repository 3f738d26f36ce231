-- ===== src/Consensus/Wide/ShiftRight.antt =====
-- `ShiftRight` is division by a power of two.
use amarian_amr.Base.{
  ℕ, zero, suc, ◌+◌, ◌-◌, ◌*◌, ◌/◌, ◌%◌, ◌^◌, ◌<◌, ◌≡◌, sym, ap, subst, ◌∙◌, false, List, [], ◌∷◌,
  map, leb, arith, length, leb→le, ◌==◌, nat_eq, All, All-append, All-drop, drop, replicate, ◌++◌,
  Bool-cases, inl, inr,
}
use native.Mathlib.Nat.{
  pow-suc, div-add-mod, mod-add-div, mod-eq_of_lt, mod-lt, add-mul-mod_self_left,
  mul-lt-mul_of_pos_right, div-div-eq-div-mul, div-one, div-eq_of_lt, zero-div, pow-zero, mul_comm,
  le_trans, div-le_self, pow-le-pow_right,
}
use amarian_amr.Base.Powers.{pow_pos, quotient_unique, parts_below}
use amarian_amr.Consensus.Wide.{shift_right, right_word, limb_indices}
use amarian_amr.Consensus.Wide.Value.{
  wide_value-zeros, power_of_shift, power_of_word, wide_value-lt, wide_value-no_value, five,
  zeros-IsWord, wide_value, IsWord,
}

-- The words shifted right within their words; `p * q` is the size of a word.
abbrev shifted : ℕ → ℕ → List ℕ → List ℕ
shifted p q [] = []
shifted p q (x ∷ []) = x / p ∷ []
shifted p q (x ∷ y ∷ ys) = (x / p + y * q % 2 ^ 64) ∷ shifted p q (y ∷ ys)

abbrev head_word : List ℕ → ℕ
head_word [] = 0
head_word (x ∷ xs) = x

-- What of a word `q * 2 ^ _` goes into the word below.
high_bits : (y p q m : ℕ) → p * q ≡ m → 0 < p → 0 < q → y * q % m ≡ y % p * q
high_bits y p q m e h k =
    ap (λ (t : ℕ). t % m) split ∙ add-mul-mod_self_left (y % p * q) m (y / p) ∙ mod-eq_of_lt below
  where
    split : y * q ≡ y % p * q + m * (y / p)
    split = omega (arith, ap (λ (t : ℕ). t * q) (mod-add-div y p), ap (λ (t : ℕ). t * (y / p)) e)

    below : y % p * q < m
    below = subst (λ t. y % p * q < t) e (mul-lt-mul_of_pos_right (mod-lt y h) k)

add_word :
    (x p q xh xl yl v w : ℕ)
    → p * q ≡ 2 ^ 64
    → p * xh + xl ≡ x
    → v ≡ p * w + yl
    → x + 2 ^ 64 * v ≡ p * (xh + yl * q + 2 ^ 64 * w) + xl
add_word x p q xh xl yl v w e h k =
    omega (arith, ap (λ (t : ℕ). t * yl) e, ap (λ (t : ℕ). 2 ^ 64 * t) k)

shifted-value :
    (p q : ℕ) (xs : List ℕ)
    → p * q ≡ 2 ^ 64
    → 0 < p
    → 0 < q
    → wide_value xs ≡ p * wide_value (shifted p q xs) + head_word xs % p
unfolding wide_value
shifted-value p q [] e h k = omega (arith, mod-eq_of_lt {n = 0} {m = p} h)
shifted-value p q (x ∷ []) e h k = omega (arith, div-add-mod x p)
shifted-value p q (x ∷ y ∷ ys) e h k = rw (high_bits y p q (2 ^ 64) e h k) (
    add_word x p q (x / p) (x % p) (y % p) (wide_value (y ∷ ys)) (wide_value (shifted p q (y ∷ ys)))
      e (div-add-mod x p) (shifted-value p q (y ∷ ys) e h k))

shifted-IsWord :
    (p q : ℕ) (xs : List ℕ)
    → p * q ≡ 2 ^ 64
    → 0 < p
    → 0 < q
    → All IsWord xs
    → All IsWord (shifted p q xs)
shifted-IsWord p q [] e h k l = tt
shifted-IsWord p q (x ∷ []) e h k l = (le_trans (omega (arith, div-le_self x p)) l.0, tt)
shifted-IsWord p q (x ∷ y ∷ ys) e h k l = (
  rw (high_bits y p q (2 ^ 64) e h k) (parts_below x y p q (2 ^ 64) e h l.0),
  shifted-IsWord p q (y ∷ ys) e h k l.1,
)

shifted-div :
    (p q : ℕ) (xs : List ℕ)
    → p * q ≡ 2 ^ 64
    → 0 < p
    → 0 < q
    → wide_value (shifted p q xs) ≡ wide_value xs / p
shifted-div p q xs e h k = sym (
    quotient_unique (wide_value xs) p (wide_value (shifted p q xs)) (head_word xs % p)
      (shifted-value p q xs e h k) (mod-lt (head_word xs) h))

-- The loop over the words, for a shift of at most four words.
module _ (a b c d e bit_shift : ℕ) where
  right_words :
      (limb_shift : ℕ)
      → limb_shift < 5
      → (bit_shift == 0) ≡ false
      → map (right_word (five a b c d e) limb_shift bit_shift) limb_indices
        ≡ shifted (2 ^ bit_shift) (2 ^ (64 - bit_shift)) (drop limb_shift (five a b c d e))
          ++ replicate limb_shift 0
  unfolding right_word
  right_words zero h f = rw f
  right_words (suc zero) h f = rw f
  right_words (suc (suc zero)) h f = rw f
  right_words (suc (suc (suc zero))) h f = rw f
  right_words (suc (suc (suc (suc zero)))) h f = rw f
  right_words (suc (suc (suc (suc (suc n))))) h f = absurd (omega arith)

  whole_words :
      (limb_shift : ℕ)
      → limb_shift < 5
      → map (right_word (five a b c d e) limb_shift 0) limb_indices
        ≡ drop limb_shift (five a b c d e) ++ replicate limb_shift 0
  unfolding right_word
  whole_words zero h = simp div-one
  whole_words (suc zero) h = simp div-one
  whole_words (suc (suc zero)) h = simp div-one
  whole_words (suc (suc (suc zero))) h = simp div-one
  whole_words (suc (suc (suc (suc zero)))) h = simp div-one
  whole_words (suc (suc (suc (suc (suc n))))) h = absurd (omega arith)

-- Dropping words divides.
wide_value-drop :
    (n : ℕ) (xs : List ℕ) → All IsWord xs → wide_value (drop n xs) ≡ wide_value xs / (2 ^ 64) ^ n
unfolding wide_value
wide_value-drop zero xs h = simp (pow-zero, div-one)
wide_value-drop (suc n) [] h = simp zero-div
wide_value-drop (suc n) (x ∷ xs) h =
    wide_value-drop n xs h.1
    ∙ ap (λ (t : ℕ). t / (2 ^ 64) ^ n) (tail x (wide_value xs) h.0)
    ∙ div-div-eq-div-mul (x + 2 ^ 64 * wide_value xs) (2 ^ 64) ((2 ^ 64) ^ n)
    ∙ ap (λ (t : ℕ). (x + 2 ^ 64 * wide_value xs) / t)
        (mul_comm (2 ^ 64) ((2 ^ 64) ^ n) ∙ sym (pow-suc (2 ^ 64) n))
  where
    tail : (x v : ℕ) → x < 2 ^ 64 → v ≡ (x + 2 ^ 64 * v) / 2 ^ 64
    tail x v h = omega arith

right_words-value :
    (a b c d e limb_shift bit_shift : ℕ)
    → All IsWord (five a b c d e)
    → limb_shift < 5
    → bit_shift < 64
    → wide_value (map (right_word (five a b c d e) limb_shift bit_shift) limb_indices)
      ≡ wide_value (five a b c d e) / (2 ^ 64) ^ limb_shift / 2 ^ bit_shift
right_words-value a b c d e limb_shift bit_shift h l k = elim (Bool-cases (bit_shift == 0)) [
  | inl z ↦
      let none : bit_shift ≡ 0 = ground arith in
      rw none (
        ap wide_value (whole_words a b c d e 0 limb_shift l)
        ∙ wide_value-zeros (drop limb_shift (five a b c d e)) limb_shift
        ∙ wide_value-drop limb_shift (five a b c d e) h
        ∙ sym (div-one _))
  | inr f ↦
      ap wide_value (right_words a b c d e bit_shift limb_shift l f)
      ∙ wide_value-zeros _ limb_shift
      ∙ shifted-div (2 ^ bit_shift) (2 ^ (64 - bit_shift)) (drop limb_shift (five a b c d e))
          (power_of_word bit_shift k) (pow_pos 2 bit_shift (omega arith))
          (pow_pos 2 (64 - bit_shift) (omega arith))
      ∙ ap (λ (t : ℕ). t / 2 ^ bit_shift) (wide_value-drop limb_shift (five a b c d e) h)
]

-- Five words shifted right by any number of bits stand for the quotient by that power of two.
pub shift_right-value :
    (a b c d e bits : ℕ)
    → All IsWord (five a b c d e)
    → wide_value (shift_right (five a b c d e) bits) ≡ wide_value (five a b c d e) / 2 ^ bits
unfolding shift_right
shift_right-value a b c d e bits h = elim (Bool-cases (leb 320 bits)) [
  | inl far ↦ rw far (
      wide_value-no_value
      ∙ sym (
          div-eq_of_lt (
            le_trans (wide_value-lt (five a b c d e) h)
              (pow-le-pow_right {n = 2} (omega arith) {i = 320} (leb→le 320 bits far)))))
  | inr near ↦ rw near (
      right_words-value a b c d e (bits / 64) (bits % 64) h (ground arith) (omega arith)
      ∙ div-div-eq-div-mul (wide_value (five a b c d e)) ((2 ^ 64) ^ (bits / 64)) (2 ^ (bits % 64))
      ∙ ap (λ (t : ℕ). wide_value (five a b c d e) / t) (power_of_shift bits))
]

pub shift_right-IsWord :
    (a b c d e bits : ℕ)
    → All IsWord (five a b c d e)
    → All IsWord (shift_right (five a b c d e) bits)
unfolding shift_right
shift_right-IsWord a b c d e bits h = elim (Bool-cases (leb 320 bits)) [
  | inl far ↦ rw far (omega arith)
  | inr near ↦ rw near (kept (bits / 64) (bits % 64) (ground arith) (omega arith))
]
  where
    kept :
        (limb_shift bit_shift : ℕ)
        → limb_shift < 5
        → bit_shift < 64
        → All IsWord (map (right_word (five a b c d e) limb_shift bit_shift) limb_indices)
    kept limb_shift bit_shift l k = elim (Bool-cases (bit_shift == 0)) [
      | inl z ↦
          let none : bit_shift ≡ 0 = ground arith in
          subst (λ n. All IsWord (map (right_word (five a b c d e) limb_shift n) limb_indices))
            (sym none)
            (subst (All IsWord) (sym (whole_words a b c d e 0 limb_shift l)) (
              All-append IsWord _ _ (All-drop IsWord limb_shift (five a b c d e) h)
                (zeros-IsWord limb_shift)))
      | inr f ↦ subst (All IsWord) (sym (right_words a b c d e bit_shift limb_shift l f)) (
          All-append IsWord _ _
            (shifted-IsWord (2 ^ bit_shift) (2 ^ (64 - bit_shift)) _ (power_of_word bit_shift k)
              (pow_pos 2 bit_shift (omega arith)) (pow_pos 2 (64 - bit_shift) (omega arith))
              (All-drop IsWord limb_shift (five a b c d e) h))
            (zeros-IsWord limb_shift))
    ]

pub length-shift_right : (a b c d e bits : ℕ) → length (shift_right (five a b c d e) bits) ≡ 5
unfolding shift_right
length-shift_right a b c d e bits = elim (Bool-cases (leb 320 bits)) [
  | inl far ↦ rw far
  | inr near ↦ rw near
]
