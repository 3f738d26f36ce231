-- ===== src/Consensus/Wide/ShiftLeft.antt =====
-- `ShiftLeft` is multiplication by a power of two, and notices what does not fit.
use amarian_amr.Base.{
  ℕ, zero, suc, ◌+◌, ◌-◌, ◌*◌, ◌/◌, ◌%◌, ◌^◌, ◌≤◌, ◌<◌, ◌≡◌, refl, sym, ap, subst, ◌∙◌, ◌≢◌, true,
  false, not, List, [], ◌∷◌, ◌++◌, map, leb, arith, length, leb→le, length-take, ◌==◌, nat_eq, All,
  All-append, All-take, take, drop, replicate, Bool-cases, inl, inr,
}
use native.Mathlib.Nat.{
  mul_comm, add_comm, mod-eq_of_lt, mul-one, le_trans, pow-le-pow_right, pow-zero, one-mul,
  zero-mul, zero-add, add-zero, mul-zero, pos_of_ne-zero, pow-suc, div-add-mod, mod-lt,
  add-mul-mod_self_left, mul-lt-mul_of_pos_right, le-mul_of_pos_right,
}
use amarian_amr.Base.Powers.{pow-add, pow_pos, quotient_unique, parts_below}
use amarian_amr.Consensus.Wide.{shift_left, left_word, loses_bits, any_limb, is_zero, limb_indices}
use amarian_amr.Consensus.Wide.Value.{
  zeros-IsWord, wide_value, IsWord, five, wide_value-no_value, power_of_shift, power_of_word,
}

-- The words above the first, with what the word below hands up; `p * q` is the size of a word.
abbrev following : ℕ → ℕ → ℕ → List ℕ → List ℕ
following p q below [] = []
following p q below (x ∷ xs) = (x * p % 2 ^ 64 + below / q) ∷ following p q x xs

abbrev shifted : ℕ → ℕ → List ℕ → List ℕ
shifted p q [] = []
shifted p q (x ∷ xs) = x * p % 2 ^ 64 ∷ following p q x xs

abbrev last_word : ℕ → List ℕ → ℕ
last_word below [] = below
last_word below (x ∷ xs) = last_word x xs

-- What a word hands up.
kept_bits : (x p q : ℕ) → p * q ≡ 2 ^ 64 → 0 < p → 0 < q → x * p % 2 ^ 64 ≡ x % q * p
kept_bits x p q e h k =
    ap (λ (t : ℕ). t % 2 ^ 64) split
    ∙ add-mul-mod_self_left (x % q * p) (2 ^ 64) (x / q)
    ∙ mod-eq_of_lt below
  where
    split : x * p ≡ x % q * p + 2 ^ 64 * (x / q)
    split = omega (arith, ap (λ (t : ℕ). t * p) (div-add-mod x q), ap (λ (t : ℕ). t * (x / q)) e)

    below : x % q * p < 2 ^ 64
    below = subst (λ t. x % q * p < t) (mul_comm q p ∙ e) (mul-lt-mul_of_pos_right (mod-lt x k) h)

handed_up : (x p q : ℕ) → p * q ≡ 2 ^ 64 → 0 < p → 0 < q → x * p ≡ x * p % 2 ^ 64 + 2 ^ 64 * (x / q)
handed_up x p q e h k = omega (
  arith,
  ap (λ (t : ℕ). t * p) (div-add-mod x q),
  ap (λ (t : ℕ). t * (x / q)) e,
  kept_bits x p q e h k,
)

add_word :
    (x p c m v r n y t : ℕ)
    → x * p ≡ m + 2 ^ 64 * c
    → v + n * r ≡ t * p + c
    → m + y + 2 ^ 64 * v + n * 2 ^ 64 * r ≡ (x + 2 ^ 64 * t) * p + y
add_word x p c m v r n y t h k = omega (arith, h, ap (λ (u : ℕ). 2 ^ 64 * u) k)

following-value :
    (p q below : ℕ) (xs : List ℕ)
    → p * q ≡ 2 ^ 64
    → 0 < p
    → 0 < q
    → wide_value (following p q below xs) + (2 ^ 64) ^ length xs * (last_word below xs / q)
      ≡ wide_value xs * p + below / q
unfolding wide_value
following-value p q below [] e h k = omega arith
following-value p q below (x ∷ xs) e h k = rw (pow-suc (2 ^ 64) (length xs)) (
    add_word x p (x / q) (x * p % 2 ^ 64) (wide_value (following p q x xs)) (last_word x xs / q)
      ((2 ^ 64) ^ length xs) (below / q) (wide_value xs) (handed_up x p q e h k)
      (following-value p q x xs e h k))

shifted-value :
    (p q : ℕ) (xs : List ℕ)
    → p * q ≡ 2 ^ 64
    → 0 < p
    → 0 < q
    → wide_value (shifted p q xs) + (2 ^ 64) ^ length xs * (last_word 0 xs / q) ≡ wide_value xs * p
unfolding wide_value
shifted-value p q [] e h k = omega (arith, quotient_unique 0 q 0 0 (omega arith) k)
shifted-value p q (x ∷ xs) e h k = rw (pow-suc (2 ^ 64) (length xs)) (
    omega (
      arith,
      add_word x p (x / q) (x * p % 2 ^ 64) (wide_value (following p q x xs)) (last_word x xs / q)
          ((2 ^ 64) ^ length xs) 0 (wide_value xs) (handed_up x p q e h k)
          (following-value p q x xs e h k),
    ))

following-IsWord :
    (p q below : ℕ) (xs : List ℕ)
    → p * q ≡ 2 ^ 64
    → 0 < p
    → 0 < q
    → below < 2 ^ 64
    → All IsWord xs
    → All IsWord (following p q below xs)
following-IsWord p q below [] e h k b l = tt
following-IsWord p q below (x ∷ xs) e h k b l = (
  rw (kept_bits x p q e h k, add_comm (x % q * p) (below / q))
      (parts_below below x q p (2 ^ 64) (mul_comm q p ∙ e) k b),
  following-IsWord p q x xs e h k l.0 l.1,
)

shifted-IsWord :
    (p q : ℕ) (xs : List ℕ)
    → p * q ≡ 2 ^ 64
    → 0 < p
    → 0 < q
    → All IsWord xs
    → All IsWord (shifted p q xs)
shifted-IsWord p q [] e h k l = tt
shifted-IsWord p q (x ∷ xs) e h k l = (omega arith, following-IsWord p q x xs e h k l.0 l.1)

-- The loop over the words, for a shift of at most four words that is no whole number of words.
module _ (a b c d e bit_shift : ℕ) where
  left_words :
      (limb_shift : ℕ)
      → limb_shift < 5
      → (bit_shift == 0) ≡ false
      → map (left_word (five a b c d e) limb_shift bit_shift) limb_indices
        ≡ replicate limb_shift 0
          ++ shifted (2 ^ bit_shift) (2 ^ (64 - bit_shift)) (take (5 - limb_shift) (five a b c d e))
  unfolding left_word
  left_words zero h f = rw f
  left_words (suc zero) h f = rw f
  left_words (suc (suc zero)) h f = rw f
  left_words (suc (suc (suc zero))) h f = rw f
  left_words (suc (suc (suc (suc zero)))) h f = rw f
  left_words (suc (suc (suc (suc (suc n))))) h f = absurd (omega arith)

  leak : ℕ → ℕ
  leak limb_shift =
      last_word 0 (take (5 - limb_shift) (five a b c d e)) / 2 ^ (64 - bit_shift)
      + wide_value (drop (5 - limb_shift) (five a b c d e))

  lost_words :
      (limb_shift : ℕ)
      → limb_shift < 5
      → (bit_shift == 0) ≡ false
      → any_limb (loses_bits (five a b c d e) limb_shift bit_shift) limb_indices
        ≡ not (leak limb_shift == 0)
  unfolding loses_bits wide_value leak
  lost_words zero h f = ground arith
  lost_words (suc zero) h f = ground arith
  lost_words (suc (suc zero)) h f = ground arith
  lost_words (suc (suc (suc zero))) h f = ground arith
  lost_words (suc (suc (suc (suc zero)))) h f = ground arith
  lost_words (suc (suc (suc (suc (suc n))))) h f = absurd (omega arith)

-- The same for a whole number of words.
module _ (a b c d e : ℕ) (h : All IsWord (five a b c d e)) where
  whole_words :
      (limb_shift : ℕ)
      → limb_shift < 5
      → map (left_word (five a b c d e) limb_shift 0) limb_indices
        ≡ replicate limb_shift 0 ++ shifted 1 (2 ^ 64) (take (5 - limb_shift) (five a b c d e))
  unfolding left_word
  whole_words zero l = ground arith
  whole_words (suc zero) l = ground arith
  whole_words (suc (suc zero)) l = ground arith
  whole_words (suc (suc (suc zero))) l = ground arith
  whole_words (suc (suc (suc (suc zero)))) l = ground arith
  whole_words (suc (suc (suc (suc (suc n))))) l = absurd (omega arith)

  lost_whole_words :
      (limb_shift : ℕ)
      → limb_shift < 5
      → any_limb (loses_bits (five a b c d e) limb_shift 0) limb_indices
        ≡ not (leak a b c d e 0 limb_shift == 0)
  unfolding loses_bits wide_value leak
  lost_whole_words zero l = ground arith
  lost_whole_words (suc zero) l = ground arith
  lost_whole_words (suc (suc zero)) l = ground arith
  lost_whole_words (suc (suc (suc zero))) l = ground arith
  lost_whole_words (suc (suc (suc (suc zero)))) l = ground arith
  lost_whole_words (suc (suc (suc (suc (suc n))))) l = absurd (omega arith)

zero_of : {n : ℕ} → (n == 0) ≡ true → n ≡ 0
zero_of h = ground arith

wide_value-front :
    (n : ℕ) (xs : List ℕ) → wide_value (replicate n 0 ++ xs) ≡ (2 ^ 64) ^ n * wide_value xs
unfolding wide_value
wide_value-front zero xs = simp (pow-zero, one-mul)
wide_value-front (suc n) xs =
    rw (pow-suc (2 ^ 64) n) (omega (arith, ap (λ (t : ℕ). 2 ^ 64 * t) (wide_value-front n xs)))

wide_value-split :
    (k : ℕ) (xs : List ℕ)
    → k ≤ length xs
    → wide_value xs ≡ wide_value (take k xs) + (2 ^ 64) ^ k * wide_value (drop k xs)
unfolding wide_value
wide_value-split zero xs h = simp (pow-zero, one-mul, zero-add)
wide_value-split (suc k) [] h = absurd (omega arith)
wide_value-split (suc k) (x ∷ xs) h =
    rw (pow-suc (2 ^ 64) k) (omega (arith, wide_value-split k xs (omega arith)))

-- The kept words `s`, the dropped words `t` and the bits `l` that the last kept word loses.
balance :
    (v p s w t l m k n : ℕ)
    → v ≡ w + k * t
    → s + k * l ≡ w * p
    → m * k ≡ n
    → v * (m * p) ≡ m * s + n * (l + t * p)
balance v p s w t l m k n e h r = omega (
  arith,
  ap (λ (u : ℕ). u * (m * p)) e,
  ap (λ (u : ℕ). m * u) h,
  ap (λ (u : ℕ). u * (l + t * p)) r,
)

no_leak : (x r n l t p : ℕ) → x ≡ r + n * (l + t * p) → l + t ≡ 0 → r ≡ x
no_leak x r n l t p e z =
    let l0 : l ≡ 0 = omega arith in
    let t0 : t ≡ 0 = omega arith in sym (e ∙ rw (l0, t0) (simp (zero-mul, add-zero, mul-zero)))

some_leak : (x r n l t p : ℕ) → x ≡ r + n * (l + t * p) → l + t ≢ 0 → 0 < p → n ≤ x
some_leak x r n l t p e z h =
    let more = le-mul_of_pos_right t h in
    let one : 1 ≤ l + t * p = omega (arith, more, pos_of_ne-zero z) in
    omega (arith, e, le-mul_of_pos_right n one)

module _ (a b c d e limb_shift bit_shift : ℕ) (h : All IsWord (five a b c d e)) (l : limb_shift < 5)
    (k : bit_shift < 64) where
  left_words-eq :
      map (left_word (five a b c d e) limb_shift bit_shift) limb_indices
      ≡ replicate limb_shift 0
        ++ shifted (2 ^ bit_shift) (2 ^ (64 - bit_shift)) (take (5 - limb_shift) (five a b c d e))
  left_words-eq = elim (Bool-cases (bit_shift == 0)) [
    | inl z ↦
        subst
          (λ n.
            map (left_word (five a b c d e) limb_shift n) limb_indices
            ≡ replicate limb_shift 0
              ++ shifted (2 ^ n) (2 ^ (64 - n)) (take (5 - limb_shift) (five a b c d e)))
          (sym (zero_of z)) (whole_words a b c d e h limb_shift l)
    | inr f ↦ left_words a b c d e bit_shift limb_shift l f
  ]

  lost_words-eq :
      any_limb (loses_bits (five a b c d e) limb_shift bit_shift) limb_indices
      ≡ not (leak a b c d e bit_shift limb_shift == 0)
  lost_words-eq = elim (Bool-cases (bit_shift == 0)) [
    | inl z ↦
        subst
          (λ n.
            any_limb (loses_bits (five a b c d e) limb_shift n) limb_indices
            ≡ not (leak a b c d e n limb_shift == 0))
          (sym (zero_of z)) (lost_whole_words a b c d e h limb_shift l)
    | inr f ↦ lost_words a b c d e bit_shift limb_shift l f
  ]

  left_words-IsWord :
      All IsWord (map (left_word (five a b c d e) limb_shift bit_shift) limb_indices)
  left_words-IsWord = subst (All IsWord) (sym left_words-eq) (
      All-append IsWord _ _ (zeros-IsWord limb_shift) (
        shifted-IsWord (2 ^ bit_shift) (2 ^ (64 - bit_shift)) _ (power_of_word bit_shift k)
          (pow_pos 2 bit_shift (omega arith)) (pow_pos 2 (64 - bit_shift) (omega arith))
          (All-take IsWord (5 - limb_shift) (five a b c d e) h)))

  left_balance :
      wide_value (five a b c d e) * ((2 ^ 64) ^ limb_shift * 2 ^ bit_shift)
      ≡ wide_value (map (left_word (five a b c d e) limb_shift bit_shift) limb_indices)
        + 2 ^ 320
          * (last_word 0 (take (5 - limb_shift) (five a b c d e)) / 2 ^ (64 - bit_shift)
              + wide_value (drop (5 - limb_shift) (five a b c d e)) * 2 ^ bit_shift)
  left_balance =
      balance (wide_value (five a b c d e)) (2 ^ bit_shift) (wide_value low) (wide_value kept)
        (wide_value (drop (5 - limb_shift) (five a b c d e)))
        (last_word 0 kept / 2 ^ (64 - bit_shift)) ((2 ^ 64) ^ limb_shift)
        ((2 ^ 64) ^ (5 - limb_shift)) (2 ^ 320)
        (wide_value-split (5 - limb_shift) (five a b c d e) (omega arith))
        (subst
          (λ n.
            wide_value low + (2 ^ 64) ^ n * (last_word 0 kept / 2 ^ (64 - bit_shift))
            ≡ wide_value kept * 2 ^ bit_shift)
          (length-take (5 - limb_shift) (five a b c d e) (omega arith))
          (shifted-value (2 ^ bit_shift) (2 ^ (64 - bit_shift)) kept (power_of_word bit_shift k)
            (pow_pos 2 bit_shift (omega arith)) (pow_pos 2 (64 - bit_shift) (omega arith))))
        (sym (pow-add (2 ^ 64) limb_shift (5 - limb_shift))
          ∙ ap (λ (t : ℕ). (2 ^ 64) ^ t) {x = limb_shift + (5 - limb_shift)} {y = 5} (omega arith))
      ∙ ap (λ (t : ℕ). t + 2 ^ 320 * over)
          (sym (ap wide_value left_words-eq ∙ wide_value-front limb_shift low))
    where
      kept : List ℕ
      kept = take (5 - limb_shift) (five a b c d e)

      low : List ℕ
      low = shifted (2 ^ bit_shift) (2 ^ (64 - bit_shift)) kept

      over : ℕ
      over =
          last_word 0 kept / 2 ^ (64 - bit_shift)
          + wide_value (drop (5 - limb_shift) (five a b c d e)) * 2 ^ bit_shift

  left_words-exact :
      (any_limb (loses_bits (five a b c d e) limb_shift bit_shift) limb_indices ≡ false
        → wide_value (map (left_word (five a b c d e) limb_shift bit_shift) limb_indices)
          ≡ wide_value (five a b c d e) * ((2 ^ 64) ^ limb_shift * 2 ^ bit_shift))
      × (any_limb (loses_bits (five a b c d e) limb_shift bit_shift) limb_indices ≡ true
          → 2 ^ 320 ≤ wide_value (five a b c d e) * ((2 ^ 64) ^ limb_shift * 2 ^ bit_shift))
  unfolding leak
  left_words-exact = (
    λ f. no_leak _ _ (2 ^ 320) _ _ (2 ^ bit_shift) left_balance (none (sym lost_words-eq ∙ f)),
    λ f.
        some_leak _ _ (2 ^ 320) _ _ (2 ^ bit_shift) left_balance (some (sym lost_words-eq ∙ f))
          (pow_pos 2 bit_shift (omega arith)),
  )
    where
      none : {n : ℕ} → not (n == 0) ≡ false → n ≡ 0
      none h = ground arith

      some : {n : ℕ} → not (n == 0) ≡ true → n ≢ 0
      some h = ground arith

pub is_zero-eq : (xs : List ℕ) → is_zero xs ≡ (wide_value xs == 0)
unfolding is_zero wide_value
is_zero-eq [] = refl
is_zero-eq (x ∷ xs) = ground (arith, is_zero-eq xs)

-- A shift past the whole value.
far_shift :
    (v bits : ℕ)
    → 320 ≤ bits
    → (not (v == 0) ≡ false → wide_value (five 0 0 0 0 0) ≡ v * 2 ^ bits)
      × (not (v == 0) ≡ true → 2 ^ 320 ≤ v * 2 ^ bits)
far_shift v bits h = (
  λ f. wide_value-no_value ∙ sym (ap (λ (t : ℕ). t * 2 ^ bits) (none f) ∙ zero-mul (2 ^ bits)),
  λ f.
      le_trans (pow-le-pow_right {n = 2} (omega arith) h)
        (omega (arith, le-mul_of_pos_right (2 ^ bits) (some f))),
)
  where
    none : {n : ℕ} → not (n == 0) ≡ false → n ≡ 0
    none h = ground arith

    some : {n : ℕ} → not (n == 0) ≡ true → 1 ≤ n
    some h = ground arith

-- Five words shifted left by any number of bits: without the flag the result is the exact product by
-- that power of two, and with the flag the product does not fit into 320 bits.
pub shift_left-exact :
    (a b c d e bits : ℕ)
    → All IsWord (five a b c d e)
    → ((shift_left (five a b c d e) bits).1 ≡ false
        → wide_value (shift_left (five a b c d e) bits).0 ≡ wide_value (five a b c d e) * 2 ^ bits)
      × ((shift_left (five a b c d e) bits).1 ≡ true
          → 2 ^ 320 ≤ wide_value (five a b c d e) * 2 ^ bits)
unfolding shift_left
shift_left-exact a b c d e bits h = elim (Bool-cases (bits == 0)) [
  | inl z ↦ rw z (λ f. rw (zero_of z) (sym (mul-one (wide_value (five a b c d e)))), λ f. cc)
  | inr f ↦ elim (Bool-cases (leb 320 bits)) [
    | inl far ↦
        rw (f, far, is_zero-eq (five a b c d e))
          (far_shift (wide_value (five a b c d e)) bits (leb→le 320 bits far))
    | inr near ↦
        rw (f, near)
          (subst
            (λ t.
              (any_limb (loses_bits (five a b c d e) (bits / 64) (bits % 64)) limb_indices ≡ false
                → wide_value (map (left_word (five a b c d e) (bits / 64) (bits % 64)) limb_indices)
                  ≡ wide_value (five a b c d e) * t)
              × (any_limb (loses_bits (five a b c d e) (bits / 64) (bits % 64)) limb_indices ≡ true
                  → 2 ^ 320 ≤ wide_value (five a b c d e) * t))
            (power_of_shift bits)
            (left_words-exact a b c d e (bits / 64) (bits % 64) h (ground arith) (omega arith)))
  ]
]

pub shift_left-IsWord :
    (a b c d e bits : ℕ)
    → All IsWord (five a b c d e)
    → All IsWord (shift_left (five a b c d e) bits).0
unfolding shift_left
shift_left-IsWord a b c d e bits h = elim (Bool-cases (bits == 0)) [
  | inl z ↦ rw z h
  | inr f ↦ elim (Bool-cases (leb 320 bits)) [
    | inl far ↦ rw (f, far) (omega arith)
    | inr near ↦
        rw (f, near)
          (left_words-IsWord a b c d e (bits / 64) (bits % 64) h (ground arith) (omega arith))
  ]
]

pub length-shift_left : (a b c d e bits : ℕ) → length (shift_left (five a b c d e) bits).0 ≡ 5
unfolding shift_left
length-shift_left a b c d e bits = elim (Bool-cases (bits == 0)) [
  | inl z ↦ rw z
  | inr f ↦ elim (Bool-cases (leb 320 bits)) [ inl far ↦ rw (f, far) | inr near ↦ rw (f, near) ]
]
