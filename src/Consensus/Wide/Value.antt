-- ===== src/Consensus/Wide/Value.antt =====
-- The number that the words of a `Wide` stand for.
use amarian_amr.Base.{
  ℕ, zero, suc, ◌+◌, ◌-◌, ◌*◌, ◌/◌, ◌%◌, ◌^◌, ◌<◌, ◌≡◌, refl, sym, ap, ◌∙◌, List, [], ◌∷◌, ◌++◌,
  length, All, replicate, arith,
}
use native.Mathlib.Nat.{pow-suc, div-add-mod}
use amarian_amr.Base.Powers.{pow-add, pow-mul}

unfoldable pub wide_value : List ℕ → ℕ
wide_value [] = 0
wide_value (limb ∷ limbs) = limb + 2 ^ 64 * wide_value limbs

abbrev pub IsWord : ℕ → Type 0
IsWord word = word < 2 ^ 64

abbrev pub IsWide : List ℕ → Type 0
IsWide value = (length value ≡ 5) × All IsWord value

abbrev pub five : ℕ → ℕ → ℕ → ℕ → ℕ → List ℕ
five a b c d e = a ∷ b ∷ c ∷ d ∷ e ∷ []

pub wide_value-zeros : (xs : List ℕ) (n : ℕ) → wide_value (xs ++ replicate n 0) ≡ wide_value xs
unfolding wide_value
wide_value-zeros [] zero = refl
wide_value-zeros [] (suc n) = omega (arith, wide_value-zeros [] n)
wide_value-zeros (x ∷ xs) n = omega (arith, wide_value-zeros xs n)

pub power_of_shift : (bits : ℕ) → (2 ^ 64) ^ (bits / 64) * 2 ^ (bits % 64) ≡ 2 ^ bits
power_of_shift bits =
    ap (λ (t : ℕ). t * 2 ^ (bits % 64)) (pow-mul 2 64 (bits / 64))
    ∙ sym (pow-add 2 (64 * (bits / 64)) (bits % 64))
    ∙ ap (λ (t : ℕ). 2 ^ t) (div-add-mod bits 64)

pub power_of_word : (bits : ℕ) → bits < 64 → 2 ^ bits * 2 ^ (64 - bits) ≡ 2 ^ 64
power_of_word bits h =
    sym (pow-add 2 bits (64 - bits))
    ∙ ap (λ (t : ℕ). 2 ^ t) {x = bits + (64 - bits)} {y = 64} (omega arith)

pub wide_value-lt : (xs : List ℕ) → All IsWord xs → wide_value xs < (2 ^ 64) ^ length xs
unfolding wide_value
wide_value-lt [] h = omega arith
wide_value-lt (x ∷ xs) h = omega (arith, wide_value-lt xs h.1, pow-suc (2 ^ 64) (length xs))

pub wide_value-no_value : wide_value (five 0 0 0 0 0) ≡ 0
unfolding wide_value
wide_value-no_value = refl

-- What holds of all five words holds of a `Wide`.
pub five_words {ℓ} :
    (P : List ℕ → Type ℓ)
    → ((a b c d e : ℕ) → All IsWord (five a b c d e) → P (five a b c d e))
    → (w : List ℕ) → IsWide w
    → P w
five_words P f [] h = absurd (omega (arith, h.0))
five_words P f (a ∷ []) h = absurd (omega (arith, h.0))
five_words P f (a ∷ b ∷ []) h = absurd (omega (arith, h.0))
five_words P f (a ∷ b ∷ c ∷ []) h = absurd (omega (arith, h.0))
five_words P f (a ∷ b ∷ c ∷ d ∷ []) h = absurd (omega (arith, h.0))
five_words P f (a ∷ b ∷ c ∷ d ∷ e ∷ []) h = f a b c d e h.1
five_words P f (a ∷ b ∷ c ∷ d ∷ e ∷ x ∷ xs) h = absurd (omega (arith, h.0))

pub zeros-IsWord : (n : ℕ) → All IsWord (replicate n 0)
zeros-IsWord zero = tt
zeros-IsWord (suc n) = (omega arith, zeros-IsWord n)
