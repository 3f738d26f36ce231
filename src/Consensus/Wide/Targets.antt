-- ===== src/Consensus/Wide/Targets.antt =====
-- Targets as words and back, and the comparison of words.
use amarian_amr.Base.{
  ℕ, zero, suc, ◌+◌, ◌*◌, ◌^◌, ◌≤◌, ◌<◌, ◌≡◌, ◌↔◌, refl, sym, subst, ◌∙◌, Bool, true, false, ltb,
  ltb→lt, Bool-cases, inl, inr, List, [], ◌∷◌, ◌++◌, length, length-append, length-take, All,
  All-append, All-take, All-drop, take, drop, concat_map, arith,
}
use amarian_amr.Base.Bytes.{
  AllBytes, le_value, le_bytes, le_value-lt, le_value-append, le_value-split, le_value-le_bytes,
  length-le_bytes, IsByte,
}
use native.Mathlib.Nat.{pow-suc}
use amarian_amr.Primitives.Hash.{IsHash}
use amarian_amr.Consensus.Target.{Target, reversed}
use amarian_amr.Consensus.Target.Meets.{
  be_value, be_value-reversed, first_digit, length-reversed, AllBytes-reversed,
}
use amarian_amr.Consensus.Wide.{Wide, words, from_target, to_target, exceeds, exceeds_words}
use amarian_amr.Consensus.Wide.Value.{wide_value, IsWord, IsWide, five, five_words}

-- The numbers in the other order.
le_value-reversed :
    (bs acc : List ℕ) → le_value (reversed bs acc) ≡ be_value bs + 256 ^ length bs * le_value acc
unfolding reversed be_value le_value
le_value-reversed [] acc = omega arith
le_value-reversed (b ∷ bs) acc =
    le_value-reversed bs (b ∷ acc) ∙ rw (pow-suc 256 (length bs)) (omega arith)

length-drop : (k m : ℕ) (xs : List ℕ) → length xs ≡ k + m → length (drop k xs) ≡ m
length-drop zero m xs h = omega arith
length-drop (suc k) m [] h = omega arith
length-drop (suc k) m (x ∷ xs) h = length-drop k m xs (omega arith)

-- The words of whole groups of eight bytes.
words-value :
    (n : ℕ) (bs : List ℕ) → length bs ≡ 8 * n → wide_value (words n bs ++ 0 ∷ []) ≡ le_value bs
unfolding words wide_value le_value
words-value zero [] h = refl
words-value zero (b ∷ bs) h = absurd (omega arith)
words-value (suc n) bs h =
    let ih = words-value n (drop 8 bs) (length-drop 8 (8 * n) bs (omega arith)) in
    omega (arith, ih, le_value-split 8 bs (omega arith))

words-IsWord : (n : ℕ) (bs : List ℕ) → length bs ≡ 8 * n → AllBytes bs → All IsWord (words n bs)
unfolding words
words-IsWord zero bs h k = tt
words-IsWord (suc n) bs h k = (
  subst (λ t. le_value (take 8 bs) < 256 ^ t) (length-take 8 bs (omega arith))
      (le_value-lt (take 8 bs) (All-take IsByte 8 bs k)),
  words-IsWord n (drop 8 bs) (length-drop 8 (8 * n) bs (omega arith)) (All-drop IsByte 8 bs k),
)

-- The words of a target stand for its number.
pub from_target-value : (t : Target) → IsHash t → wide_value (from_target t) ≡ be_value t
unfolding from_target
from_target-value t h =
    words-value 4 (reversed t []) (omega (arith, length-reversed t [], h.0))
    ∙ le_value-reversed t []
    ∙ unfold le_value in omega arith

pub from_target-IsWide : (t : Target) → IsHash t → IsWide (from_target t)
unfolding from_target
from_target-IsWide t h =
    let len : length (reversed t []) ≡ 32 = omega (arith, length-reversed t [], h.0) in
    (
      length-append (words 4 (reversed t [])) (0 ∷ []) ∙ length-words,
      All-append IsWord (words 4 (reversed t [])) (0 ∷ [])
          (words-IsWord 4 (reversed t []) len (AllBytes-reversed t [] h.1 tt)) (omega arith),
    )
  where
    length-words : length (words 4 (reversed t [])) + 1 ≡ 5
    length-words = unfold words in refl

bytes-value : (ws : List ℕ) → All IsWord ws → le_value (concat_map (le_bytes 8) ws) ≡ wide_value ws
unfolding wide_value le_value
bytes-value [] h = refl
bytes-value (w ∷ ws) h =
    le_value-append (le_bytes 8 w) (concat_map (le_bytes 8) ws)
    ∙ rw (length-le_bytes 8 w) (omega (arith, le_value-le_bytes 8 w h.0, bytes-value ws h.1))

-- Four words and a zero word, written back as bytes, keep their number.
pub to_target-value :
    (a b c d : ℕ)
    → All IsWord (a ∷ b ∷ c ∷ d ∷ [])
    → be_value (to_target (five a b c d 0)) ≡ wide_value (five a b c d 0)
unfolding to_target
to_target-value a b c d h =
    be_value-reversed (concat_map (le_bytes 8) (a ∷ b ∷ c ∷ d ∷ [])) []
    ∙ plain (bytes-value (a ∷ b ∷ c ∷ d ∷ []) h)
    ∙ unfold wide_value in refl
  where
    plain : {x y : ℕ} → x ≡ y → x * 256 ^ 0 + be_value [] ≡ y
    plain e = unfold be_value in omega arith

-- The comparison goes from the last word to the first.
lowest : (a b : ℕ) → (exceeds_words (a ∷ []) (b ∷ []) ≡ true) ↔ (b < a)
unfolding exceeds_words
lowest a b = ground arith

pub exceeds_iff :
    (a b c d e a' b' c' d' e' : ℕ)
    → All IsWord (five a b c d e)
    → All IsWord (five a' b' c' d' e')
    → (exceeds (five a b c d e) (five a' b' c' d' e') ≡ true)
      ↔ (wide_value (five a' b' c' d' e') < wide_value (five a b c d e))
unfolding exceeds exceeds_words reversed wide_value
exceeds_iff a b c d e a' b' c' d' e' h k =
    let two =
      first_digit b b' (2 ^ 64) a a' (exceeds_words (a ∷ []) (a' ∷ [])) h.0 k.0 (lowest a a') in
    let three =
      first_digit c c' (2 ^ 128) (b * 2 ^ 64 + a) (b' * 2 ^ 64 + a')
        (exceeds_words (b ∷ a ∷ []) (b' ∷ a' ∷ [])) (omega arith) (omega arith) two in
    let four =
      first_digit d d' (2 ^ 192) (c * 2 ^ 128 + (b * 2 ^ 64 + a))
        (c' * 2 ^ 128 + (b' * 2 ^ 64 + a')) (exceeds_words (c ∷ b ∷ a ∷ []) (c' ∷ b' ∷ a' ∷ []))
        (omega arith) (omega arith) three in
    let all =
      first_digit e e' (2 ^ 256) (d * 2 ^ 192 + (c * 2 ^ 128 + (b * 2 ^ 64 + a)))
        (d' * 2 ^ 192 + (c' * 2 ^ 128 + (b' * 2 ^ 64 + a')))
        (exceeds_words (d ∷ c ∷ b ∷ a ∷ []) (d' ∷ c' ∷ b' ∷ a' ∷ [])) (omega arith) (omega arith)
        four in
    (λ q. omega (arith, all.0 q), λ q. all.1 (omega arith))

same_test : (b : Bool) (x y : ℕ) → (b ≡ true) ↔ (x < y) → b ≡ ltb x y
same_test true x y i = ground (arith, i.0 refl)
same_test false x y i = elim (Bool-cases (ltb x y)) [
  | inl l ↦ absurd (not_both (i.1 (ltb→lt x y l)))
  | inr g ↦ sym g
]
  where
    not_both : false ≡ true → ⊥
    not_both e = cc

-- The comparison is one of numbers.
pub exceeds-eq :
    (w limit : Wide)
    → IsWide w
    → IsWide limit
    → exceeds w limit ≡ ltb (wide_value limit) (wide_value w)
exceeds-eq w limit h k =
    five_words (λ v. exceeds v limit ≡ ltb (wide_value limit) (wide_value v))
      (λ a b c d e g.
        five_words
          (λ u. exceeds (five a b c d e) u ≡ ltb (wide_value u) (wide_value (five a b c d e)))
          (λ a' b' c' d' e' g'.
            same_test (exceeds (five a b c d e) (five a' b' c' d' e'))
              (wide_value (five a' b' c' d' e')) (wide_value (five a b c d e))
              (exceeds_iff a b c d e a' b' c' d' e' g g'))
          limit k)
      w h

pub large_top : (a b c d e : ℕ) → 2 ^ 256 ≤ wide_value (five a b c d (suc e))
unfolding wide_value
large_top a b c d e = omega arith
