-- ===== src/Consensus/Target/Meets.antt =====
-- The comparison of a hash with a target is one of numbers.
use amarian_amr.Base.{
  ℕ, suc, ◌+◌, ◌*◌, ◌^◌, ◌≤◌, ◌<◌, not, ◌≡◌, ◌↔◌, refl, sym, ap, ◌∙◌, Bool, true, false, List, [],
  ◌∷◌, ltb, arith, length, if◌then◌else◌, ◌==◌, nat_eq, Bool-cases, inl, inr,
}
use native.Mathlib.Nat.{pow-suc}
use amarian_amr.Base.Bytes.{AllBytes, le_value}
use amarian_amr.Primitives.Hash.{Hash256, IsHash}
use amarian_amr.Consensus.Target.{Target, exceeds, reversed, hash_meets_target}

-- The number that bytes stand for, most significant first.
unfoldable pub be_value : List ℕ → ℕ
be_value [] = 0
be_value (b ∷ bs) = b * 256 ^ length bs + be_value bs

pub be_value-lt : (bs : List ℕ) → AllBytes bs → be_value bs < 256 ^ length bs
unfolding be_value
be_value-lt [] h = omega arith
be_value-lt (b ∷ bs) h = grind (arith, be_value-lt bs h.1, pow-suc 256 (length bs))

-- Of two numbers of equally many digits, the first digit that differs decides.
leading_digit : (a b p x y : ℕ) → x < p → y < p → a < b → a * p + x < b * p + y
leading_digit a b p x y h k l = grind arith

same_digit : (a p u v : ℕ) → (a * p + u < a * p + v) ↔ (u < v)
same_digit a p u v = (λ h. omega arith, λ h. omega arith)

pub first_digit :
    (x y p u v : ℕ) (tail : Bool)
    → u < p
    → v < p
    → (tail ≡ true) ↔ (v < u)
    → ((if x == y then tail else ltb y x) ≡ true) ↔ (y * p + v < x * p + u)
first_digit x y p u v tail h k i = elim (Bool-cases (x == y)) [
  | inl q ↦
      let same : x ≡ y = ground arith in
      rw (q, same) (λ e. (same_digit y p v u).1 (i.0 e), λ e. i.1 ((same_digit y p v u).0 e))
  | inr q ↦ rw q (lower, higher q)
]
  where
    lower : ltb y x ≡ true → y * p + v < x * p + u
    lower e = leading_digit y x p v u k h (ground arith)

    higher : (x == y) ≡ false → y * p + v < x * p + u → ltb y x ≡ true
    higher q e = elim (Bool-cases (ltb y x)) [
      | inl r ↦ r
      | inr r ↦ absurd (omega (arith, e, leading_digit x y p u v h k (ground arith)))
    ]

pub exceeds-lt :
    (xs ys : List ℕ)
    → length xs ≡ length ys
    → AllBytes xs
    → AllBytes ys
    → (exceeds xs ys ≡ true) ↔ (be_value ys < be_value xs)
unfolding exceeds be_value
exceeds-lt [] [] l h k = (λ e. cc, λ e. absurd (omega arith))
exceeds-lt [] (y ∷ ys) l h k = absurd (omega arith)
exceeds-lt (x ∷ xs) [] l h k = absurd (omega arith)
exceeds-lt (x ∷ xs) (y ∷ ys) l h k =
    let same : length xs ≡ length ys = omega arith in
    let u = be_value-lt xs h.1 in
    let v = be_value-lt ys k.1 in
    let w : 256 ^ length ys ≡ 256 ^ length xs = ap (λ n. 256 ^ n) (sym same) in
    rw w (
      first_digit x y (256 ^ length xs) (be_value xs) (be_value ys) (exceeds xs ys) u (rw (sym w) v)
        (exceeds-lt xs ys same h.1 k.1))

pub AllBytes-reversed : (bs acc : List ℕ) → AllBytes bs → AllBytes acc → AllBytes (reversed bs acc)
unfolding reversed
AllBytes-reversed [] acc h k = k
AllBytes-reversed (b ∷ bs) acc h k = AllBytes-reversed bs (b ∷ acc) h.1 (h.0, k)

pub length-reversed : (bs acc : List ℕ) → length (reversed bs acc) ≡ length bs + length acc
unfolding reversed
length-reversed [] acc = omega arith
length-reversed (b ∷ bs) acc = omega (arith, length-reversed bs (b ∷ acc))

spread : (b v p w : ℕ) → v * (p * 256) + (b * p + w) ≡ (b + 256 * v) * p + w
spread b v p w = omega arith

pub be_value-reversed :
    (bs acc : List ℕ) → be_value (reversed bs acc) ≡ le_value bs * 256 ^ length acc + be_value acc
unfolding reversed be_value le_value
be_value-reversed [] acc = omega arith
be_value-reversed (b ∷ bs) acc =
    be_value-reversed bs (b ∷ acc) ∙ regroup b (le_value bs) (length acc) (be_value acc)
  where
    regroup : (b v n w : ℕ) → v * 256 ^ suc n + (b * 256 ^ n + w) ≡ (b + 256 * v) * 256 ^ n + w
    regroup b v n w = rw (pow-suc 256 n) (spread b v (256 ^ n) w)

-- For a hash and a target of 32 bytes, `hash_meets_target` accepts exactly when the number that the hash
-- stands for, least significant byte first, is at most the target's, most significant byte first.
pub hash_meets_target_iff :
    (hash : Hash256) (target : Target)
    → IsHash hash
    → IsHash target
    → (hash_meets_target hash target ≡ true) ↔ (le_value hash ≤ be_value target)
unfolding hash_meets_target
hash_meets_target_iff hash target h k =
    let same : length (reversed hash []) ≡ length target =
      omega (arith, length-reversed hash [], h.0, k.0) in
    let i = exceeds-lt (reversed hash []) target same (AllBytes-reversed hash [] h.1 tt) k.1 in
    let value : be_value (reversed hash []) ≡ le_value hash =
      be_value-reversed hash [] ∙ unfold be_value in omega arith in
    (
      λ e. below (exceeds (reversed hash []) target) i value e,
      λ e. above (exceeds (reversed hash []) target) i value e,
    )
  where
    below :
        (t : Bool)
        → (t ≡ true) ↔ (be_value target < be_value (reversed hash []))
        → be_value (reversed hash []) ≡ le_value hash
        → not t ≡ true
        → le_value hash ≤ be_value target
    below true i v e = absurd (cc (e))
    below false i v e = ground (arith, i.1, v)

    above :
        (t : Bool)
        → (t ≡ true) ↔ (be_value target < be_value (reversed hash []))
        → be_value (reversed hash []) ≡ le_value hash
        → le_value hash ≤ be_value target
        → not t ≡ true
    above true i v e = absurd (omega (arith, i.0 refl, v, e))
    above false i v e = refl
