-- ===== src/Base/Powers.antt =====
-- Powers and quotients of native numbers.
use Prim.Native.Nat.{ℕ, zero, suc, ◌+◌, ◌*◌, ◌/◌, ◌%◌, ◌^◌, ◌<◌}
use mathlib.Core.Path.{◌≡◌, sym, ap, ◌∙◌}
use native.Mathlib.Nat.{
  pow-suc, pow-zero, mul-zero, mul-one, mul_assoc, add-suc, add-zero, one-le-pow, div-eq_of_lt-le,
  mul-suc, div-lt_iff_lt-mul, mul-le-mul_right, mod-lt,
}
use native.Mathlib.Omega.{arith}

pub pow-add : (b n m : ℕ) → b ^ (n + m) ≡ b ^ n * b ^ m
pow-add b n zero = simp (add-zero, pow-zero, mul-one)
pow-add b n (suc m) =
    ap (λ (t : ℕ). b ^ t) (add-suc n m)
    ∙ pow-suc b (n + m)
    ∙ ap (λ (t : ℕ). t * b) (pow-add b n m)
    ∙ mul_assoc (b ^ n) (b ^ m) b
    ∙ ap (λ (t : ℕ). b ^ n * t) (sym (pow-suc b m))

pub pow-mul : (b n m : ℕ) → (b ^ n) ^ m ≡ b ^ (n * m)
pow-mul b n zero = simp (mul-zero, pow-zero)
pow-mul b n (suc m) =
    pow-suc (b ^ n) m
    ∙ ap (λ (t : ℕ). t * b ^ n) (pow-mul b n m)
    ∙ sym (pow-add b (n * m) n)
    ∙ ap (λ (t : ℕ). b ^ t) (sym (mul-suc n m))

pub pow_pos : (b n : ℕ) → 0 < b → 0 < b ^ n
pow_pos b n h = one-le-pow n b h

-- A quotient and a remainder are known by their equation.
pub quotient_unique : (v p w r : ℕ) → v ≡ p * w + r → r < p → v / p ≡ w
quotient_unique v p w r e h = div-eq_of_lt-le p (omega arith) (omega (arith, e))

-- Two parts of a product, each below its share.
pub parts_below : (x y p q m : ℕ) → p * q ≡ m → 0 < p → x < m → x / p + y % p * q < m
parts_below x y p q m e h k =
    let high : x / p < q = (div-lt_iff_lt-mul h).1 (omega (arith, e)) in
    let low = mul-le-mul_right q (mod-lt y h) in omega (arith, e, high, low)
