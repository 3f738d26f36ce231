-- ===== src/Base/Bytes.antt =====
-- Bytes, and unsigned integers as bytes in little-endian order.
use Prim.Native.Nat.{ℕ, zero, suc, ◌+◌, ◌*◌, ◌/◌, ◌%◌, ◌^◌, ◌≤◌, ◌<◌}
use mathlib.Core.Path.{◌≡◌, refl, ap, ap₂}
use mathlib.Core.List.{List, [], ◌∷◌, ◌++◌}
use native.Mathlib.Nat.{pow-suc, pow-zero, one-mul, zero-add}
use native.Mathlib.Omega.{arith}
use amarian_amr.Base.Lists.{length, All, take, drop}

abbrev pub IsByte : ℕ → Type 0
IsByte b = b < 256

abbrev pub AllBytes : List ℕ → Type 0
AllBytes = All IsByte

-- The `n` lowest bytes of `v`, least significant first.
unfoldable pub le_bytes : ℕ → ℕ → List ℕ
le_bytes zero v = []
le_bytes (suc n) v = v % 256 ∷ le_bytes n (v / 256)

unfoldable pub le_value : List ℕ → ℕ
le_value [] = 0
le_value (b ∷ bs) = b + 256 * le_value bs

pub length-le_bytes : (n v : ℕ) → length (le_bytes n v) ≡ n
unfolding le_bytes
length-le_bytes zero v = refl
length-le_bytes (suc n) v = ap suc (length-le_bytes n (v / 256))

pub le_bytes-AllBytes : (n v : ℕ) → AllBytes (le_bytes n v)
unfolding le_bytes
le_bytes-AllBytes zero v = tt
le_bytes-AllBytes (suc n) v = (omega arith, le_bytes-AllBytes n (v / 256))

pub le_value-le_bytes : (n v : ℕ) → v < 256 ^ n → le_value (le_bytes n v) ≡ v
unfolding le_bytes le_value
le_value-le_bytes zero v h = omega arith
le_value-le_bytes (suc n) v h =
    omega (arith, le_value-le_bytes n (v / 256) (omega (arith, pow-suc 256 n)))

pub le_bytes-le_value : (bs : List ℕ) → AllBytes bs → le_bytes (length bs) (le_value bs) ≡ bs
unfolding le_bytes le_value
le_bytes-le_value [] h = refl
le_bytes-le_value (b ∷ bs) h = ap₂ ◌∷◌ (omega arith) (rw digit (le_bytes-le_value bs h.1))
  where
    digit : (b + 256 * le_value bs) / 256 ≡ le_value bs
    digit = omega arith

pub le_value-lt : (bs : List ℕ) → AllBytes bs → le_value bs < 256 ^ length bs
unfolding le_value
le_value-lt [] h = omega arith
le_value-lt (b ∷ bs) h = omega (arith, le_value-lt bs h.1, pow-suc 256 (length bs))

pub le_value-append :
    (xs ys : List ℕ) → le_value (xs ++ ys) ≡ le_value xs + 256 ^ length xs * le_value ys
unfolding le_value
le_value-append [] ys = simp (pow-zero, one-mul, zero-add)
le_value-append (x ∷ xs) ys =
    rw (pow-suc 256 (length xs)) (omega (arith, ap (λ (t : ℕ). 256 * t) (le_value-append xs ys)))

pub le_value-split :
    (k : ℕ) (xs : List ℕ)
    → k ≤ length xs
    → le_value xs ≡ le_value (take k xs) + 256 ^ k * le_value (drop k xs)
unfolding le_value
le_value-split zero xs h = simp (pow-zero, one-mul, zero-add)
le_value-split (suc k) [] h = absurd (omega arith)
le_value-split (suc k) (x ∷ xs) h =
    rw (pow-suc 256 k) (omega (arith, le_value-split k xs (omega arith)))
