-- ===== src/Consensus/Asert/Factor.antt =====
-- `FractionFactor` does not wrap around.
use amarian_amr.Base.{ℕ, ◌+◌, ◌*◌, ◌/◌, ◌%◌, ◌^◌, ◌≤◌, ◌<◌, ◌≡◌, arith}
use native.Mathlib.Nat.{mul-le-mul}
use amarian_amr.Consensus.Asert.{radix, fraction_factor}

-- The cubic over numbers of any size.
abbrev pub cubic_factor : ℕ → ℕ
cubic_factor f =
    radix + (195766423245049 * f + 971821376 * (f * f) + 5127 * (f * f * f) + 2 ^ 47) / 2 ^ 48

square_le : (f : ℕ) → f < 65536 → f * f ≤ 65535 * 65535
square_le f h = mul-le-mul {n₁ = f} {m₁ = f} {n₂ = 65535} {m₂ = 65535} (omega arith) (omega arith)

cube_le : (f : ℕ) → f < 65536 → f * f * f ≤ 65535 * 65535 * 65535
cube_le f h =
    mul-le-mul {n₁ = f * f} {m₁ = f} {n₂ = 65535 * 65535} {m₂ = 65535} (square_le f h) (omega arith)

pub fraction_factor-exact : (f : ℕ) → f < radix → fraction_factor f ≡ cubic_factor f
unfolding fraction_factor
fraction_factor-exact f h =
    let s = square_le f h in
    let c = cube_le f h in
    let quadratic : 971821376 * f % 2 ^ 64 ≡ 971821376 * f = omega arith in
    let cubic : 5127 * f % 2 ^ 64 ≡ 5127 * f = omega arith in
    let cubic_square : 5127 * f * f % 2 ^ 64 ≡ 5127 * f * f = omega (arith, s) in
    rw (quadratic, cubic, cubic_square) (omega (arith, s, c))

pub cubic_factor-lt : (f : ℕ) → f < radix → cubic_factor f < 2 ^ 18
cubic_factor-lt f h = omega (arith, square_le f h, cube_le f h)
