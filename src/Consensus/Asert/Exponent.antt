-- ===== src/Consensus/Asert/Exponent.antt =====
-- The exponent of the schedule and its two parts: `AsertNextBits` of src/consensus/asert.cpp.
use native.Mathlib.Nat.{mul-le-mul_right}
use amarian_amr.Base.{ℕ, ◌*◌, ◌/◌, ◌^◌, ◌≤◌, ◌<◌, ◌≡◌, ap, ◌∙◌, arith}
use amarian_amr.Base.Int.{ℤ, pos, negsuc, ◌≤ℤ◌, ◌+ℤ◌, ◌-ℤ◌, ◌*ℤ◌, truncating_div}
use amarian_amr.Consensus.Asert.{
  radix, clamp, magnitude, with_sign, integer_shift, fraction, scaled_exponent, scaled_quotient,
}
use amarian_amr.Consensus.Asert.Quotient.{saturated, scaled_quotient-exact}

-- How far the tip is behind its schedule, in seconds.
abbrev pub deviation : ℤ → ℤ → ℕ → ℕ → ℤ
deviation anchor_time tip_time spacing height = tip_time -ℤ anchor_time -ℤ pos (spacing * height)

clamp-inside : (v low high : ℤ) → low ≤ℤ v → v ≤ℤ high → clamp v low high ≡ v
unfolding clamp
clamp-inside v low high h k = ground arith

-- A time within 2^61 seconds of the epoch is left as it is.
clamp-time : (t : ℤ) → magnitude t ≤ 2 ^ 61 → clamp t (pos 0 -ℤ pos (2 ^ 61)) (pos (2 ^ 61)) ≡ t
unfolding clamp ◌-ℤ◌
clamp-time (pos n) h = ground arith
clamp-time (negsuc n) h = ground arith

clamp-count : (n high : ℕ) → 1 ≤ n → n ≤ high → clamp (pos n) (pos 1) (pos high) ≡ pos n
clamp-count n high h k = clamp-inside (pos n) (pos 1) (pos high) (omega arith) (omega arith)

with_sign-div :
    (d : ℤ) (h : ℕ) → with_sign d (magnitude d * 2 ^ 16 / h) ≡ truncating_div (d *ℤ pos (2 ^ 16)) h
unfolding ◌*ℤ◌ ◌-ℤ◌
with_sign-div (pos m) h = ground arith
with_sign-div (negsuc m) h = ground arith

product-pos : (a b : ℕ) → pos a *ℤ pos b ≡ pos (a * b)
unfolding ◌*ℤ◌
product-pos a b = ground arith

-- The integer part rounds down, and the fraction makes up for it.
exponent_parts :
    (e : ℤ) → (integer_shift e *ℤ pos radix +ℤ pos (fraction e) ≡ e) × (fraction e < radix)
unfolding ◌*ℤ◌ ◌+ℤ◌
exponent_parts (pos n) = ground arith
exponent_parts (negsuc n) = ground arith

deviation-magnitude :
    (anchor_time tip_time : ℤ) (spacing height : ℕ)
    → magnitude anchor_time ≤ 2 ^ 61
    → magnitude tip_time ≤ 2 ^ 61
    → spacing ≤ 2 ^ 31
    → height ≤ 2 ^ 31
    → magnitude (deviation anchor_time tip_time spacing height) < 2 ^ 64
unfolding ◌-ℤ◌
deviation-magnitude a t spacing height ha ht hs hh =
    bounded a t (spacing * height) ha ht (omega (arith, mul-le-mul_right height hs))
  where
    bounded :
        (a t : ℤ) (p : ℕ)
        → magnitude a ≤ 2 ^ 61
        → magnitude t ≤ 2 ^ 61
        → p ≤ 2 ^ 62
        → magnitude (t -ℤ a -ℤ pos p) < 2 ^ 64
    bounded (pos a) (pos t) p ha ht hp = ground arith
    bounded (pos a) (negsuc t) p ha ht hp = ground arith
    bounded (negsuc a) (pos t) p ha ht hp = ground arith
    bounded (negsuc a) (negsuc t) p ha ht hp = ground arith

-- For times within 2^61 seconds of the epoch, a spacing and a height from 1 to 2^31 and a half-life from 1
-- to 2^62, of which the deviation from the schedule is below the documented saturation of 2^20: the
-- exponent is exactly the deviation times 2^16 over the half-life, truncated toward zero; its integer shift,
-- times 2^16, and its fraction add up to it, and the fraction is below 2^16.
pub scaled_exponent-exact :
    (anchor_time tip_time : ℤ) (spacing height half_life : ℕ)
    → magnitude anchor_time ≤ 2 ^ 61
    → magnitude tip_time ≤ 2 ^ 61
    → 1 ≤ spacing
    → spacing ≤ 2 ^ 31
    → 1 ≤ height
    → height ≤ 2 ^ 31
    → 1 ≤ half_life
    → half_life ≤ 2 ^ 62
    → magnitude (deviation anchor_time tip_time spacing height) * 2 ^ 16 / half_life < 2 ^ 20
    → (e : ℤ) × (scaled_exponent anchor_time (pos height) tip_time (pos spacing) (pos half_life)
        ≡ e)
      × (e
          ≡ truncating_div
              (deviation anchor_time tip_time spacing height *ℤ pos (2 ^ 16))
              half_life)
      × (integer_shift e *ℤ pos radix +ℤ pos (fraction e) ≡ e)
      × (fraction e < radix)
unfolding scaled_exponent
scaled_exponent-exact a t spacing height half_life ha ht s1 s2 h1 h2 l1 l2 small =
    let d = deviation a t spacing height in
    let exact : scaled_quotient (magnitude d) half_life ≡ magnitude d * 2 ^ 16 / half_life =
      scaled_quotient-exact (magnitude d) half_life
        (deviation-magnitude a t spacing height ha ht s2 h2) (omega arith) l2
      ∙ unsaturated (magnitude d * 2 ^ 16 / half_life) small in
    let e = with_sign d (scaled_quotient (magnitude d) half_life) in
    (
      e,
      rw (
        clamp-time a ha,
        clamp-time t ht,
        clamp-count spacing (2 ^ 31) s1 s2,
        clamp-count height (2 ^ 31) h1 h2,
        clamp-count half_life (2 ^ 62) l1 l2,
        product-pos spacing height,
      ),
      ap (with_sign d) exact ∙ with_sign-div d half_life,
      (exponent_parts e).0,
      (exponent_parts e).1,
    )
  where
    unsaturated : (q : ℕ) → q < 2 ^ 20 → saturated q ≡ q
    unsaturated q h = ground arith
