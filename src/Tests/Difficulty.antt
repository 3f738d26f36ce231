-- ===== src/Tests/Difficulty.antt =====
-- Retargeting and work on concrete targets.
use amarian_amr.Base.{
  ◌+◌, ◌-◌, ◌*◌, ◌/◌, ◌^◌, ◌<◌, ◌≡◌, refl, ◌∷◌, ◌++◌, replicate, ◌==◌, nat_eq, if◌then◌else◌, arith,
}
use Prim.Native.Nat.{min}
use amarian_amr.Base.Int.{ℤ, pos, leb_ℤ, ◌+ℤ◌, ◌-ℤ◌, ◌*ℤ◌, truncating_div}
use amarian_amr.Primitives.Hash.{IsHash}
use amarian_amr.Consensus.Target.{Target}
use amarian_amr.Consensus.Target.Meets.{be_value}
use amarian_amr.Consensus.Asert.{
  radix, magnitude, integer_shift, fraction, asert_target, scaled_exponent,
}
use amarian_amr.Consensus.Asert.Exponent.{deviation, scaled_exponent-exact}
use amarian_amr.Consensus.Asert.Exact.{asert_formula, smaller, asert_target-exact}
use amarian_amr.Consensus.Work.{Work, add, of_target}
use amarian_amr.Consensus.Work.Exact.{of_target-exact, add-saturates}
use amarian_amr.Tests.Data.{all_bytes-AllBytes}

-- The target of 0x1d00ffff.
abbrev easy : Target
easy = replicate 4 0 ++ 255 ∷ 255 ∷ replicate 26 0

abbrev hard : Target
hard = replicate 8 0 ++ 3 ∷ 7 ∷ replicate 22 0

abbrev much : Work
much = 255 ∷ replicate 31 254

easy-IsHash : IsHash easy
easy-IsHash = (refl, all_bytes-AllBytes easy refl)

hard-IsHash : IsHash hard
hard-IsHash = (refl, all_bytes-AllBytes hard refl)

much-IsHash : IsHash much
much-IsHash = (refl, all_bytes-AllBytes much refl)

asert_target-exact_example :
    be_value (asert_target hard (pos 1000) (pos 5) (pos 90_000) (pos 600) (pos 3600) easy) ≡ (
      if leb_ℤ (pos 5) (pos 0)
      then smaller (be_value hard) (be_value easy)
      else asert_formula
          (smaller (be_value hard) (be_value easy))
          (scaled_exponent (pos 1000) (pos 5) (pos 90_000) (pos 600) (pos 3600))
          (be_value easy))
asert_target-exact_example =
    asert_target-exact hard easy (pos 1000) (pos 5) (pos 90_000) (pos 600) (pos 3600) hard-IsHash
      easy-IsHash

-- A hundred blocks, far ahead of their schedule.
early : magnitude (deviation (pos 1000) (pos 2000) 600 100) * 2 ^ 16 / 172_800 < 2 ^ 20
unfolding ◌-ℤ◌
early = omega arith

scaled_exponent-exact_example :
    (e : ℤ) × (scaled_exponent (pos 1000) (pos 100) (pos 2000) (pos 600) (pos 172_800) ≡ e)
    × (e ≡ truncating_div (deviation (pos 1000) (pos 2000) 600 100 *ℤ pos (2 ^ 16)) 172_800)
    × (integer_shift e *ℤ pos radix +ℤ pos (fraction e) ≡ e)
    × (fraction e < radix)
scaled_exponent-exact_example =
    scaled_exponent-exact (pos 1000) (pos 2000) 600 100 172_800 (omega arith) (omega arith)
      (omega arith) (omega arith) (omega arith) (omega arith) (omega arith) (omega arith) early

of_target-exact_example :
    be_value (of_target easy) ≡ (if be_value easy == 0 then 0 else 2 ^ 256 / (be_value easy + 1))
of_target-exact_example = of_target-exact easy easy-IsHash

add-saturates_example : be_value (add much much) ≡ min (be_value much + be_value much) (2 ^ 256 - 1)
add-saturates_example = add-saturates much much much-IsHash much-IsHash
