-- ===== src/Primitives/Amount.antt =====
-- Amounts: include/amarian/primitives/amount.hpp, and the checked sums of
-- include/amarian/util/overflow.hpp at `int64_t`.
use amarian_amr.Base.{
  ℕ, ◌+◌, ◌^◌, ◌≤◌, ◌≡◌, refl, Bool, true, ◌&&◌, Option, none, some, arith, ltb, if◌then◌else◌,
}
use amarian_amr.Base.Int.{ℤ, pos, negsuc, ◌+ℤ◌, leb_ℤ}
use amarian_amr.Wire.Integers.{IsI64}

abbrev pub max_money : ℕ
max_money = 83_999_999_932_170_000

unfoldable pub is_valid_amount : ℤ → Bool
is_valid_amount amount = leb_ℤ (pos 0) amount && leb_ℤ amount (pos max_money)

-- Whether an `int64_t` holds the value.
unfoldable pub in_i64 : ℤ → Bool
in_i64 (pos n) = ltb n (2 ^ 63)
in_i64 (negsuc n) = ltb n (2 ^ 63)

unfoldable pub checked_add : ℤ → ℤ → Option ℤ
checked_add a b = if in_i64 (a +ℤ b) then some (a +ℤ b) else none

-- `none` is the answer `false`, which leaves the accumulator alone.
unfoldable pub try_accumulate : ℤ → ℤ → Option ℤ
try_accumulate acc value = checked_add acc value

-- A valid amount is a number of at most `max_money` base units.
pub valid_amount-pos : (a : ℤ) → is_valid_amount a ≡ true → (n : ℕ) × (a ≡ pos n) × (n ≤ max_money)
unfolding is_valid_amount
valid_amount-pos (pos n) h = (n, refl, ground arith)
valid_amount-pos (negsuc n) h = absurd (ground arith)

pub valid_amount-IsI64 : (a : ℤ) → is_valid_amount a ≡ true → IsI64 a
unfolding is_valid_amount
valid_amount-IsI64 (pos n) h = ground arith
valid_amount-IsI64 (negsuc n) h = absurd (ground arith)

pub pos-valid_amount : (n : ℕ) → n ≤ max_money → is_valid_amount (pos n) ≡ true
unfolding is_valid_amount
pos-valid_amount n h = ground arith

-- Two valid amounts never overflow their sum.
pub checked_add-valid :
    (a b : ℕ) → a ≤ max_money → b ≤ max_money → checked_add (pos a) (pos b) ≡ some (pos (a + b))
unfolding checked_add in_i64 ◌+ℤ◌
checked_add-valid a b h k = ground arith

pub valid_pos-le : (n : ℕ) → is_valid_amount (pos n) ≡ true → n ≤ max_money
unfolding is_valid_amount
valid_pos-le n h = ground arith
