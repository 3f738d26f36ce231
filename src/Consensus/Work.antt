-- ===== src/Consensus/Work.antt =====
-- Accumulated work: include/amarian/consensus/work.hpp and src/consensus/work.cpp. A `Work` is 32 bytes,
-- most significant first, as a target is.
pub mod Bytes
pub mod Bits
pub mod SingleBits
pub mod Division
pub mod Exact
use amarian_amr.Base.{
  ℕ, zero, suc, ◌+◌, ◌-◌, ◌*◌, ◌/◌, ◌%◌, ◌^◌, Bool, true, false, not, ◌&&◌, Option, none, some,
  List, [], ◌∷◌, ◌++◌, ltb, leb, ◌==◌, nat_eq, list_eq, if◌then◌else◌, length, get_or, replicate,
  drop, map,
}
use Prim.Native.Nat.{bit_or}
use amarian_amr.Base.Bytes.{le_bytes}
use amarian_amr.Consensus.Target.{Target, set, exceeds, reversed, compact_to_target}

abbrev pub Work : Type 0
Work = List ℕ

abbrev pub work_bytes : ℕ
work_bytes = 32

abbrev pub bit_count : ℕ
bit_count = 256

abbrev pub no_work : Work
no_work = replicate work_bytes 0

unfoldable pub from_u64 : ℕ → Work
unfolding le_bytes reversed
from_u64 value = replicate 24 0 ++ reversed (le_bytes 8 value) []

-- Bit `index`, counting 0 as the least significant.
unfoldable pub set_bit : List ℕ → ℕ → List ℕ
unfolding set
set_bit value index =
    let position = work_bytes - 1 - index / 8 in
    set value position (bit_or (get_or value position 0) (2 ^ (index % 8)) % 256)

-- `std::bit_width` of a byte.
unfoldable pub bit_width : ℕ → ℕ → ℕ
bit_width zero v = 0
bit_width (suc fuel) v = if v == 0 then 0 else suc (bit_width fuel (v / 2))

-- One past the highest set bit, or 0 for zero.
unfoldable pub bit_length : List ℕ → ℕ
bit_length [] = 0
bit_length (b ∷ bs) = if b == 0 then bit_length bs else length bs * 8 + bit_width 8 b

-- The bytes moved by less than a byte, each with what the byte behind it hands up. An or of bytes with no
-- bit in common is written as their sum.
unfoldable pub shift_bits : ℕ → List ℕ → List ℕ
shift_bits bit_shift [] = []
shift_bits bit_shift (x ∷ []) = x * 2 ^ bit_shift % 256 ∷ []
shift_bits bit_shift (x ∷ y ∷ ys) =
    (if bit_shift == 0 then x * 2 ^ bit_shift else x * 2 ^ bit_shift + y / 2 ^ (8 - bit_shift))
      % 256
    ∷ shift_bits bit_shift (y ∷ ys)

unfoldable pub shift_left : List ℕ → ℕ → List ℕ
unfolding shift_bits
shift_left value shift =
    if shift == 0
    then value
    else if leb bit_count shift
    then replicate work_bytes 0
    else shift_bits (shift % 8) (drop (shift / 8) value) ++ replicate (shift / 8) 0

-- From the last byte to the first, with the borrow out of the first.
unfoldable pub subtract_bytes : List ℕ → List ℕ → List ℕ × ℕ
subtract_bytes [] ss = ([], 0)
subtract_bytes (m ∷ ms) [] = (m ∷ ms, 0)
subtract_bytes (m ∷ ms) (s ∷ ss) =
    let (rest, below) = subtract_bytes ms ss in
    let right = s + below in
    let borrow : ℕ = if ltb m right then 1 else 0 in
    ((m + borrow * 256 - right) % 256 ∷ rest, borrow)

unfoldable pub subtract : List ℕ → List ℕ → List ℕ
unfolding subtract_bytes
subtract minuend subtrahend = (subtract_bytes minuend subtrahend).0

-- The addition of one, from the last byte on, and whether it carried out of the first.
unfoldable pub increment : List ℕ → List ℕ × Bool
increment [] = ([], true)
increment (b ∷ bs) =
    let (rest, carried) = increment bs in
    if carried then ((b + 1) % 256 ∷ rest, b == 255) else (b ∷ rest, false)

abbrev pub complement : List ℕ → List ℕ
complement = map (λ b. 255 - b)

-- Restoring long division: the rounds for the shifts below `shifts`.
unfoldable pub divide_loop : List ℕ → ℕ → List ℕ → List ℕ → List ℕ
divide_loop divisor zero remainder quotient = quotient
divide_loop divisor (suc shift) remainder quotient =
    let aligned = shift_left divisor shift in
    let fits = not (exceeds aligned remainder) in
    divide_loop divisor shift (if fits then subtract remainder aligned else remainder)
      (if fits then set_bit quotient shift else quotient)

unfoldable pub divide : List ℕ → List ℕ → List ℕ
unfolding divide_loop bit_length
divide dividend divisor =
    let dividend_bits = bit_length dividend in
    let divisor_bits = bit_length divisor in
    if leb divisor_bits dividend_bits
    then divide_loop divisor (dividend_bits - divisor_bits + 1) dividend (replicate work_bytes 0)
    else replicate work_bytes 0

-- The sum of the bytes from the last on, and the carry out of the first.
unfoldable pub add_bytes : List ℕ → List ℕ → List ℕ × ℕ
add_bytes [] bs = ([], 0)
add_bytes (a ∷ as') [] = (a ∷ as', 0)
add_bytes (a ∷ as') (b ∷ bs) =
    let (rest, carry) = add_bytes as' bs in let sum = a + b + carry in (sum % 256 ∷ rest, sum / 256)

-- `operator+=`.
unfoldable pub add : Work → Work → Work
unfolding add_bytes
add first second =
    let (sum, carry) = add_bytes first second in
    if carry == 0 then sum else replicate work_bytes 255

-- `operator<=>` of the byte arrays: `first > second`.
unfoldable pub more_work : Work → Work → Bool
unfolding exceeds
more_work first second = exceeds first second

unfoldable pub of_target : Target → Work
unfolding divide
of_target target =
    if target == replicate work_bytes 0
    then no_work
    else (let (divisor, carried) = increment target in
        if carried then from_u64 1 else add (divide (complement target) divisor) (from_u64 1))

abbrev pub of_decoded : Option Target → Work
of_decoded none = no_work
of_decoded (some target) = of_target target

unfoldable pub of_compact_target : ℕ → Work
unfolding of_target compact_to_target
of_compact_target bits = of_decoded (compact_to_target bits)
