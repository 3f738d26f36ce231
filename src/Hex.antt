-- ===== src/Hex.antt =====
-- Hexadecimal text: src/util/hex.cpp. A text is the list of its characters' codes.
pub mod RoundTrip
use amarian_amr.Base.{
  ℕ, ◌+◌, ◌-◌, ◌*◌, ◌/◌, ◌%◌, Bool, true, false, not, ◌&&◌, Option, none, some, List, [], ◌∷◌,
  length, ltb, leb, if◌then◌else◌, ◌==◌, nat_eq,
}
use amarian_amr.Primitives.Hash.{Hash256, hash_size}

-- The character of `HEX_DIGITS` at a place: '0' to '9', then 'a' to 'f'.
unfoldable pub hex_digit : ℕ → ℕ
hex_digit n = if ltb n 10 then 48 + n else 87 + n

-- `HexVal`; `none` is -1.
unfoldable pub hex_val : ℕ → Option ℕ
hex_val c =
    if leb 48 c && leb c 57
    then some (c - 48)
    else if leb 97 c && leb c 102
    then some (c - 97 + 10)
    else if leb 65 c && leb c 70
    then some (c - 65 + 10)
    else none

unfoldable pub to_hex : List ℕ → List ℕ
to_hex [] = []
to_hex (byte ∷ bytes) = hex_digit (byte / 16) ∷ hex_digit (byte % 16) ∷ to_hex bytes

-- Both digits and the bytes behind them, or nothing.
abbrev pub and_byte : Option ℕ → Option ℕ → Option (List ℕ) → Option (List ℕ)
and_byte none lo rest = none
and_byte (some h) none rest = none
and_byte (some h) (some l) none = none
and_byte (some h) (some l) (some bytes) = some ((h * 16 + l) ∷ bytes)

unfoldable pub from_pairs : List ℕ → Option (List ℕ)
from_pairs [] = some []
from_pairs (hi ∷ []) = none
from_pairs (hi ∷ lo ∷ rest) = and_byte (hex_val hi) (hex_val lo) (from_pairs rest)

unfoldable pub from_hex : List ℕ → Option (List ℕ)
from_hex hex = if not (length hex % 2 == 0) then none else from_pairs hex

unfoldable pub from_hex_exact : List ℕ → ℕ → Option (List ℕ)
from_hex_exact hex expected_len =
    if not (length hex == expected_len * 2) then none else from_hex hex

unfoldable pub hash256_from_hex_internal : List ℕ → Option Hash256
hash256_from_hex_internal hex = from_hex_exact hex hash_size
