-- ===== src/Tests/Hex.antt =====
-- Hexadecimal text of four bytes.
use amarian_amr.Base.{ℕ, ◌≡◌, refl, some, List, [], ◌∷◌, map}
use amarian_amr.Base.Bytes.{AllBytes}
use amarian_amr.Hex.{to_hex, from_hex, from_pairs, hex_val}
use amarian_amr.Hex.RoundTrip.{lower, from_hex-to_hex, from_hex_canonical}
use amarian_amr.Tests.Data.{all_bytes-AllBytes}

abbrev four : List ℕ
four = 0 ∷ 10 ∷ 0x9f ∷ 255 ∷ []

from_hex-to_hex_example : from_hex (to_hex four) ≡ some four
from_hex-to_hex_example = from_hex-to_hex four (all_bytes-AllBytes four refl)

-- "0A9f"
abbrev text : List ℕ
text = 48 ∷ 65 ∷ 57 ∷ 102 ∷ []

text-read : from_hex text ≡ some (10 ∷ 0x9f ∷ [])
unfolding from_hex from_pairs hex_val
text-read = refl

from_hex_canonical_example : AllBytes (10 ∷ 0x9f ∷ []) × (to_hex (10 ∷ 0x9f ∷ []) ≡ map lower text)
from_hex_canonical_example = from_hex_canonical text (10 ∷ 0x9f ∷ []) text-read
