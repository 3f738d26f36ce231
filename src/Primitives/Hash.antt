-- ===== src/Primitives/Hash.antt =====
-- `Hash256` of include/amarian/util/types.hpp: 32 bytes.
use amarian_amr.Base.{ℕ, ◌≡◌, Bool, true, List, [], ◌∷◌, ◌&&◌, length, ◌==◌, nat_eq}
use amarian_amr.Base.Bytes.{AllBytes}
use amarian_amr.Wire.{Read, consume}
use amarian_amr.Wire.Codec.{IsCodec, raw-IsCodec}

abbrev pub Hash256 : Type 0
Hash256 = List ℕ

abbrev pub hash_size : ℕ
hash_size = 32

abbrev pub IsHash : Hash256 → Type 0
IsHash h = (length h ≡ hash_size) × AllBytes h

unfoldable pub is_zero : Hash256 → Bool
is_zero [] = true
is_zero (b ∷ bs) = b == 0 && is_zero bs

unfoldable pub read_hash256 : Read Hash256
read_hash256 = consume hash_size

abbrev pub write_hash256 : Hash256 → List ℕ
write_hash256 h = h

pub IsHash-IsCodec : IsCodec read_hash256 write_hash256 IsHash
unfolding read_hash256
IsHash-IsCodec = raw-IsCodec 32
