-- ===== src/Hex/RoundTrip.antt =====
-- Bytes written as text are read back, and a text that is read is the bytes' own but for its case.
use amarian_amr.Base.{
  ℕ, ◌+◌, ◌*◌, ◌/◌, ◌%◌, ◌<◌, ◌≡◌, refl, subst, ap, ap₂, ◌∙◌, true, ◌&&◌, Option, none, some, List,
  [], ◌∷◌, map, arith, length, leb, if◌then◌else◌, ◌==◌, nat_eq, Bool-cases, inl, inr,
}
use amarian_amr.Base.Bytes.{AllBytes}
use amarian_amr.Hex.{hex_digit, hex_val, to_hex, and_byte, from_pairs, from_hex}

hex_val-hex_digit : (n : ℕ) → n < 16 → hex_val (hex_digit n) ≡ some n
unfolding hex_val hex_digit
hex_val-hex_digit n h = ground arith

length-to_hex : (bytes : List ℕ) → length (to_hex bytes) ≡ length bytes * 2
unfolding to_hex
length-to_hex [] = refl
length-to_hex (b ∷ bs) = omega (arith, length-to_hex bs)

from_pairs-to_hex : (bytes : List ℕ) → AllBytes bytes → from_pairs (to_hex bytes) ≡ some bytes
unfolding from_pairs to_hex
from_pairs-to_hex [] h = refl
from_pairs-to_hex (b ∷ bs) h =
    rw
      (
        hex_val-hex_digit (b / 16) (omega (arith, h.0)),
        hex_val-hex_digit (b % 16) (omega arith),
        from_pairs-to_hex bs h.1,
      )
      (ap (λ z. some (z ∷ bs)) (omega arith))

-- Numbers below 256 written by `to_hex` are read back by `from_hex` as themselves.
pub from_hex-to_hex : (bytes : List ℕ) → AllBytes bytes → from_hex (to_hex bytes) ≡ some bytes
unfolding from_hex
from_hex-to_hex bytes h = rw even (from_pairs-to_hex bytes h)
  where
    even : (length (to_hex bytes) % 2 == 0) ≡ true
    even = rw (length-to_hex bytes) (ground arith)

-- A character in lower case.
unfoldable pub lower : ℕ → ℕ
lower c = if leb 65 c && leb c 90 then c + 32 else c

hex_val-some : (c v : ℕ) → hex_val c ≡ some v → (v < 16) × (hex_digit v ≡ lower c)
unfolding hex_val hex_digit lower
hex_val-some c v h = ground arith

and_byte-eq_some :
    (hi lo : Option ℕ) (rest : Option (List ℕ)) (bytes : List ℕ)
    → and_byte hi lo rest ≡ some bytes
    → (h l : ℕ) × (bs : List ℕ) × (hi ≡ some h)
      × (lo ≡ some l)
      × (rest ≡ some bs)
      × ((h * 16 + l) ∷ bs ≡ bytes)
and_byte-eq_some none lo rest bytes e = absurd (cc (e))
and_byte-eq_some (some h) none rest bytes e = absurd (cc (e))
and_byte-eq_some (some h) (some l) none bytes e = absurd (cc (e))
and_byte-eq_some (some h) (some l) (some bs) bytes e = (h, l, bs, refl, refl, refl, cc (e))

-- The bytes are bytes, and their text is this one in lower case.
Spells : List ℕ → List ℕ → Type 0
Spells hex bytes = AllBytes bytes × (to_hex bytes ≡ map lower hex)

Spells-cons :
    (hi lo h l : ℕ) (rest bs : List ℕ)
    → hex_val hi ≡ some h
    → hex_val lo ≡ some l
    → Spells rest bs
    → Spells (hi ∷ lo ∷ rest) ((h * 16 + l) ∷ bs)
unfolding Spells to_hex
Spells-cons hi lo h l rest bs p q s =
    let u = hex_val-some hi h p in
    let v = hex_val-some lo l q in
    let high : (h * 16 + l) / 16 ≡ h = omega (arith, v.0) in
    let low : (h * 16 + l) % 16 ≡ l = omega (arith, v.0) in
    (
      (omega (arith, u.0, v.0), s.0),
      ap₂ ◌∷◌ (ap hex_digit high ∙ u.1) (ap₂ ◌∷◌ (ap hex_digit low ∙ v.1) s.1),
    )

from_pairs-Spells : (hex bytes : List ℕ) → from_pairs hex ≡ some bytes → Spells hex bytes
unfolding from_pairs
from_pairs-Spells [] bytes e =
    let none_left : [] ≡ bytes = cc (e) in
    subst (Spells []) none_left (unfold Spells to_hex in (tt, refl))
from_pairs-Spells (hi ∷ []) bytes e = absurd (cc (e))
from_pairs-Spells (hi ∷ lo ∷ rest) bytes e =
    let q = and_byte-eq_some (hex_val hi) (hex_val lo) (from_pairs rest) bytes e in
    subst (Spells (hi ∷ lo ∷ rest)) q.6
      (Spells-cons hi lo q.0 q.1 rest q.2 q.3 q.4 (from_pairs-Spells rest q.2 q.5))

-- Whatever text is read as bytes has only bytes for its value, and in lower case it is the text that
-- `to_hex` writes for them.
pub from_hex_canonical :
    (hex bytes : List ℕ)
    → from_hex hex ≡ some bytes
    → AllBytes bytes × (to_hex bytes ≡ map lower hex)
unfolding from_hex Spells
from_hex_canonical hex bytes e = elim (Bool-cases (length hex % 2 == 0)) [
  | inl q ↦ from_pairs-Spells hex bytes (rw q at e)
  | inr q ↦ absurd (cc (rw q at e))
]
