-- ===== src/Consensus/Work/SingleBits.antt =====
-- The highest bit of a number of 32 bytes, and setting a bit that is clear.
use amarian_amr.Base.{
  ℕ, zero, suc, ◌+◌, ◌-◌, ◌*◌, ◌/◌, ◌%◌, ◌^◌, ◌≤◌, ◌<◌, ◌≡◌, refl, sym, ap, ◌∙◌, Bool, true, false,
  not, ◌&&◌, ◌||◌, List, [], ◌∷◌, ltb, leb, arith, length, ◌==◌, nat_eq, get_or, all_below,
  all_below-lt,
}
use Prim.Native.Nat.{bit_or}
use native.Mathlib.Nat.{
  pow-suc, mul_assoc, mul-add-div_right, mod-eq_of_lt, mul-le-mul_left, mul-div_cancel,
}
use amarian_amr.Base.Bytes.{AllBytes}
use amarian_amr.Base.Powers.{pow-add, pow-mul, pow_pos, quotient_unique}
use amarian_amr.Consensus.Target.{set}
use amarian_amr.Consensus.Target.Meets.{be_value, be_value-lt}
use amarian_amr.Consensus.Work.{bit_width, bit_length, set_bit}

-- The width of every byte, by evaluation.
width_fits : ℕ → Bool
width_fits b =
    b == 0
    || (leb 1 (bit_width 8 b)
        && (leb (2 ^ (bit_width 8 b - 1)) b
            && (ltb b (2 ^ bit_width 8 b) && leb (bit_width 8 b) 8)))

width_table : all_below 256 width_fits ≡ true
unfolding all_below width_fits bit_width
width_table = refl

bit_width-bounds :
    (b : ℕ)
    → suc b < 256
    → (1 ≤ bit_width 8 (suc b))
      × (2 ^ (bit_width 8 (suc b) - 1) ≤ suc b)
      × (suc b < 2 ^ bit_width 8 (suc b))
      × (bit_width 8 (suc b) ≤ 8)
unfolding width_fits
bit_width-bounds b h =
    read (suc b) (bit_width 8 (suc b)) (all_below-lt 256 width_fits (suc b) width_table h)
      (omega arith)
  where
    read :
        (b w : ℕ)
        → (b == 0 || (leb 1 w && (leb (2 ^ (w - 1)) b && (ltb b (2 ^ w) && leb w 8)))) ≡ true
        → 0 < b
        → (1 ≤ w) × (2 ^ (w - 1) ≤ b) × (b < 2 ^ w) × (w ≤ 8)
    read b w h l = (ground arith, ground arith, ground arith, ground arith)

-- The highest bit of the first byte is the highest of all.
top_byte :
    (b n w v : ℕ)
    → 1 ≤ w
    → 2 ^ (w - 1) ≤ b
    → b < 2 ^ w
    → w ≤ 8
    → v < 256 ^ n
    → (1 ≤ n * 8 + w)
      × (2 ^ (n * 8 + w - 1) ≤ b * 256 ^ n + v)
      × (b * 256 ^ n + v < 2 ^ (n * 8 + w))
      × (n * 8 + w ≤ 8 * suc n)
top_byte b n w v h l k m o = (omega arith, lower, upper, omega arith)
  where
    power : (x : ℕ) → 2 ^ (n * 8 + x) ≡ 256 ^ n * 2 ^ x
    power x =
        pow-add 2 (n * 8) x
        ∙ ap (λ (t : ℕ). t * 2 ^ x)
            (ap (λ (t : ℕ). 2 ^ t) {x = n * 8} {y = 8 * n} (omega arith) ∙ sym (pow-mul 2 8 n))

    lower : 2 ^ (n * 8 + w - 1) ≤ b * 256 ^ n + v
    lower = omega (
      arith,
      ap (λ (t : ℕ). 2 ^ t) {x = n * 8 + w - 1} {y = n * 8 + (w - 1)} (omega arith),
      power (w - 1),
      mul-le-mul_left (256 ^ n) l,
    )

    upper : b * 256 ^ n + v < 2 ^ (n * 8 + w)
    upper = omega (arith, power w, mul-le-mul_left (256 ^ n) k)

-- `BitLength` is one past the highest set bit of a number that is not zero.
pub bit_length-bounds :
    (xs : List ℕ)
    → AllBytes xs
    → 0 < be_value xs
    → (1 ≤ bit_length xs)
      × (2 ^ (bit_length xs - 1) ≤ be_value xs)
      × (be_value xs < 2 ^ bit_length xs)
      × (bit_length xs ≤ 8 * length xs)
unfolding bit_length be_value
bit_length-bounds [] h l = absurd (omega arith)
bit_length-bounds (zero ∷ xs) h l =
    let ih = bit_length-bounds xs h.1 (omega arith) in
    (ih.0, omega (arith, ih.1), omega (arith, ih.2), omega (arith, ih.3))
bit_length-bounds (suc b ∷ xs) h l =
    let width = bit_width-bounds b h.0 in
    rw (not_zero b) (
      top_byte (suc b) (length xs) (bit_width 8 (suc b)) (be_value xs) width.0 width.1 width.2
        width.3 (be_value-lt xs h.1))
  where
    not_zero : (b : ℕ) → (suc b == 0) ≡ false
    not_zero b = ground arith

-- Setting a clear bit of a byte adds its value, by evaluation.
set_fits : ℕ → ℕ → Bool
set_fits k b = not (b % 2 ^ suc k == 0) || bit_or b (2 ^ k) % 256 == b + 2 ^ k

set_table : all_below 8 (λ k. all_below 256 (set_fits k)) ≡ true
unfolding all_below set_fits
set_table = refl

set_byte : (k b : ℕ) → k < 8 → b < 256 → b % 2 ^ suc k ≡ 0 → bit_or b (2 ^ k) % 256 ≡ b + 2 ^ k
unfolding set_fits
set_byte k b h l e =
    read (b % 2 ^ suc k) (bit_or b (2 ^ k) % 256) (b + 2 ^ k)
      (all_below-lt 256 (set_fits k) b
        (all_below-lt 8 (λ k. all_below 256 (set_fits k)) k set_table h) l)
      e
  where
    read : (m x y : ℕ) → (not (m == 0) || x == y) ≡ true → m ≡ 0 → x ≡ y
    read m x y h e = ground arith

first : (x : ℕ) (xs : List ℕ) → length (x ∷ xs) - 1 - 0 ≡ length xs
first x xs = omega arith

later : (x : ℕ) (xs : List ℕ) (i : ℕ) → length (x ∷ xs) - 1 - suc i ≡ length xs - 1 - i
later x xs i = omega arith

-- A write of one byte, and the byte that stands there.
set-value :
    (xs : List ℕ) (i v : ℕ)
    → i < length xs
    → AllBytes xs
    → v < 256
    → (be_value (set xs i v) + get_or xs i 0 * 256 ^ (length xs - 1 - i)
        ≡ be_value xs + v * 256 ^ (length xs - 1 - i))
      × AllBytes (set xs i v)
      × (length (set xs i v) ≡ length xs)
      × (get_or xs i 0 < 256)
unfolding set be_value
set-value [] i v l h k = absurd (omega arith)
set-value (x ∷ xs) zero v l h k = (rw (first x xs) (omega arith), (k, h.1), refl, h.0)
set-value (x ∷ xs) (suc i) v l h k =
    let ih = set-value xs i v (omega arith) h.1 k in
    (rw (later x xs i, ih.2) (omega (arith, ih.0)), (h.0, ih.1), ap suc ih.2, ih.3)

byte_at :
    (xs : List ℕ) (i : ℕ)
    → i < length xs
    → AllBytes xs
    → be_value xs / 256 ^ (length xs - 1 - i) % 256 ≡ get_or xs i 0
unfolding be_value
byte_at [] i l h = absurd (omega arith)
byte_at (x ∷ xs) zero l h =
    rw
      (
        first x xs,
        quotient_unique (x * 256 ^ length xs + be_value xs) (256 ^ length xs) x (be_value xs)
            (omega arith) (be_value-lt xs h.1),
      )
      (mod-eq_of_lt h.0)
byte_at (x ∷ xs) (suc i) l h =
    rw (later x xs i)
      (low (pow_pos 256 (length xs - 1 - i) (omega arith)) ∙ byte_at xs i (omega arith) h.1)
  where
    weight : 256 ^ length xs ≡ 256 ^ suc i * 256 ^ (length xs - 1 - i)
    weight =
        ap (λ (t : ℕ). 256 ^ t) {x = length xs} {y = suc i + (length xs - 1 - i)} (omega arith)
        ∙ pow-add 256 (suc i) (length xs - 1 - i)

    low :
        0 < 256 ^ (length xs - 1 - i)
        → (x * 256 ^ length xs + be_value xs) / 256 ^ (length xs - 1 - i) % 256
          ≡ be_value xs / 256 ^ (length xs - 1 - i) % 256
    low h =
        ap (λ (t : ℕ). (t + be_value xs) / 256 ^ (length xs - 1 - i) % 256)
          (ap (λ (t : ℕ). x * t) weight
            ∙ sym (mul_assoc x (256 ^ suc i) (256 ^ (length xs - 1 - i))))
        ∙ ap (λ (t : ℕ). t % 256) (mul-add-div_right h (x * 256 ^ suc i) (be_value xs))
        ∙ omega (arith, ap (λ (t : ℕ). x * t) (pow-suc 256 i))

low_zero : (k c : ℕ) → k < 8 → c * 2 ^ suc k % 256 % 2 ^ suc k ≡ 0
low_zero zero c h = omega arith
low_zero (suc zero) c h = omega arith
low_zero (suc (suc zero)) c h = omega arith
low_zero (suc (suc (suc zero))) c h = omega arith
low_zero (suc (suc (suc (suc zero)))) c h = omega arith
low_zero (suc (suc (suc (suc (suc zero))))) c h = omega arith
low_zero (suc (suc (suc (suc (suc (suc zero)))))) c h = omega arith
low_zero (suc (suc (suc (suc (suc (suc (suc zero))))))) c h = omega arith
low_zero (suc (suc (suc (suc (suc (suc (suc (suc k)))))))) c h = absurd (omega arith)

-- A bit as a bit of a byte, by the weight of the byte.
bit_parts : (n : ℕ) → 2 ^ n ≡ 2 ^ (n % 8) * 256 ^ (n / 8)
bit_parts n =
    ap (λ (t : ℕ). 2 ^ t) {x = n} {y = n % 8 + 8 * (n / 8)} (omega arith)
    ∙ pow-add 2 (n % 8) (8 * (n / 8))
    ∙ ap (λ (t : ℕ). 2 ^ (n % 8) * t) (sym (pow-mul 2 8 (n / 8)))

-- Setting a bit below which every bit is clear adds its power of two.
pub set_bit-value :
    (xs : List ℕ) (index : ℕ)
    → length xs ≡ 32
    → AllBytes xs
    → index < 256
    → (c : ℕ) → be_value xs ≡ c * 2 ^ suc index
    → (be_value (set_bit xs index) ≡ be_value xs + 2 ^ index)
      × AllBytes (set_bit xs index)
      × (length (set_bit xs index) ≡ 32)
unfolding set_bit
set_bit-value xs index n h l c e =
    let written = set-value xs position byte (omega (arith, n)) h (omega arith) in
    (omega (arith, added), written.1, written.2 ∙ n)
  where
    k : ℕ
    k = index % 8

    position : ℕ
    position = 31 - index / 8

    old : ℕ
    old = get_or xs position 0

    byte : ℕ
    byte = bit_or old (2 ^ k) % 256

    weight : ℕ
    weight = 256 ^ (length xs - 1 - position)

    weight-eq : weight ≡ 256 ^ (index / 8)
    weight-eq =
        ap (λ (t : ℕ). 256 ^ t) {x = length xs - 1 - position} {y = index / 8} (omega (arith, n))

    divided : be_value xs ≡ c * 2 ^ suc k * weight
    divided = omega (
      arith,
      e,
      ap (λ (t : ℕ). c * t) (pow-suc 2 index),
      ap (λ (t : ℕ). c * t) (bit_parts index),
      ap (λ (t : ℕ). c * (2 ^ k * t)) weight-eq,
      ap (λ (t : ℕ). c * t * weight) (pow-suc 2 k),
    )

    old-eq : c * 2 ^ suc k % 256 ≡ old
    old-eq =
        ap (λ (t : ℕ). t % 256)
          (sym (
            ap (λ (t : ℕ). t / weight) divided
            ∙ mul-div_cancel (c * 2 ^ suc k)
                (pow_pos 256 (length xs - 1 - position) (omega arith))))
        ∙ byte_at xs position (omega (arith, n)) h

    byte-eq : byte ≡ old + 2 ^ k
    byte-eq =
        set_byte k old (omega arith) (omega (arith, old-eq))
          (ap (λ (t : ℕ). t % 2 ^ suc k) (sym old-eq) ∙ low_zero k c (omega arith))

    added : be_value (set xs position byte) ≡ be_value xs + 2 ^ index
    added = omega (
      arith,
      (set-value xs position byte (omega (arith, n)) h (omega arith)).0,
      ap (λ (t : ℕ). t * weight) byte-eq,
      ap (λ (t : ℕ). 2 ^ k * t) weight-eq,
      bit_parts index,
    )
