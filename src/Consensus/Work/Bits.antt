-- ===== src/Consensus/Work/Bits.antt =====
-- Shifts, bit lengths and single bits of `Work` as powers of two.
use amarian_amr.Base.{
  ℕ, zero, suc, ◌+◌, ◌-◌, ◌*◌, ◌/◌, ◌%◌, ◌^◌, ◌≤◌, ◌<◌, ◌≡◌, refl, sym, ap, subst, ◌∙◌, false, List,
  [], ◌∷◌, ◌++◌, leb, arith, length, length-append, if◌then◌else◌, ◌==◌, nat_eq, All-append,
  All-drop, replicate, drop, Bool-cases, inl, inr,
}
use native.Mathlib.Nat.{
  pow-suc, mul-one, lt_of_mul-lt-mul_right, le-mul_of_pos_right, pow-le-pow_right, zero-div,
  mul_comm, div-add-mod,
}
use amarian_amr.Base.Bytes.{AllBytes, IsByte}
use amarian_amr.Base.Powers.{pow-add, pow-mul, pow_pos, parts_below}
use amarian_amr.Consensus.Target.Meets.{be_value}
use amarian_amr.Consensus.Work.{shift_bits, shift_left}

abbrev head_byte : List ℕ → ℕ
head_byte [] = 0
head_byte (x ∷ xs) = x

-- A byte shifted left, with what the byte behind it hands up.
shifted_byte :
    (x y p q : ℕ)
    → p * q ≡ 256
    → 0 < p
    → 0 < q
    → y < 256
    → (x * p + y / q) % 256 + 256 * (x / q) ≡ x * p + y / q
shifted_byte x y p q e h k l = omega (arith, split, below)
  where
    split : x * p + y / q ≡ 256 * (x / q) + (y / q + x % q * p)
    split = omega (arith, ap (λ (t : ℕ). t * p) (div-add-mod x q), ap (λ (t : ℕ). t * (x / q)) e)

    below : y / q + x % q * p < 256
    below = parts_below y x q p 256 (mul_comm q p ∙ e) k l

shift_column :
    (w x p c d y v m : ℕ)
    → w + 256 * c ≡ x * p + d
    → v + m * d ≡ y * p
    → w * m + v + m * 256 * c ≡ (x * m + y) * p
shift_column w x p c d y v m e h = omega (arith, h, ap (λ (t : ℕ). t * m) e)

power_of_byte : (k : ℕ) → k < 8 → 2 ^ k * 2 ^ (8 - k) ≡ 256
power_of_byte k h =
    sym (pow-add 2 k (8 - k)) ∙ ap (λ (t : ℕ). 2 ^ t) {x = k + (8 - k)} {y = 8} (omega arith)

-- A shift by no bits hands nothing up.
nothing_up :
    (k x y : ℕ)
    → y < 256
    → (if k == 0 then x * 2 ^ k else x * 2 ^ k + y / 2 ^ (8 - k)) ≡ x * 2 ^ k + y / 2 ^ (8 - k)
nothing_up zero x y h = omega arith
nothing_up (suc k) x y h = ground arith

-- The bytes shifted left within themselves, and the bits lost at the front.
shift_bits-value :
    (k : ℕ) (xs : List ℕ)
    → k < 8
    → AllBytes xs
    → (be_value (shift_bits k xs) + 256 ^ length xs * (head_byte xs / 2 ^ (8 - k))
        ≡ be_value xs * 2 ^ k)
      × AllBytes (shift_bits k xs)
      × (length (shift_bits k xs) ≡ length xs)
unfolding shift_bits be_value
shift_bits-value k [] l h = (omega (arith, nothing), tt, refl)
  where
    nothing : 0 / 2 ^ (8 - k) ≡ 0
    nothing = zero-div (2 ^ (8 - k))
shift_bits-value k (x ∷ []) l h = (omega (arith, last), (omega arith, tt), refl)
  where
    last :
        (x * 2 ^ k + 0 / 2 ^ (8 - k)) % 256 + 256 * (x / 2 ^ (8 - k)) ≡ x * 2 ^ k + 0 / 2 ^ (8 - k)
    last =
        shifted_byte x 0 (2 ^ k) (2 ^ (8 - k)) (power_of_byte k l) (pow_pos 2 k (omega arith))
          (pow_pos 2 (8 - k) (omega arith)) (omega arith)
shift_bits-value k (x ∷ y ∷ ys) l h =
    let ih = shift_bits-value k (y ∷ ys) l h.1 in
    rw (nothing_up k x y h.1.0) (
      rw (ih.2, pow-suc 256 (suc (length ys)))
          (shift_column ((x * 2 ^ k + y / 2 ^ (8 - k)) % 256) x (2 ^ k) (x / 2 ^ (8 - k))
            (y / 2 ^ (8 - k)) (be_value (y ∷ ys)) (be_value (shift_bits k (y ∷ ys)))
            (256 ^ suc (length ys))
            (shifted_byte x y (2 ^ k) (2 ^ (8 - k)) (power_of_byte k l) (pow_pos 2 k (omega arith))
              (pow_pos 2 (8 - k) (omega arith)) h.1.0)
            ih.0),
      (omega arith, ih.1),
      ap suc ih.2,
    )

-- What stays of a number when bytes are taken off its front.
be_value-drop :
    (k : ℕ) (xs : List ℕ)
    → k ≤ length xs
    → AllBytes xs
    → be_value xs < 256 ^ (length xs - k)
    → be_value (drop k xs) ≡ be_value xs
unfolding be_value
be_value-drop zero xs l h b = refl
be_value-drop (suc k) [] l h b = absurd (omega arith)
be_value-drop (suc k) (zero ∷ xs) l h b =
    be_value-drop k xs (omega arith) h.1 (
      subst (λ t. be_value xs < 256 ^ t) {x = suc (length xs) - suc k} {y = length xs - k}
        (omega arith) (omega arith))
    ∙ omega arith
be_value-drop (suc k) (suc x ∷ xs) l h b = absurd (
    omega (
      arith,
      pow-le-pow_right {n = 256} (omega arith) {i = suc (length xs) - suc k} {j = length xs}
          (omega arith),
    ))

be_value-append :
    (xs ys : List ℕ) → be_value (xs ++ ys) ≡ be_value xs * 256 ^ length ys + be_value ys
unfolding be_value
be_value-append [] ys = omega arith
be_value-append (x ∷ xs) ys =
    rw (length-append xs ys, pow-add 256 (length xs) (length ys))
      (omega (arith, be_value-append xs ys))

pub zeros-value :
    (n : ℕ)
    → (be_value (replicate n 0) ≡ 0)
      × (length {A = ℕ} (replicate n 0) ≡ n)
      × AllBytes (replicate n 0)
unfolding be_value
zeros-value zero = (refl, refl, tt)
zeros-value (suc n) =
    let ih = zeros-value n in (omega (arith, ih.0), ap suc ih.1, (omega arith, ih.2))

length-drop : (k : ℕ) (xs : List ℕ) → length (drop k xs) ≡ length xs - k
length-drop zero xs = omega arith
length-drop (suc k) [] = omega arith
length-drop (suc k) (x ∷ xs) = omega (arith, length-drop k xs)

-- A number below `m * q` has no bits to lose.
no_loss : (v w m c p : ℕ) → w + m * c ≡ v * p → v * p < m → w ≡ v * p
no_loss v w m zero p e h = omega (arith, e)
no_loss v w m (suc c) p e h = absurd (omega (arith, e))

-- The whole bytes of a shift and the bits that are left.
shift_parts : (n : ℕ) → 2 ^ n ≡ 2 ^ (n % 8) * 256 ^ (n / 8)
shift_parts n =
    ap (λ (t : ℕ). 2 ^ t) {x = n} {y = n % 8 + 8 * (n / 8)} (omega arith)
    ∙ pow-add 2 (n % 8) (8 * (n / 8))
    ∙ ap (λ (t : ℕ). 2 ^ (n % 8) * t) (sym (pow-mul 2 8 (n / 8)))

module _ (v : List ℕ) (bytes bits : ℕ) (n : length v ≡ 32) (h : AllBytes v) (l : bytes < 32)
    (k : bits < 8) (b : be_value v * (2 ^ bits * 256 ^ bytes) < 2 ^ 256) where
  fits : be_value v * 2 ^ bits < 256 ^ (32 - bytes)
  fits =
      lt_of_mul-lt-mul_right (256 ^ bytes)
        (subst (λ t. be_value v * 2 ^ bits * 256 ^ bytes < t) whole (omega (arith, b)))
    where
      whole : 2 ^ 256 ≡ 256 ^ (32 - bytes) * 256 ^ bytes
      whole =
          ap (λ (t : ℕ). 256 ^ t) {x = 32} {y = 32 - bytes + bytes} (omega arith)
          ∙ pow-add 256 (32 - bytes) bytes

  kept : List ℕ
  kept = drop bytes v

  length-kept : length kept ≡ 32 - bytes
  unfolding kept
  length-kept = length-drop bytes v ∙ omega arith

  kept-value : be_value kept ≡ be_value v
  unfolding kept
  kept-value = be_value-drop bytes v (omega arith) h (
      subst (λ t. be_value v < 256 ^ (t - bytes)) (sym n)
        (omega (arith, fits, le-mul_of_pos_right (be_value v) (pow_pos 2 bits (omega arith)))))

  kept-AllBytes : AllBytes kept
  unfolding kept
  kept-AllBytes = All-drop IsByte bytes v h

  moved-value : be_value (shift_bits bits kept) ≡ be_value v * 2 ^ bits
  moved-value =
      no_loss (be_value v) (be_value (shift_bits bits kept)) (256 ^ (32 - bytes))
        (head_byte kept / 2 ^ (8 - bits)) (2 ^ bits)
        (subst
          (λ t.
            be_value (shift_bits bits kept) + 256 ^ t * (head_byte kept / 2 ^ (8 - bits))
            ≡ be_value v * 2 ^ bits)
          length-kept
          ((shift_bits-value bits kept k kept-AllBytes).0
            ∙ ap (λ (t : ℕ). t * 2 ^ bits) kept-value))
        fits

  shifted-value :
      (be_value (shift_bits bits (drop bytes v) ++ replicate bytes 0)
        ≡ be_value v * (2 ^ bits * 256 ^ bytes))
      × AllBytes (shift_bits bits (drop bytes v) ++ replicate bytes 0)
      × (length (shift_bits bits (drop bytes v) ++ replicate bytes 0) ≡ 32)
  unfolding kept
  shifted-value =
      let zeros = zeros-value bytes in
      let moved = shift_bits-value bits kept k kept-AllBytes in
      (
        be_value-append (shift_bits bits kept) (replicate bytes 0)
            ∙ rw (zeros.0, zeros.1, moved-value) (omega arith),
        All-append IsByte (shift_bits bits kept) (replicate bytes 0) moved.1 zeros.2,
        omega (
          arith,
          length-append (shift_bits bits kept) (replicate bytes 0),
          moved.2,
          length-kept,
          zeros.1,
        ),
      )

-- Where the product fits into 32 bytes, `ShiftLeft` is multiplication by a power of two.
pub shift_left-value :
    (v : List ℕ) (shift : ℕ)
    → length v ≡ 32
    → AllBytes v
    → shift < 256
    → be_value v * 2 ^ shift < 2 ^ 256
    → (be_value (shift_left v shift) ≡ be_value v * 2 ^ shift)
      × AllBytes (shift_left v shift)
      × (length (shift_left v shift) ≡ 32)
unfolding shift_left
shift_left-value v shift n h l b = elim (Bool-cases (shift == 0)) [
  | inl z ↦ rw z (
    sym (
        ap (λ (t : ℕ). be_value v * 2 ^ t) {x = shift} {y = 0} (ground arith)
        ∙ mul-one (be_value v)),
    h,
    n,
  )
  | inr f ↦
      rw (f, near, shift_parts shift)
        (shifted-value v (shift / 8) (shift % 8) n h (omega arith) (omega arith)
          (rw (shift_parts shift) at b))
]
  where
    near : leb 256 shift ≡ false
    near = ground arith
