-- ===== src/Consensus/Work/Bytes.antt =====
-- The byte loops of `Work` as arithmetic on the numbers that the bytes stand for.
use amarian_amr.Base.{
  ℕ, suc, ◌+◌, ◌-◌, ◌*◌, ◌/◌, ◌%◌, ◌^◌, ◌≤◌, ◌<◌, ◌≡◌, refl, ap, Bool, true, false, List, [], ◌∷◌,
  ltb, arith, length, if◌then◌else◌, ◌==◌, nat_eq, Bool-cases, inl, inr,
}
use native.Mathlib.Nat.{pow-suc}
use amarian_amr.Base.Bytes.{AllBytes}
use amarian_amr.Consensus.Target.Meets.{be_value}
use amarian_amr.Consensus.Work.{add_bytes, subtract_bytes, increment, complement}

abbrev pub bit_of : Bool → ℕ
bit_of true = 1
bit_of false = 0

-- One column of a sum: `p` is the weight of the column.
column_sum :
    (a b c p x y v r : ℕ)
    → v + p * c ≡ x + y
    → r ≡ a + b + c
    → r % 256 * p + v + p * 256 * (r / 256) ≡ a * p + x + (b * p + y)
column_sum a b c p x y v r e h =
    omega (arith, e, ap (λ (t : ℕ). t * p) h, ap (λ (t : ℕ). t * p) (halves r))
  where
    halves : (r : ℕ) → r ≡ r % 256 + 256 * (r / 256)
    halves r = omega arith

-- The sum and the carry out of the first byte stand for the sum.
pub add_bytes-value :
    (as' bs : List ℕ)
    → length as' ≡ length bs
    → AllBytes as'
    → AllBytes bs
    → (be_value (add_bytes as' bs).0 + 256 ^ length as' * (add_bytes as' bs).1
        ≡ be_value as' + be_value bs)
      × AllBytes (add_bytes as' bs).0
      × (length (add_bytes as' bs).0 ≡ length as')
      × ((add_bytes as' bs).1 ≤ 1)
unfolding add_bytes be_value
add_bytes-value [] [] l h k = (omega arith, tt, refl, omega arith)
add_bytes-value [] (b ∷ bs) l h k = absurd (omega arith)
add_bytes-value (a ∷ as') [] l h k = absurd (omega arith)
add_bytes-value (a ∷ as') (b ∷ bs) l h k =
    let ih = add_bytes-value as' bs (omega arith) h.1 k.1 in
    let p : 256 ^ length bs ≡ 256 ^ length as' = ap (λ n. 256 ^ n) (omega arith) in
    (
      rw (ih.2, p, pow-suc 256 (length as'))
          (column_sum a b (add_bytes as' bs).1 (256 ^ length as') (be_value as') (be_value bs)
            (be_value (add_bytes as' bs).0) (a + b + (add_bytes as' bs).1) ih.0 refl),
      (omega arith, ih.1),
      ap suc ih.2,
      omega (arith, ih.3),
    )

column_difference :
    (m s c p x y v b : ℕ)
    → v + y ≡ x + p * c
    → m < 256
    → s < 256
    → c ≤ 1
    → b ≡ (if ltb m (s + c) then 1 else 0)
    → (m + b * 256 - (s + c)) % 256 * p + v + (s * p + y) ≡ m * p + x + p * 256 * b
column_difference m s c p x y v b e h k l q =
    omega (arith, e, ap (λ (t : ℕ). t * p) (digit m s c b h k l q))
  where
    digit :
        (m s c b : ℕ)
        → m < 256
        → s < 256
        → c ≤ 1
        → b ≡ (if ltb m (s + c) then 1 else 0)
        → (m + b * 256 - (s + c)) % 256 + s + c ≡ m + 256 * b
    digit m s c b h k l q = ground arith

-- The difference and the borrow out of the first byte stand for the difference.
pub subtract_bytes-value :
    (ms ss : List ℕ)
    → length ms ≡ length ss
    → AllBytes ms
    → AllBytes ss
    → (be_value (subtract_bytes ms ss).0 + be_value ss
        ≡ be_value ms + 256 ^ length ms * (subtract_bytes ms ss).1)
      × AllBytes (subtract_bytes ms ss).0
      × (length (subtract_bytes ms ss).0 ≡ length ms)
      × ((subtract_bytes ms ss).1 ≤ 1)
unfolding subtract_bytes be_value
subtract_bytes-value [] [] l h k = (omega arith, tt, refl, omega arith)
subtract_bytes-value [] (s ∷ ss) l h k = absurd (omega arith)
subtract_bytes-value (m ∷ ms) [] l h k = absurd (omega arith)
subtract_bytes-value (m ∷ ms) (s ∷ ss) l h k =
    let ih = subtract_bytes-value ms ss (omega arith) h.1 k.1 in
    let p : 256 ^ length ss ≡ 256 ^ length ms = ap (λ n. 256 ^ n) (omega arith) in
    (
      rw (ih.2, p, pow-suc 256 (length ms))
          (column_difference m s (subtract_bytes ms ss).1 (256 ^ length ms) (be_value ms)
            (be_value ss) (be_value (subtract_bytes ms ss).0) _ ih.0 h.0 k.0 ih.3 refl),
      (omega arith, ih.1),
      ap suc ih.2,
      ground arith,
    )

carry_up :
    (b p v x : ℕ)
    → b < 256
    → v + p * 1 ≡ x + 1
    → (b + 1) % 256 * p + v + p * 256 * bit_of (b == 255) ≡ b * p + x + 1
carry_up b p v x h e = omega (arith, e, ap (λ (t : ℕ). t * p) (digit b h))
  where
    digit : (b : ℕ) → b < 256 → (b + 1) % 256 + 256 * bit_of (b == 255) ≡ b + 1
    digit b h = ground arith

no_carry : (u p q v x : ℕ) → v + p * 0 ≡ x + 1 → u + v + q * 0 ≡ u + x + 1
no_carry u p q v x e = omega (arith, e)

-- The bytes and the carry stand for the successor.
pub increment-value :
    (bs : List ℕ)
    → AllBytes bs
    → (be_value (increment bs).0 + 256 ^ length bs * bit_of (increment bs).1 ≡ be_value bs + 1)
      × AllBytes (increment bs).0
      × (length (increment bs).0 ≡ length bs)
unfolding increment be_value
increment-value [] h = (refl, tt, refl)
increment-value (b ∷ bs) h =
    let ih = increment-value bs h.1 in
    elim (Bool-cases (increment bs).1) [
      | inl c ↦
          rw (c, ih.2, pow-suc 256 (length bs))
            (
              carry_up b (256 ^ length bs) (be_value (increment bs).0) (be_value bs) h.0
                  (rw c at ih.0),
              (omega arith, ih.1),
              refl,
            )
      | inr n ↦
          rw (n, ih.2)
            (
              no_carry (b * 256 ^ length bs) (256 ^ length bs) (256 ^ length (b ∷ bs))
                  (be_value (increment bs).0) (be_value bs) (rw n at ih.0),
              (h.0, ih.1),
              refl,
            )
    ]

mirror : (b p v x : ℕ) → b < 256 → v + x + 1 ≡ p → (255 - b) * p + v + (b * p + x) + 1 ≡ p * 256
mirror b p v x h e = omega (arith, e, ap (λ (t : ℕ). t * p) (digit b h))
  where
    digit : (b : ℕ) → b < 256 → 255 - b + b ≡ 255
    digit b h = omega arith

-- The complement and the number add up to the largest number.
pub complement-value :
    (bs : List ℕ)
    → AllBytes bs
    → (be_value (complement bs) + be_value bs + 1 ≡ 256 ^ length bs)
      × AllBytes (complement bs)
      × (length (complement bs) ≡ length bs)
unfolding be_value
complement-value [] h = (refl, tt, refl)
complement-value (b ∷ bs) h =
    let ih = complement-value bs h.1 in
    (
      rw (ih.2, pow-suc 256 (length bs))
          (mirror b (256 ^ length bs) (be_value (complement bs)) (be_value bs) h.0 ih.0),
      (omega arith, ih.1),
      ap suc ih.2,
    )
