-- ===== src/Chain/Best.antt =====
-- `IsBetterTip` is a strict order, and the best header is one that no eligible entry beats.
use amarian_amr.Base.{
  ℕ, ◌≡◌, ◌⊎◌, inl, inr, refl, sym, ap, subst, ◌∙◌, true, false, Option, none, some, List, [], ◌∷◌,
  if◌then◌else◌, ◌==◌, nat_eq, list_eq, list_beq_iff, beq→eq, beq_refl, arith, Bool-cases,
}
use amarian_amr.Base.Table.{find, Distinct}
use amarian_amr.Primitives.Hash.{Hash256}
use amarian_amr.Consensus.Target.{exceeds}
use amarian_amr.Consensus.Work.{more_work}
use amarian_amr.Chain.Index.{Entry, is_eligible, is_better_tip, BlockValidity}
use amarian_amr.Chain.Marks.{Entries, marked, rescan, rescan_step, hash_of}

exceeds_irrefl : (xs : List ℕ) → exceeds xs xs ≡ false
unfolding exceeds
exceeds_irrefl [] = refl
exceeds_irrefl (x ∷ xs) = ground (arith, exceeds_irrefl xs)

exceeds_trans :
    (xs ys zs : List ℕ) → exceeds xs ys ≡ true → exceeds ys zs ≡ true → exceeds xs zs ≡ true
unfolding exceeds
exceeds_trans [] ys zs h k = cc
exceeds_trans (x ∷ xs) [] zs h k = cc
exceeds_trans (x ∷ xs) (y ∷ ys) [] h k = refl
exceeds_trans (x ∷ xs) (y ∷ ys) (z ∷ zs) h k = ground (arith, exceeds_trans xs ys zs)

pub is_better_tip_irrefl : (a : Entry) → is_better_tip a a ≡ false
unfolding is_better_tip
is_better_tip_irrefl a = ground (arith, list_beq_iff a.total_work a.total_work)

pub is_better_tip_trans :
    (a b c : Entry) → is_better_tip a b ≡ true → is_better_tip b c ≡ true → is_better_tip a c ≡ true
unfolding is_better_tip more_work
is_better_tip_trans a b c h k = ground (
  arith,
  list_beq_iff a.total_work b.total_work,
  list_beq_iff b.total_work c.total_work,
  list_beq_iff a.total_work c.total_work,
  exceeds_trans a.total_work b.total_work c.total_work,
  exceeds_irrefl a.total_work,
)

-- No eligible entry beats the one that is chosen, and where none is chosen there is none.
pub record IsBest (entries : Entries) (best : Option Hash256) : Type 0 where
  pub chosen :
      (h : Hash256)
      → best ≡ some h
      → (e : Entry) × (find h entries ≡ some e)
        × (is_eligible e ≡ true)
        × ((k : Hash256) (f : Entry) → find k entries ≡ some f → is_better_tip f e ≡ false)
  pub nothing :
      best ≡ none → (k : Hash256) (f : Entry) → find k entries ≡ some f → is_eligible f ≡ false

pub ineligible_loses : (a b : Entry) → is_eligible a ≡ false → is_better_tip a b ≡ false
unfolding is_better_tip
ineligible_loses a b h = rw h

-- Marks other than a failure do not matter, and a failure only takes an entry out.
pub is_better_tip-marked :
    (v v' : BlockValidity) (a b : Entry)
    → is_better_tip (marked v a.failure a) (marked v' b.failure b) ≡ is_better_tip a b
unfolding is_better_tip
is_better_tip-marked v v' a b = refl

-- Who beats the better of two beats both.
pub beats_winner :
    (c best f : Entry)
    → is_better_tip c best ≡ true
    → is_better_tip f best ≡ false
    → is_better_tip f c ≡ false
beats_winner c best f h k = elim (Bool-cases (is_better_tip f c)) [
  | inl q ↦ absurd (clash (sym (is_better_tip_trans f c best q h) ∙ k))
  | inr q ↦ q
]
  where
    clash : true ≡ false → ⊥
    clash e = cc

-- Where an entry stands in the list.
abbrev Stored : Hash256 → Entry → Entries → Type 0
Stored h e [] = ⊥
Stored h e ((k, f) ∷ t) = ((k ≡ h) × (e ≡ f)) ⊎ Stored h e t

Stored-find :
    (h : Hash256) (e : Entry) (t : Entries) → Distinct t → Stored h e t → find h t ≡ some e
unfolding find
Stored-find h e [] d s = absurd s
Stored-find h e ((k, f) ∷ t) d (inl (q, same)) = rw (q, beq_refl {A = List ℕ} h) (cc (same))
Stored-find h e ((k, f) ∷ t) d (inr s) = elim (Bool-cases (k == h)) [
  | inl q ↦
      let same : k ≡ h = beq→eq q in
      absurd (cc (d.0, Stored-find h e t d.1 s, ap (λ i. find i t) same))
  | inr q ↦ rw q (Stored-find h e t d.1 s)
]

find-Stored : (h : Hash256) (e : Entry) (t : Entries) → find h t ≡ some e → Stored h e t
unfolding find
find-Stored h e [] k = absurd (cc)
find-Stored h e ((j, f) ∷ t) k = elim (Bool-cases (j == h)) [
  | inl q ↦
      let same : (if true then some f else find h t) ≡ some e =
        subst (λ b. (if b then some f else find h t) ≡ some e) q k in
      inl (beq→eq q, cc (same))
  | inr q ↦ inr (find-Stored h e t (subst (λ b. (if b then some f else find h t) ≡ some e) q k))
]

-- What the scan has found among the entries that it has seen.
abbrev IsScanned : (Entry → Type 0) → Option Entry → Type 0
IsScanned seen none = (f : Entry) → seen f → is_eligible f ≡ false
IsScanned seen (some b) =
    (is_eligible b ≡ true) × seen b × ((f : Entry) → seen f → is_better_tip f b ≡ false)

IsScanned-iff :
    (seen seen' : Entry → Type 0)
    → ((f : Entry) → seen f → seen' f)
    → ((f : Entry) → seen' f → seen f)
    → (best : Option Entry) → IsScanned seen best
    → IsScanned seen' best
IsScanned-iff seen seen' to from none s = λ f k. s f (from f k)
IsScanned-iff seen seen' to from (some b) s = (s.0, to b s.1, λ f k. s.2 f (from f k))

rescan_step-IsScanned :
    (seen : Entry → Type 0) (c : Entry) (best : Option Entry)
    → IsScanned seen best
    → IsScanned (λ f. seen f ⊎ (f ≡ c)) (rescan_step c best)
rescan_step-IsScanned seen c none s = elim (Bool-cases (is_eligible c)) [
  | inl q ↦ rw q (
    q,
    inr refl,
    λ f k. elim k [
      | inl old ↦ ineligible_loses f c (s f old)
      | inr same ↦ subst (λ x. is_better_tip x c ≡ false) (sym same) (is_better_tip_irrefl c)
    ],
  )
  | inr q ↦ rw q (λ f k. elim k [
    | inl old ↦ s f old
    | inr same ↦ subst (λ x. is_eligible x ≡ false) (sym same) q
  ])
]
rescan_step-IsScanned seen c (some best) s = elim (Bool-cases (is_eligible c)) [
  | inl q ↦ elim (Bool-cases (is_better_tip c best)) [
    | inl better ↦
        rw (q, better)
          (
            q,
            inr refl,
            λ f k. elim k [
              | inl old ↦ beats_winner c best f better (s.2 f old)
              | inr same ↦
                  subst (λ x. is_better_tip x c ≡ false) (sym same) (is_better_tip_irrefl c)
            ],
          )
    | inr worse ↦
        rw (q, worse)
          (
            s.0,
            inl s.1,
            λ f k. elim k [
              | inl old ↦ s.2 f old
              | inr same ↦ subst (λ x. is_better_tip x best ≡ false) (sym same) worse
            ],
          )
  ]
  | inr q ↦ rw q (
    s.0,
    inl s.1,
    λ f k. elim k [
      | inl old ↦ s.2 f old
      | inr same ↦ subst (λ x. is_better_tip x best ≡ false) (sym same) (ineligible_loses c best q)
    ],
  )
]

rescan-IsScanned :
    (t : Entries) (seen : Entry → Type 0) (best : Option Entry)
    → IsScanned seen best
    → IsScanned (λ f. seen f ⊎ ((h : Hash256) × Stored h f t)) (rescan t best)
unfolding rescan
rescan-IsScanned [] seen best s =
    IsScanned-iff seen _ (λ f k. inl k) (λ f k. elim k [ inl old ↦ old | inr (h, n) ↦ absurd n ])
      best s
rescan-IsScanned ((j, c) ∷ t) seen best s =
    IsScanned-iff (λ f. (seen f ⊎ (f ≡ c)) ⊎ ((h : Hash256) × Stored h f t)) _
      (λ f k. elim k [
        | inl (inl old) ↦ inl old
        | inl (inr same) ↦ inr (j, inl (refl, same))
        | inr (h, later) ↦ inr (h, inr later)
      ])
      (λ f k. elim k [
        | inl old ↦ inl (inl old)
        | inr (h, inl (q, same)) ↦ inl (inr same)
        | inr (h, inr later) ↦ inr (h, later)
      ])
      (rescan t (rescan_step c best))
      (rescan-IsScanned t (λ f. seen f ⊎ (f ≡ c)) (rescan_step c best)
        (rescan_step-IsScanned seen c best s))

-- A scan of the whole table finds a best entry.
pub rescan-IsBest :
    (t : Entries)
    → Distinct t
    → ((h : Hash256) (e : Entry) → find h t ≡ some e → e.hash ≡ h)
    → IsBest t (hash_of (rescan t none))
rescan-IsBest t d hashed = read (rescan t none) (rescan-IsScanned t (λ f. ⊥) none (λ f k. absurd k))
  where
    read :
        (o : Option Entry)
        → IsScanned (λ f. ⊥ ⊎ ((h : Hash256) × Stored h f t)) o
        → IsBest t (hash_of o)
    read none s = record {
      chosen = λ h k. absurd (cc (k));
      nothing = λ k h f i. s f (inr (h, find-Stored h f t i));
    }
    read (some b) s = record {
      chosen = λ h k. elim s.1 [
        | inl n ↦ absurd n
        | inr (j, stored) ↦
            let found = Stored-find j b t d stored in
            let key : j ≡ h = sym (hashed j b found) ∙ cc (k) in
            (
              b,
              subst (λ x. find x t ≡ some b) key found,
              s.0,
              λ i f q. s.2 f (inr (i, find-Stored i f t q)),
            )
      ];
      nothing = λ k. absurd (cc (k));
    }
