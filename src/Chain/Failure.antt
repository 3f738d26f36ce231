-- ===== src/Chain/Failure.antt =====
-- The walk of `RecordFailure` ends, and reaches everything below a failed entry.
use amarian_amr.Base.{
  ℕ, zero, suc, ◌+◌, ◌≤◌, ◌<◌, ◌≡◌, ◌⊎◌, inl, inr, refl, sym, ap, subst, ◌∙◌, true, false, Option,
  none, some, List, [], ◌∷◌, length, if◌then◌else◌, ◌==◌, nat_eq, list_eq, beq→eq, beq_refl, arith,
  Bool-cases,
}
use amarian_amr.Base.Table.{find, insert, find-insert, Distinct, insert-Distinct}
use amarian_amr.Primitives.Hash.{Hash256}
use amarian_amr.Chain.Index.{Entry, is_eligible, BlockValidity, BlockFailure, ancestor}
use amarian_amr.Chain.Marks.{
  Entries, marked, children_of, Walk, fail_child, fail_found, fail_children, follow, is_empty,
  walk_subtree,
}
use amarian_amr.Chain.Linked.{Same, Listed, Similar, Similar-refl, Similar-trans, Similar-mark}

-- An entry that is there and ruled out, and an entry that is ruled out if it is there.
abbrev pub Out : Entries → Hash256 → Type 0
Out t h = (e : Entry) × (find h t ≡ some e) × (is_eligible e ≡ false)

abbrev pub Failed : Entries → Hash256 → Type 0
Failed t h = (e : Entry) → find h t ≡ some e → is_eligible e ≡ false

-- What marking does to the state of the walk.
record Grows (w w' : Walk) : Type 0 where
  similar : Similar w.entries w'.entries
  out_stays : (h : Hash256) → Out w.entries h → Out w'.entries h
  out_new : (h : Hash256) → Out w'.entries h → Out w.entries h ⊎ Listed h w'.frontier
  frontier_stays : (h : Hash256) → Listed h w.frontier → Listed h w'.frontier

Grows-refl : (w : Walk) → Grows w w
Grows-refl w = record {
  similar = Similar-refl w.entries;
  out_stays = λ h o. o;
  out_new = λ h o. inl o;
  frontier_stays = λ h l. l;
}

Grows-trans : {u v w : Walk} → Grows u v → Grows v w → Grows u w
Grows-trans {u} {v} {w} g k = record {
  similar = Similar-trans u.entries v.entries w.entries g.similar k.similar;
  out_stays = λ h o. k.out_stays h (g.out_stays h o);
  out_new = λ h o. elim (k.out_new h o) [
    | inl o' ↦ elim (g.out_new h o') [ inl o'' ↦ inl o'' | inr l ↦ inr (k.frontier_stays h l) ]
    | inr l ↦ inr l
  ];
  frontier_stays = λ h l. k.frontier_stays h (g.frontier_stays h l);
}

-- One entry ruled out.
module _ (c : Hash256) (d : Entry) (t : Entries) (v : BlockValidity) (f : BlockFailure)
    (found : find c t ≡ some d) (out : is_eligible (marked v f d) ≡ false) where
  out-at : Out (insert c (marked v f d) t) c
  out-at = (marked v f d, find-insert c c (marked v f d) t ∙ rw (beq_refl {A = List ℕ} c), out)

  elsewhere : (h : Hash256) → (c == h) ≡ false → find h (insert c (marked v f d) t) ≡ find h t
  elsewhere h q = find-insert c h (marked v f d) t ∙ rw q

  pub out-stays : (h : Hash256) → Out t h → Out (insert c (marked v f d) t) h
  out-stays h o = elim (Bool-cases (c == h)) [
    | inl q ↦ subst (Out (insert c (marked v f d) t)) (beq→eq q) out-at
    | inr q ↦ (o.0, elsewhere h q ∙ o.1, o.2)
  ]

  pub out-new : (h : Hash256) → Out (insert c (marked v f d) t) h → Out t h ⊎ (c ≡ h)
  out-new h o = elim (Bool-cases (c == h)) [
    | inl q ↦ inr (beq→eq q)
    | inr q ↦ inl (o.0, sym (elsewhere h q) ∙ o.1, o.2)
  ]

  pub Failed-at : Failed (insert c (marked v f d) t) c
  unfolding out-at
  Failed-at e k = same (marked v f d) e (sym out-at.1 ∙ k) out
    where
      same : (x y : Entry) → some x ≡ some y → is_eligible x ≡ false → is_eligible y ≡ false
      same x y p h = subst (λ z. is_eligible z ≡ false) {x = x} {y = y} (cc (p)) h

module _ (c : Hash256) (w : Walk) where
  fail_found-Grows :
      (o : Option Entry)
      → find c w.entries ≡ o
      → Grows w (fail_found o c w) × Failed (fail_found o c w).entries c
  fail_found-Grows none k = (Grows-refl w, λ e q. absurd (cc (k, q)))
  fail_found-Grows (some d) k = elim (Bool-cases (is_eligible d)) [
    | inl live ↦ rw live (
      record {
        similar = Similar-mark c d.validity ancestor d w.entries k;
        out_stays = out-stays c d w.entries d.validity ancestor k refl;
        out_new = λ h o. elim (out-new c d w.entries d.validity ancestor k refl h o) [
          | inl o' ↦ inl o'
          | inr q ↦ inr (inl q)
        ];
        frontier_stays = λ h l. inr l;
      },
      Failed-at c d w.entries d.validity ancestor k refl,
    )
    | inr dead ↦ rw dead (Grows-refl w, λ e q. same d e (sym k ∙ q) dead)
  ]
    where
      same : (x y : Entry) → some x ≡ some y → is_eligible x ≡ false → is_eligible y ≡ false
      same x y p h = subst (λ z. is_eligible z ≡ false) {x = x} {y = y} (cc (p)) h

  fail_child-Grows : Grows w (fail_child c w) × Failed (fail_child c w).entries c
  unfolding fail_child
  fail_child-Grows = fail_found-Grows (find c w.entries) refl

-- An entry that is ruled out stays so.
Failed-stays :
    (t u : Entries) (c : Hash256)
    → Similar t u
    → ((h : Hash256) → Out t h → Out u h)
    → Failed t c
    → Failed u c
Failed-stays t u c similar stays failed e k = before (find c t) refl (similar c)
  where
    same : (x y : Entry) → some x ≡ some y → is_eligible x ≡ false → is_eligible y ≡ false
    same x y p h = subst (λ z. is_eligible z ≡ false) {x = x} {y = y} (cc (p)) h

    before : (o : Option Entry) → find c t ≡ o → Same o (find c u) → is_eligible e ≡ false
    before none q s = absurd (subst (Same none) k s)
    before (some f) q s = let out = stays c (f, q, failed f q) in same out.0 e (sym out.1 ∙ k) out.2

fail_children-Grows :
    (cs : List Hash256) (w : Walk)
    → Grows w (fail_children cs w)
      × ((c : Hash256) → Listed c cs → Failed (fail_children cs w).entries c)
unfolding fail_children
fail_children-Grows [] w = (Grows-refl w, λ c l. absurd l)
fail_children-Grows (x ∷ xs) w =
    let first = fail_child-Grows x w in
    let rest = fail_children-Grows xs (fail_child x w) in
    let kept =
      Failed-stays (fail_child x w).entries (fail_children xs (fail_child x w)).entries x
        rest.0.similar rest.0.out_stays first.1 in
    (
      Grows-trans first.0 rest.0,
      λ c l. elim l [
        | inl q ↦ subst (Failed (fail_children xs (fail_child x w)).entries) q kept
        | inr later ↦ rest.1 c later
      ],
    )

-- Below an entry that is ruled out, everything is ruled out or still to be followed.
abbrev pub Pending : List (Hash256 × Hash256) → Walk → Type 0
Pending children w =
    (h : Hash256)
    → Out w.entries h
    → Listed h w.frontier ⊎ ((c : Hash256) → Listed c (children_of h children) → Failed w.entries c)

module _ (children : List (Hash256 × Hash256)) (current : Hash256) (rest : List Hash256) (w : Walk)
    (front : w.frontier ≡ current ∷ rest) (pending : Pending children w) where
  abbrev followed : Walk
  followed = follow (current ∷ rest) children w

  follow-Pending :
      Pending children followed
      × Similar w.entries followed.entries
      × ((h : Hash256) → Out w.entries h → Out followed.entries h)
  follow-Pending =
      let step =
        fail_children-Grows (children_of current children) (record w { frontier = rest }) in
      (
        λ h o.
            next h (λ c. step.1 c) (step.0.frontier_stays h)
              (λ c. Failed-stays w.entries followed.entries c step.0.similar step.0.out_stays)
              (step.0.out_new h o),
        step.0.similar,
        step.0.out_stays,
      )
    where
      next :
          (h : Hash256)
          → ((c : Hash256) → Listed c (children_of current children) → Failed followed.entries c)
          → (Listed h rest → Listed h followed.frontier)
          → ((c : Hash256) → Failed w.entries c → Failed followed.entries c)
          → Out w.entries h ⊎ Listed h followed.frontier
          → Listed h followed.frontier
            ⊎ ((c : Hash256) → Listed c (children_of h children) → Failed followed.entries c)
      next h below stays kept (inr l) = inl l
      next h below stays kept (inl o) = elim (pending h o) [
        | inl l ↦ elim (subst (Listed h) front l) [
          | inl q ↦ inr (λ c m. below c (subst (λ x. Listed c (children_of x children)) (sym q) m))
          | inr later ↦ inl (stays later)
        ]
        | inr old ↦ inr (λ c m. kept c (old c m))
      ]

-- The entries that are not ruled out.
pub live : Entries → ℕ
live [] = 0
live ((h, e) ∷ t) = (if is_eligible e then 1 else 0) + live t

pub live-le : (t : Entries) → live t ≤ length t
unfolding live
live-le [] = omega arith
live-le ((h, e) ∷ t) = ground (arith, live-le t)

pub live-insert :
    (c : Hash256) (d d' : Entry) (t : Entries)
    → find c t ≡ some d
    → is_eligible d ≡ true
    → is_eligible d' ≡ false
    → live (insert c d' t) + 1 ≡ live t
unfolding live find insert
live-insert c d d' [] k l m = cc
live-insert c d d' ((h, e) ∷ t) k l m = elim (Bool-cases (h == c)) [
  | inl q ↦ rw (q, m, subst (λ x. is_eligible x ≡ true) {x = d} {y = e} (same q k) l) (omega arith)
  | inr q ↦ rw q (
      omega (
        arith,
        live-insert c d d' t (subst (λ b. (if b then some e else find c t) ≡ some d) q k) l m,
      ))
]
  where
    same : (h == c) ≡ true → (if h == c then some e else find c t) ≡ some d → d ≡ e
    same q k = ground arith

-- What a round has left to do: an entry that goes to the frontier is one that is ruled out.
unfoldable pub left : Walk → ℕ
left w = live w.entries + length w.frontier

fail_found-left :
    (c : Hash256) (w : Walk) (o : Option Entry)
    → find c w.entries ≡ o
    → left (fail_found o c w) ≡ left w
unfolding left
fail_found-left c w none k = refl
fail_found-left c w (some d) k = elim (Bool-cases (is_eligible d)) [
  | inl alive ↦
      rw alive
        (omega (arith, live-insert c d (marked d.validity ancestor d) w.entries k alive refl))
  | inr dead ↦ rw dead
]

fail_children-left : (cs : List Hash256) (w : Walk) → left (fail_children cs w) ≡ left w
unfolding fail_children fail_child
fail_children-left [] w = refl
fail_children-left (c ∷ cs) w =
    fail_children-left cs (fail_child c w) ∙ fail_found-left c w (find c w.entries) refl

-- Enough rounds empty the frontier, and then everything below an entry that is ruled out is ruled out.
pub record IsDone (children : List (Hash256 × Hash256)) (t u : Entries) : Type 0 where
  pub similar : Similar t u
  pub out_stays : (h : Hash256) → Out t h → Out u h
  pub below : (h c : Hash256) → Out u h → Listed c (children_of h children) → Failed u c

module _ (children : List (Hash256 × Hash256)) (fuel : ℕ)
    (ih : (v : Walk)
      → left v < fuel
      → Pending children v
      → IsDone children v.entries (walk_subtree fuel children v).entries)
    (w : Walk) (l : left w < suc fuel) (p : Pending children w) where
  round-IsDone :
      (f : List Hash256)
      → w.frontier ≡ f
      → IsDone children w.entries
          (if is_empty f then w else walk_subtree fuel children (follow f children w)).entries
  unfolding left
  round-IsDone [] front = record {
    similar = Similar-refl w.entries;
    out_stays = λ h o. o;
    below = λ h c o m. elim (p h o) [
      | inl listed ↦ absurd (subst (Listed h) front listed)
      | inr failed ↦ failed c m
    ];
  }
  round-IsDone (current ∷ rest) front =
      let step = follow-Pending children current rest w front p in
      let less : left (follow (current ∷ rest) children w) < fuel = omega (
        arith,
        fail_children-left (children_of current children) (record w { frontier = rest }),
        ap (λ (x : List Hash256). length x) front,
      ) in
      let done = ih (follow (current ∷ rest) children w) less step.0 in
      record {
        similar = Similar-trans w.entries _ _ step.1 done.similar;
        out_stays = λ h o. done.out_stays h (step.2 h o);
        below = done.below;
      }

pub walk_subtree-IsDone :
    (fuel : ℕ) (children : List (Hash256 × Hash256)) (w : Walk)
    → left w < fuel
    → Pending children w
    → IsDone children w.entries (walk_subtree fuel children w).entries
unfolding walk_subtree
walk_subtree-IsDone zero children w l p = absurd (omega arith)
walk_subtree-IsDone (suc fuel) children w l p =
    round-IsDone children fuel (walk_subtree-IsDone fuel children) w l p w.frontier refl

-- The entries below a failed entry are ruled out.
abbrev pub IsClosed : Entries → Type 0
IsClosed t =
    (h p : Hash256) (e : Entry)
    → find h t ≡ some e
    → e.parent ≡ some p
    → Out t p
    → is_eligible e ≡ false

fail_children-Distinct :
    (cs : List Hash256) (w : Walk) → Distinct w.entries → Distinct (fail_children cs w).entries
unfolding fail_children fail_child
fail_children-Distinct [] w d = d
fail_children-Distinct (c ∷ cs) w d =
    fail_children-Distinct cs (fail_child c w) (one (find c w.entries))
  where
    one : (o : Option Entry) → Distinct (fail_found o c w).entries
    one none = d
    one (some e) = elim (Bool-cases (is_eligible e)) [
      | inl alive ↦ rw alive (insert-Distinct c (marked e.validity ancestor e) w.entries d)
      | inr dead ↦ rw dead d
    ]

pub walk_subtree-Distinct :
    (fuel : ℕ) (children : List (Hash256 × Hash256)) (w : Walk)
    → Distinct w.entries
    → Distinct (walk_subtree fuel children w).entries
unfolding walk_subtree
walk_subtree-Distinct zero children w d = d
walk_subtree-Distinct (suc fuel) children w d =
    round w.frontier (λ v. walk_subtree-Distinct fuel children v)
  where
    round :
        (f : List Hash256)
        → ((v : Walk) → Distinct v.entries → Distinct (walk_subtree fuel children v).entries)
        → Distinct
            (if is_empty f then w else walk_subtree fuel children (follow f children w)).entries
    round [] ih = d
    round (current ∷ rest) ih =
        ih (follow (current ∷ rest) children w)
          (fail_children-Distinct (children_of current children) (record w { frontier = rest }) d)
