-- ===== src/Chain/Linked.antt =====
-- The tree that the entries form, whatever is marked on them.
use amarian_amr.Base.{
  ℕ, ◌+◌, ◌<◌, ◌≡◌, ◌⊎◌, inl, inr, refl, sym, ap, ap₂, subst, ◌∙◌, true, Option, none, some, List,
  [], ◌∷◌, if◌then◌else◌, ◌==◌, nat_eq, list_eq, beq→eq, beq_refl, arith, Bool-cases,
}
use amarian_amr.Base.Table.{find, insert, find-insert}
use amarian_amr.Primitives.Hash.{Hash256}
use amarian_amr.Consensus.Work.{add, of_compact_target}
use amarian_amr.Chain.Index.{Entry, BlockValidity, BlockFailure}
use amarian_amr.Chain.Marks.{Entries, marked, children_of}

abbrev pub Listed : Hash256 → List Hash256 → Type 0
Listed h [] = ⊥
Listed h (c ∷ cs) = (c ≡ h) ⊎ Listed h cs

-- What an entry with a parent owes to it.
pub record IsChild (entries : Entries) (children : List (Hash256 × Hash256)) (e : Entry)
    (p : Hash256) : Type 0 where
  pub above : Entry
  pub found : find p entries ≡ some above
  pub one_higher : e.height ≡ above.height + 1
  pub work_added : e.total_work ≡ add above.total_work (of_compact_target e.header.target_bits)
  pub linked : e.header.prev_block ≡ p
  pub listed : Listed e.hash (children_of p children)

-- The invariant of the index that its comment states, but for the marks.
pub record IsLinked (entries : Entries) (children : List (Hash256 × Hash256)) (genesis : Hash256)
    (next : ℕ) : Type 0 where
  pub hashed : (h : Hash256) (e : Entry) → find h entries ≡ some e → e.hash ≡ h
  pub rooted :
      (h : Hash256) (e : Entry)
      → find h entries ≡ some e
      → e.parent ≡ none
      → (h ≡ genesis) × (e.height ≡ 0)
  pub descended :
      (h p : Hash256) (e : Entry)
      → find h entries ≡ some e
      → e.parent ≡ some p
      → IsChild entries children e p
  pub named :
      (h c : Hash256)
      → Listed c (children_of h children)
      → (e : Entry) × (find c entries ≡ some e) × (e.parent ≡ some h)
  pub numbered : (h : Hash256) (e : Entry) → find h entries ≡ some e → e.sequence < next
  pub unique :
      (h k : Hash256) (e f : Entry)
      → find h entries ≡ some e
      → find k entries ≡ some f
      → e.sequence ≡ f.sequence
      → h ≡ k

-- Two lookups that differ in the marks at most.
abbrev pub Same : Option Entry → Option Entry → Type 0
Same none none = Unit {0}
Same none (some e') = ⊥
Same (some e) none = ⊥
Same (some e) (some e') = marked e'.validity e'.failure e ≡ e'

abbrev pub Similar : Entries → Entries → Type 0
Similar t t' = (h : Hash256) → Same (find h t) (find h t')

pub Similar-refl : (t : Entries) → Similar t t
Similar-refl t h = same (find h t)
  where
    same : (o : Option Entry) → Same o o
    same none = tt
    same (some e) = refl

pub Similar-trans : (t u v : Entries) → Similar t u → Similar u v → Similar t v
Similar-trans t u v h k j = same (find j t) (find j u) (find j v) (h j) (k j)
  where
    same : (o p q : Option Entry) → Same o p → Same p q → Same o q
    same none none none h k = tt
    same none none (some g) h k = absurd k
    same none (some f) q h k = absurd h
    same (some e) none q h k = absurd h
    same (some e) (some f) none h k = absurd k
    same (some e) (some f) (some g) h k = ap (marked g.validity g.failure) h ∙ k

-- The entry before, of an entry after.
pub Same-before :
    (o o' : Option Entry) (e' : Entry)
    → Same o o'
    → o' ≡ some e'
    → (e : Entry) × (o ≡ some e) × (marked e'.validity e'.failure e ≡ e')
Same-before none none e' h k = absurd (cc)
Same-before none (some f) e' h k = absurd h
Same-before (some e) none e' h k = absurd h
Same-before (some e) (some f) e' h k =
    (e, refl, subst (λ g. marked g.validity g.failure e ≡ g) {x = f} {y = e'} (cc (k)) h)

pub Same-after :
    (o o' : Option Entry) (e : Entry)
    → Same o o'
    → o ≡ some e
    → (e' : Entry) × (o' ≡ some e') × (marked e'.validity e'.failure e ≡ e')
Same-after none none e h k = absurd (cc)
Same-after none (some f) e h k = absurd h
Same-after (some g) none e h k = absurd h
Same-after (some g) (some f) e h k =
    (f, refl, subst (λ u. marked f.validity f.failure u ≡ f) {x = g} {y = e} (cc (k)) h)

-- Another mark on one entry.
pub Similar-mark :
    (h : Hash256) (v : BlockValidity) (f : BlockFailure) (e : Entry) (t : Entries)
    → find h t ≡ some e
    → Similar t (insert h (marked v f e) t)
Similar-mark h v f e t k j =
    subst (λ o. Same (find j t) o) (sym (find-insert h j (marked v f e) t))
      (elim (Bool-cases (h == j)) [
        | inl q ↦ rw q (
            subst (λ o. Same o (some (marked v f e)))
              (sym (ap (λ i. find i t) (sym (beq→eq q)) ∙ k)) refl)
        | inr q ↦ rw q (Similar-refl t j)
      ])

-- The tree does not depend on the marks.
module _ (t u : Entries) (children : List (Hash256 × Hash256)) (genesis : Hash256) (next : ℕ)
    (similar : Similar t u) (l : IsLinked t children genesis next) where
  before :
      (h : Hash256) (e' : Entry)
      → find h u ≡ some e'
      → (e : Entry) × (find h t ≡ some e) × (marked e'.validity e'.failure e ≡ e')
  before h e' k = Same-before (find h t) (find h u) e' (similar h) k

  kept-IsChild :
      (h p : Hash256) (e' : Entry)
      → find h u ≡ some e'
      → e'.parent ≡ some p
      → IsChild u children e' p
  kept-IsChild h p e' k q =
      let (e, found, same) = before h e' k in
      let child = l.descended h p e found (ap (λ x. Entry.parent x) same ∙ q) in
      let (above, after, same_above) =
        Same-after (find p t) (find p u) child.above (similar p) child.found in
      record {
        above = above;
        found = after;
        one_higher =
            sym (ap (λ x. Entry.height x) same)
            ∙ child.one_higher
            ∙ ap (λ x. Entry.height x + 1) same_above;
        work_added =
            sym (ap (λ x. Entry.total_work x) same)
            ∙ child.work_added
            ∙ ap₂ (λ x y. add (Entry.total_work x) (of_compact_target (Entry.header y).target_bits))
                same_above same;
        linked = sym (ap (λ x. (Entry.header x).prev_block) same) ∙ child.linked;
        listed = subst (λ x. Listed (Entry.hash x) (children_of p children)) same child.listed;
      }

  pub IsLinked-Similar : IsLinked u children genesis next
  IsLinked-Similar = record {
    hashed = λ h e' k.
        let (e, found, same) = before h e' k in
        sym (ap (λ x. Entry.hash x) same) ∙ l.hashed h e found;
    rooted = λ h e' k q.
        let (e, found, same) = before h e' k in
        let root = l.rooted h e found (ap (λ x. Entry.parent x) same ∙ q) in
        (root.0, sym (ap (λ x. Entry.height x) same) ∙ root.1);
    descended = λ h p e' k q. kept-IsChild h p e' k q;
    named = λ h c listed.
        let (e, found, up) = l.named h c listed in
        let (e', after, same) = Same-after (find c t) (find c u) e (similar c) found in
        (e', after, sym (ap (λ x. Entry.parent x) same) ∙ up);
    numbered = λ h e' k.
        let (e, found, same) = before h e' k in
        subst (λ x. Entry.sequence x < next) same (l.numbered h e found);
    unique = λ h j e' f' k i q.
        let (e, found, same) = before h e' k in
        let (f, found_f, same_f) = before j f' i in
        l.unique h j e f found found_f
          (ap (λ x. Entry.sequence x) same ∙ q ∙ sym (ap (λ x. Entry.sequence x) same_f));
  }

Listed-cons :
    (h p q c : Hash256) (children : List (Hash256 × Hash256))
    → Listed h (children_of p children)
    → Listed h (children_of p ((q, c) ∷ children))
unfolding children_of
Listed-cons h p q c children l = elim (Bool-cases (q == p)) [
  | inl y ↦ rw y (inr l)
  | inr n ↦ rw n l
]

Listed-new :
    (h p : Hash256) (children : List (Hash256 × Hash256))
    → Listed h (children_of p ((p, h) ∷ children))
unfolding children_of
Listed-new h p children = rw (beq_refl {A = List ℕ} p) (inl refl)

Listed-old :
    (h c q d : Hash256) (children : List (Hash256 × Hash256))
    → Listed c (children_of h ((q, d) ∷ children))
    → ((q ≡ h) × (d ≡ c)) ⊎ Listed c (children_of h children)
unfolding children_of
Listed-old h c q d children l = elim (Bool-cases (q == h)) [
  | inl y ↦
      elim (subst (λ b. Listed c (if b then d ∷ children_of h children else children_of h children))
        y l) [ inl same ↦ inl (beq→eq y, same) | inr old ↦ inr old ]
  | inr n ↦
      inr (
        subst (λ b. Listed c (if b then d ∷ children_of h children else children_of h children)) n
          l)
]

-- A table with one more entry.
module _ (t : Entries) (e : Entry) (fresh : find e.hash t ≡ none) where
  abbrev pub grown : Entries
  grown = insert e.hash e t

  -- An entry of the grown tree is the leaf or was there before.
  pub leaf-or-old :
      (h : Hash256) (f : Entry)
      → find h grown ≡ some f
      → ((h ≡ e.hash) × (f ≡ e)) ⊎ (find h t ≡ some f)
  leaf-or-old h f k = elim (Bool-cases (e.hash == h)) [
    | inl q ↦
        let same : (if true then some e else find h t) ≡ some f =
          subst (λ b. (if b then some e else find h t) ≡ some f) q
            (sym (find-insert e.hash h e t) ∙ k) in
        inl (sym (beq→eq q), cc (same))
    | inr q ↦ inr (
        subst (λ b. (if b then some e else find h t) ≡ some f) q
          (sym (find-insert e.hash h e t) ∙ k))
  ]

  pub old-stays : (h : Hash256) (f : Entry) → find h t ≡ some f → find h grown ≡ some f
  old-stays h f k = elim (Bool-cases (e.hash == h)) [
    | inl q ↦ let same : e.hash ≡ h = beq→eq q in absurd (cc (fresh, k, ap (λ i. find i t) same))
    | inr q ↦ find-insert e.hash h e t ∙ rw q k
  ]

-- A new leaf of the tree.
module _ (t : Entries) (children : List (Hash256 × Hash256)) (genesis : Hash256) (next : ℕ)
    (l : IsLinked t children genesis next) (e parent : Entry) (fresh : find e.hash t ≡ none)
    (below : find parent.hash t ≡ some parent) (up : e.parent ≡ some parent.hash)
    (linked : e.header.prev_block ≡ parent.hash) (higher : e.height ≡ parent.height + 1)
    (work : e.total_work ≡ add parent.total_work (of_compact_target e.header.target_bits))
    (number : e.sequence ≡ next) where
  grown-IsChild :
      (h p : Hash256) (f : Entry)
      → find h (grown t e fresh) ≡ some f
      → f.parent ≡ some p
      → IsChild (grown t e fresh) ((e.header.prev_block, e.hash) ∷ children) f p
  grown-IsChild h p f k q = elim (leaf-or-old t e fresh h f k) [
    | inl (s, same) ↦
        let named : parent.hash ≡ p = cc (up, q, ap (λ x. Entry.parent x) same) in
        record {
          above = parent;
          found = old-stays t e fresh p parent (subst (λ x. find x t ≡ some parent) named below);
          one_higher = ap (λ x. Entry.height x) same ∙ higher;
          work_added =
              ap (λ x. Entry.total_work x) same
              ∙ work
              ∙ ap (λ x. add parent.total_work (of_compact_target (Entry.header x).target_bits))
                  (sym same);
          linked = ap (λ x. (Entry.header x).prev_block) same ∙ linked ∙ named;
          listed =
              subst
                (λ x.
                  Listed (Entry.hash x) (children_of p ((e.header.prev_block, e.hash) ∷ children)))
                (sym same)
                (subst
                  (λ x. Listed e.hash (children_of x ((e.header.prev_block, e.hash) ∷ children)))
                  (linked ∙ named) (Listed-new e.hash e.header.prev_block children));
        }
    | inr old ↦
        let child = l.descended h p f old q in
        record {
          above = child.above;
          found = old-stays t e fresh p child.above child.found;
          one_higher = child.one_higher;
          work_added = child.work_added;
          linked = child.linked;
          listed = Listed-cons f.hash p e.header.prev_block e.hash children child.listed;
        }
  ]

  pub IsLinked-insert :
      IsLinked (grown t e fresh) ((e.header.prev_block, e.hash) ∷ children) genesis (next + 1)
  IsLinked-insert = record {
    hashed = λ h f k. elim (leaf-or-old t e fresh h f k) [
      | inl (s, same) ↦ ap (λ x. Entry.hash x) same ∙ sym s
      | inr old ↦ l.hashed h f old
    ];
    rooted = λ h f k q. elim (leaf-or-old t e fresh h f k) [
      | inl (s, same) ↦ absurd (cc (up, q, ap (λ x. Entry.parent x) same))
      | inr old ↦ l.rooted h f old q
    ];
    descended = grown-IsChild;
    named = λ h c listed. elim (Listed-old h c e.header.prev_block e.hash children listed) [
      | inl (q, same) ↦ (
        e,
        find-insert e.hash c e t ∙ rw (same, beq_refl {A = List ℕ} c),
        up ∙ ap (λ x. some x) (sym linked ∙ q),
      )
      | inr old ↦
          let (f, found, below_h) = l.named h c old in (f, old-stays t e fresh c f found, below_h)
    ];
    numbered = λ h f k. elim (leaf-or-old t e fresh h f k) [
      | inl (s, same) ↦ omega (arith, number, ap (λ x. Entry.sequence x) same)
      | inr old ↦ omega (arith, l.numbered h f old)
    ];
    unique = λ h j f g k i q. elim (leaf-or-old t e fresh h f k) [
      | inl (s, same) ↦ elim (leaf-or-old t e fresh j g i) [
        | inl (s', same') ↦ s ∙ sym s'
        | inr old ↦
            absurd (omega (arith, q, number, ap (λ x. Entry.sequence x) same, l.numbered j g old))
      ]
      | inr old ↦ elim (leaf-or-old t e fresh j g i) [
        | inl (s', same') ↦
            absurd (omega (arith, q, number, ap (λ x. Entry.sequence x) same', l.numbered h f old))
        | inr old' ↦ l.unique h j f g old old' q
      ]
    ];
  }
