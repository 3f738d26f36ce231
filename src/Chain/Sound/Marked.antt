-- ===== src/Chain/Sound/Marked.antt =====
-- Tables of one tree that differ in their marks: src/chain/block_index.cpp.
use amarian_amr.Base.{
  ◌≡◌, inl, inr, refl, sym, ap, ap₂, subst, ◌∙◌, Bool, true, false, Option, some, if◌then◌else◌,
  ◌==◌, nat_eq, list_eq, beq→eq, Bool-cases,
}
use amarian_amr.Base.Table.{find, insert, find-insert}
use amarian_amr.Primitives.Hash.{Hash256}
use amarian_amr.Chain.Index.{
  Entry, BlockValidity, BlockFailure, no_failure, itself, ancestor, is_eligible, is_unfailed,
  is_better_tip,
}
use amarian_amr.Chain.Marks.{Entries, marked}
use amarian_amr.Chain.Linked.{Same-before, Same-after, Similar}
use amarian_amr.Chain.Best.{IsBest, ineligible_loses, is_better_tip-marked}
use amarian_amr.Chain.Failure.{IsClosed, Out, Failed, live}

pub clash : {a : Bool} → a ≡ true → a ≡ false → ⊥
clash h k = cc

-- An entry is determined by the hash that it is stored under.
pub Out-Failed : (t : Entries) (h : Hash256) → Out t h → Failed t h
Out-Failed t h o e k =
    let same : o.0 ≡ e = cc (o.1, k) in subst (λ x. is_eligible x ≡ false) same o.2

pub alive_or_out :
    (t : Entries) (h : Hash256) (e : Entry)
    → find h t ≡ some e
    → (Out t h → ⊥)
    → is_eligible e ≡ true
alive_or_out t h e k n = elim (Bool-cases (is_eligible e)) [
  | inl q ↦ q
  | inr q ↦ absurd (n (e, k, q))
]

alive-unfailed : (e : Entry) → is_eligible e ≡ true → e.failure ≡ no_failure
alive-unfailed e h = read e.failure h
  where
    read : (f : BlockFailure) → is_unfailed f ≡ true → f ≡ no_failure
    read no_failure k = refl
    read itself k = absurd (cc)
    read ancestor k = absurd (cc)

-- Between eligible entries only the tree counts.
same_tip :
    (a a' b b' : Entry)
    → marked a'.validity a'.failure a ≡ a'
    → marked b'.validity b'.failure b ≡ b'
    → is_eligible a ≡ true
    → is_eligible a' ≡ true
    → is_eligible b ≡ true
    → is_eligible b' ≡ true
    → is_better_tip a' b' ≡ is_better_tip a b
same_tip a a' b b' p q la la' lb lb' =
    let fa : a'.failure ≡ a.failure = alive-unfailed a' la' ∙ sym (alive-unfailed a la) in
    let fb : b'.failure ≡ b.failure = alive-unfailed b' lb' ∙ sym (alive-unfailed b lb) in
    let pa : a' ≡ marked a'.validity a.failure a = sym p ∙ ap (λ f. marked a'.validity f a) fa in
    let pb : b' ≡ marked b'.validity b.failure b = sym q ∙ ap (λ f. marked b'.validity f b) fb in
    ap₂ is_better_tip pa pb ∙ is_better_tip-marked a'.validity b'.validity a b

-- Another table of the same tree, in which no entry is cleared.
module _ (t u : Entries) (similar : Similar t u) (stays : (h : Hash256) → Out t h → Out u h) where
  was_alive :
      (h : Hash256) (e e' : Entry)
      → find h t ≡ some e
      → find h u ≡ some e'
      → is_eligible e' ≡ true
      → is_eligible e ≡ true
  was_alive h e e' k k' live =
      alive_or_out t h e k (λ o. clash live (Out-Failed u h (stays h o) e' k'))

  pub IsBest-kept :
      (best : Option Hash256)
      → IsBest t best
      → ((h : Hash256) (e' : Entry) → best ≡ some h → find h u ≡ some e' → is_eligible e' ≡ true)
      → IsBest u best
  IsBest-kept best s live = record {
    chosen = λ h q.
        let (w, found, alive, beats) = s.chosen h q in
        let (w', found', same) = Same-after (find h t) (find h u) w (similar h) found in
        let alive' = live h w' q found' in
        (
          w',
          found',
          alive',
          λ k f' i.
              let (f, before, same_f) = Same-before (find k t) (find k u) f' (similar k) i in
              elim (Bool-cases (is_eligible f')) [
                | inl lives ↦
                    same_tip f f' w w' same_f same (was_alive k f f' before i lives) lives alive
                      alive'
                    ∙ beats k f before
                | inr dead ↦ ineligible_loses f' w' dead
              ],
        );
    nothing = λ q k f' i.
        let (f, before, same_f) = Same-before (find k t) (find k u) f' (similar k) i in
        Out-Failed u k (stays k (f, before, s.nothing q k f before)) f' i;
  }

  pub IsClosed-kept : ((h : Hash256) → Out u h → Out t h) → IsClosed t → IsClosed u
  IsClosed-kept back closed h p e' k up o =
      let (e, before, same) = Same-before (find h t) (find h u) e' (similar h) k in
      let dead = closed h p e before (ap (λ x. Entry.parent x) same ∙ up) (back p o) in
      Out-Failed u h (stays h (e, before, dead)) e' k

-- Another validity changes no failure.
module _ (c : Hash256) (d : Entry) (t : Entries) (v : BlockValidity)
    (found : find c t ≡ some d) where
  raised-at :
      (h : Hash256)
      → find h (insert c (marked v d.failure d) t)
        ≡ (if c == h then some (marked v d.failure d) else find h t)
  raised-at h = find-insert c h (marked v d.failure d) t

  pub raised-stays : (h : Hash256) → Out t h → Out (insert c (marked v d.failure d) t) h
  raised-stays h o = elim (Bool-cases (c == h)) [
    | inl q ↦
        let key : c ≡ h = beq→eq q in
        let same : o.0 ≡ d = cc (o.1, found, ap (λ x. find x t) key) in
        (marked v d.failure d, raised-at h ∙ rw q, subst (λ x. is_eligible x ≡ false) same o.2)
    | inr q ↦ (o.0, raised-at h ∙ rw q o.1, o.2)
  ]

  pub raised-back : (h : Hash256) → Out (insert c (marked v d.failure d) t) h → Out t h
  raised-back h o = elim (Bool-cases (c == h)) [
    | inl q ↦
        let here : find h (insert c (marked v d.failure d) t) ≡ some (marked v d.failure d) =
          raised-at h ∙ rw q in
        let same : o.0 ≡ marked v d.failure d = cc (o.1, here) in
        (
          d,
          ap (λ x. find x t) (sym (beq→eq q)) ∙ found,
          subst (λ x. is_eligible x ≡ false) same o.2,
        )
    | inr q ↦
        let here : find h (insert c (marked v d.failure d) t) ≡ find h t = raised-at h ∙ rw q in
        (o.0, sym here ∙ o.1, o.2)
  ]
