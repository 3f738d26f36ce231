-- ===== src/Chain/Switch/Paths.antt =====
-- Paths along parent links in an index: src/chain/block_index.cpp.
use amarian_amr.Base.{
  ◌+◌, ◌<◌, ◌≤◌, ◌≡◌, ◌⊎◌, inl, inr, refl, sym, ap, subst, ◌∙◌, Option, none, some, List, [], ◌∷◌,
  ◌++◌, nat_eq, list_eq, arith,
}
use amarian_amr.Base.Table.{find}
use amarian_amr.Primitives.Hash.{Hash256}
use amarian_amr.Chain.Index.{BlockIndex, Entry, parent_of}
use amarian_amr.Chain.Linked.{IsLinked}
use amarian_amr.Chain.Switch.{turned}

-- The entries from one down to an ancestor, that one left out.
abbrev pub Falls : BlockIndex → Entry → List Entry → Entry → Type 0
Falls ix e [] f = e ≡ f
Falls ix e (x ∷ xs) f = (x ≡ e) × (a : Entry) × (parent_of ix (some e) ≡ some a) × Falls ix a xs f

-- The entries above one, each a child of the one before, up to another.
abbrev pub Rises : BlockIndex → Entry → List Entry → Entry → Type 0
Rises ix f [] t = f ≡ t
Rises ix f (x ∷ xs) t = (parent_of ix (some x) ≡ some f) × Rises ix x xs t

-- An ancestor, or the entry itself.
abbrev pub IsAncestor : BlockIndex → Entry → Entry → Type 0
IsAncestor ix e g = (xs : List Entry) × Falls ix e xs g

pub Rises-turned :
    (ix : BlockIndex) (e f t : Entry) (xs acc : List Entry)
    → Falls ix e xs f
    → Rises ix e acc t
    → Rises ix f (turned xs acc) t
unfolding turned
Rises-turned ix e f t [] acc h k = subst (λ x. Rises ix x acc t) h k
Rises-turned ix e f t (x ∷ xs) acc (q, a, up, rest) k =
    Rises-turned ix a f t xs (x ∷ acc) rest
      (ap (λ y. parent_of ix (some y)) q ∙ up, subst (λ y. Rises ix y acc t) (sym q) k)

pub Falls-append :
    (ix : BlockIndex) (e a f : Entry) (xs ys : List Entry)
    → Falls ix e xs a
    → Falls ix a ys f
    → Falls ix e (xs ++ ys) f
Falls-append ix e a f [] ys h k = subst (λ x. Falls ix x ys f) (sym h) k
Falls-append ix e a f (x ∷ xs) ys (q, b, up, rest) k =
    (q, b, up, Falls-append ix b a f xs ys rest k)

-- A walk in a linked index.
module _ (ix : BlockIndex) (l : IsLinked ix.entries ix.children ix.genesis ix.next_sequence) where
  abbrev pub IsStored : Entry → Type 0
  IsStored e = find e.hash ix.entries ≡ some e

  abbrev pub IsRoot : Entry → Type 0
  IsRoot e = (parent_of ix (some e) ≡ none) × (e.height ≡ 0) × (e.hash ≡ ix.genesis)

  abbrev pub IsOneUp : Entry → Type 0
  IsOneUp e =
      (a : Entry) × (parent_of ix (some e) ≡ some a) × (e.height ≡ a.height + 1) × IsStored a

  -- An entry is the root, or stands on one that is one lower.
  pub root-or-child :
      (e : Entry)
      → IsStored e
      → ((parent_of ix (some e) ≡ none) × (e.height ≡ 0) × (e.hash ≡ ix.genesis))
        ⊎ ((a : Entry) × (parent_of ix (some e) ≡ some a) × (e.height ≡ a.height + 1) × IsStored a)
  root-or-child e s = split e.parent refl
    where
      split : (o : Option Hash256) → e.parent ≡ o → IsRoot e ⊎ IsOneUp e
      split none q = let root = l.rooted e.hash e s q in inl (rw q refl, root.1, root.0)
      split (some p) q =
          let child = l.descended e.hash p e s q in
          let key = l.hashed p child.above child.found in
          inr (
            child.above,
            rw q child.found,
            child.one_higher,
            ap (λ x. find x ix.entries) key ∙ child.found,
          )

  pub ancestor-low :
      (e g : Entry) (xs : List Entry) → IsStored e → Falls ix e xs g → g.height ≤ e.height
  ancestor-low e g [] s h = omega (arith, ap (λ x. Entry.height x) h)
  ancestor-low e g (x ∷ xs) s (q, a, up, rest) = elim (root-or-child e s) [
    | inl (top, low, root) ↦ absurd (cc (top, up))
    | inr (b, up', one, s') ↦
        let same : b ≡ a = cc (up, up') in
        omega (
          arith,
          ancestor-low a g xs (subst IsStored same s') rest,
          one,
          ap (λ x. Entry.height x) same,
        )
  ]

  -- An ancestor that is lower is an ancestor of the parent.
  pub IsAncestor-parent :
      (e a g : Entry)
      → parent_of ix (some e) ≡ some a
      → IsAncestor ix e g
      → g.height < e.height
      → IsAncestor ix a g
  IsAncestor-parent e a g up ([], h) k = absurd (omega (arith, ap (λ x. Entry.height x) h))
  IsAncestor-parent e a g up (x ∷ xs, (q, b, up', rest)) k =
      let same : b ≡ a = cc (up, up') in (xs, subst (λ y. Falls ix y xs g) same rest)

  pub ancestor-here : (e g : Entry) → IsStored e → IsAncestor ix e g → e.height ≤ g.height → e ≡ g
  ancestor-here e g s ([], h) k = h
  ancestor-here e g s (x ∷ xs, (q, a, up, rest)) k = elim (root-or-child e s) [
    | inl (top, low, root) ↦ absurd (cc (top, up))
    | inr (b, up', one, s') ↦
        let same : b ≡ a = cc (up, up') in
        absurd (
          omega (
            arith,
            ancestor-low a g xs (subst IsStored same s') rest,
            one,
            ap (λ x. Entry.height x) same,
          ))
  ]
