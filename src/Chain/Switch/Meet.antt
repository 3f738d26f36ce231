-- ===== src/Chain/Switch/Meet.antt =====
-- The third loop of PlanChainSwitch: src/chain/block_index.cpp.
use amarian_amr.Base.{
  ℕ, zero, suc, ◌<◌, ◌≤◌, ◌≡◌, inl, inr, refl, sym, ap, subst, ◌∙◌, Bool, true, false, some, List,
  [], ◌∷◌, ◌++◌, append-nil, append_assoc, ltb, ◌==◌, nat_eq, list_eq, beq→eq, beq_refl, arith,
  Bool-cases,
}
use amarian_amr.Base.Table.{find}
use amarian_amr.Chain.Index.{BlockIndex, Entry, parent_of}
use amarian_amr.Chain.Linked.{IsLinked}
use amarian_amr.Chain.Switch.{BothWalks, step_back}
use amarian_amr.Chain.Switch.Paths.{
  Falls, IsAncestor, IsStored, root-or-child, IsAncestor-parent, ancestor-here,
}

module _ (ix : BlockIndex) (l : IsLinked ix.entries ix.children ix.genesis ix.next_sequence) where
  -- Where the walk of the third loop ends.
  pub record Met (e t : Entry) (out back : List Entry) (r : BothWalks) : Type 0 where
    pub fork : Entry
    pub older : r.older ≡ some fork
    pub newer : r.newer ≡ some fork
    pub stored : IsStored ix l fork
    pub outs : List Entry
    pub recorded_out : r.disconnect ≡ out ++ outs
    pub backs : List Entry
    pub recorded_back : r.connect ≡ back ++ backs
    pub down : Falls ix e outs fork
    pub up : Falls ix t backs fork
    pub shared : (g : Entry) → IsAncestor ix e g → IsAncestor ix t g → IsAncestor ix fork g

  stays-Met :
      (e t : Entry) (out back : List Entry)
      → IsStored ix l e
      → e ≡ t
      → Met e t out back
          (record { older = some e; newer = some t; disconnect = out; connect = back })
  stays-Met e t out back s same = record {
    fork = e;
    older = refl;
    newer = ap (λ x. some x) (sym same);
    stored = s;
    outs = [];
    recorded_out = sym (append-nil out);
    backs = [];
    recorded_back = sym (append-nil back);
    down = refl;
    up = sym same;
    shared = λ g h k. h;
  }

  moves-Met :
      (e t a c : Entry) (out back : List Entry) (r : BothWalks)
      → IsStored ix l e
      → IsStored ix l t
      → (e ≡ t → ⊥)
      → e.height ≡ t.height
      → parent_of ix (some e) ≡ some a
      → parent_of ix (some t) ≡ some c
      → Met a c (out ++ e ∷ []) (back ++ t ∷ []) r
      → Met e t out back r
  moves-Met e t a c out back r s s' apart level up_e up_t next = record {
    fork = next.fork;
    older = next.older;
    newer = next.newer;
    stored = next.stored;
    outs = e ∷ next.outs;
    recorded_out = next.recorded_out ∙ append_assoc out (e ∷ []) next.outs;
    backs = t ∷ next.backs;
    recorded_back = next.recorded_back ∙ append_assoc back (t ∷ []) next.backs;
    down = (refl, a, up_e, next.down);
    up = (refl, c, up_t, next.up);
    shared = λ g h k.
        let lower : g.height < e.height = low g h k in
        next.shared g (IsAncestor-parent ix l e a g up_e h lower)
          (IsAncestor-parent ix l t c g up_t k (omega arith));
  }
    where
      low : (g : Entry) → IsAncestor ix e g → IsAncestor ix t g → g.height < e.height
      low g h k = elim (Bool-cases (ltb g.height e.height)) [
        | inl q ↦ ground (arith, q)
        | inr q ↦
            let high : e.height ≤ g.height = ground (arith, q) in
            absurd (
              apart
                (ancestor-here ix l e g s h high ∙ sym (ancestor-here ix l t g s' k (omega arith))))
      ]

  same_stored : (e t : Entry) → IsStored ix l e → IsStored ix l t → e.hash ≡ t.hash → e ≡ t
  same_stored e t s s' q = cc (s, s', ap (λ x. find x ix.entries) q)

  pub step_back-Met :
      (fuel : ℕ) (e t : Entry) (out back : List Entry)
      → t.height < fuel
      → e.height ≡ t.height
      → IsStored ix l e
      → IsStored ix l t
      → Met e t out back (step_back ix fuel (some e) (some t) out back)
  unfolding step_back
  step_back-Met zero e t out back k level s s' = absurd (omega arith)
  step_back-Met (suc fuel) e t out back k level s s' = elim (Bool-cases (e.hash == t.hash)) [
    | inl q ↦ rw q (stays-Met e t out back s (same_stored e t s s' (beq→eq q)))
    | inr q ↦ elim (root-or-child ix l e s) [
      | inl (top, low, root) ↦ elim (root-or-child ix l t s') [
        | inl (top', low', root') ↦ absurd (
            clash
              (subst (λ x. (e.hash == x) ≡ true) (root ∙ sym root') (beq_refl {A = List ℕ} e.hash))
              q)
        | inr (c, up', one', stored') ↦ absurd (omega (arith, low, one', level))
      ]
      | inr (a, up, one, stored) ↦ elim (root-or-child ix l t s') [
        | inl (top', low', root') ↦ absurd (omega (arith, low', one, level))
        | inr (c, up', one', stored') ↦ rw q (
            moves-Met e t a c out back _ s s'
              (λ same.
                clash
                  (subst (λ x. (e.hash == x) ≡ true) (ap (λ x. Entry.hash x) same)
                    (beq_refl {A = List ℕ} e.hash))
                  q)
              level up up'
              (subst
                (λ o.
                  Met a c (out ++ e ∷ []) (back ++ t ∷ [])
                    (step_back ix fuel o (parent_of ix (some t)) (out ++ e ∷ []) (back ++ t ∷ [])))
                (sym up)
                (subst
                  (λ o.
                    Met a c (out ++ e ∷ []) (back ++ t ∷ [])
                      (step_back ix fuel (some a) o (out ++ e ∷ []) (back ++ t ∷ [])))
                  (sym up')
                  (step_back-Met fuel a c (out ++ e ∷ []) (back ++ t ∷ []) (omega (arith, k, one'))
                    (omega (arith, one, one', level)) stored stored'))))
      ]
    ]
  ]
    where
      clash : {x : Bool} → x ≡ true → x ≡ false → ⊥
      clash h k = cc
