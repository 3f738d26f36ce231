-- ===== src/Chain/Switch/Retreat.antt =====
-- The first two loops of PlanChainSwitch: src/chain/block_index.cpp.
use amarian_amr.Base.{
  ℕ, zero, suc, ◌+◌, ◌<◌, ◌≤◌, ◌≡◌, inl, inr, refl, sym, subst, ◌∙◌, some, List, [], ◌∷◌, ◌++◌,
  append-nil, append_assoc, ltb, nat_eq, list_eq, arith, Bool-cases,
}
use amarian_amr.Chain.Index.{BlockIndex, Entry, parent_of}
use amarian_amr.Chain.Linked.{IsLinked}
use amarian_amr.Chain.Switch.{Passage, retreat}
use amarian_amr.Chain.Switch.Paths.{Falls, IsAncestor, IsStored, root-or-child, IsAncestor-parent}

module _ (ix : BlockIndex) (l : IsLinked ix.entries ix.children ix.genesis ix.next_sequence) where
  -- Where the walk of the first two loops ends.
  pub record Retreated (e other : Entry) (passed : List Entry) (r : Passage) : Type 0 where
    pub reached : Entry
    pub stands : r.stand ≡ some reached
    pub stored : IsStored ix l reached
    pub seen : List Entry
    pub recorded : r.passed ≡ passed ++ seen
    pub path : Falls ix e seen reached
    pub below : reached.height ≤ other.height
    pub level : other.height ≤ e.height → reached.height ≡ other.height
    pub unmoved : e.height ≤ other.height → reached ≡ e
    pub shared : (g : Entry) → g.height ≤ other.height → IsAncestor ix e g → IsAncestor ix reached g

  stays-Retreated :
      (e other : Entry) (passed : List Entry)
      → IsStored ix l e
      → e.height ≤ other.height
      → Retreated e other passed (record { stand = some e; passed = passed })
  stays-Retreated e other passed s k = record {
    reached = e;
    stands = refl;
    stored = s;
    seen = [];
    recorded = sym (append-nil passed);
    path = refl;
    below = k;
    level = λ h. omega arith;
    unmoved = λ h. refl;
    shared = λ g h a. a;
  }

  moves-Retreated :
      (e other a : Entry) (passed : List Entry) (r : Passage)
      → other.height < e.height
      → parent_of ix (some e) ≡ some a
      → e.height ≡ a.height + 1
      → Retreated a other (passed ++ e ∷ []) r
      → Retreated e other passed r
  moves-Retreated e other a passed r k up one next = record {
    reached = next.reached;
    stands = next.stands;
    stored = next.stored;
    seen = e ∷ next.seen;
    recorded = next.recorded ∙ append_assoc passed (e ∷ []) next.seen;
    path = (refl, a, up, next.path);
    below = next.below;
    level = λ h. next.level (omega arith);
    unmoved = λ h. absurd (omega arith);
    shared = λ g h anc. next.shared g h (IsAncestor-parent ix l e a g up anc (omega arith));
  }

  pub retreat-Retreated :
      (fuel : ℕ) (e other : Entry) (passed : List Entry)
      → e.height < fuel
      → IsStored ix l e
      → Retreated e other passed (retreat ix fuel (some other) (some e) passed)
  unfolding retreat
  retreat-Retreated zero e other passed k s = absurd (omega arith)
  retreat-Retreated (suc fuel) e other passed k s = elim (Bool-cases (ltb other.height e.height)) [
    | inl q ↦ elim (root-or-child ix l e s) [
      | inl (top, low, root) ↦ absurd (ground (arith, q, low))
      | inr (a, up, one, s') ↦ rw q (
          moves-Retreated e other a passed _ (ground (arith, q)) up one (
            subst
              (λ o.
                Retreated a other (passed ++ e ∷ [])
                  (retreat ix fuel (some other) o (passed ++ e ∷ [])))
              (sym up)
              (retreat-Retreated fuel a other (passed ++ e ∷ []) (omega (arith, k, one)) s')))
    ]
    | inr q ↦ rw q (stays-Retreated e other passed s (ground (arith, q)))
  ]
