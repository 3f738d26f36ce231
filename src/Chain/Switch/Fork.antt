-- ===== src/Chain/Switch/Fork.antt =====
-- A planned switch goes down to the deepest block that both branches share, and up from there.
use amarian_amr.Base.{
  ℕ, ◌+◌, ◌≤◌, ◌≡◌, refl, sym, ap, subst, ◌∙◌, some, List, [], ◌++◌, nat_eq, list_eq, beq_refl,
  arith,
}
use amarian_amr.Base.Table.{find}
use amarian_amr.Chain.Index.{BlockIndex, Entry}
use amarian_amr.Chain.Linked.{IsLinked}
use amarian_amr.Chain.Switch.{
  ChainSwitch, Passage, BothWalks, retreat, step_back, meeting, turned, rounds, plan_chain_switch,
}
use amarian_amr.Chain.Switch.Paths.{
  Falls, Rises, IsAncestor, IsStored, Rises-turned, Falls-append, ancestor-low,
}
use amarian_amr.Chain.Switch.Retreat.{Retreated, retreat-Retreated}
use amarian_amr.Chain.Switch.Meet.{Met, step_back-Met}

-- What a plan between two entries has to be.
pub record IsSwitch (ix : BlockIndex) (from to : Entry) (plan : ChainSwitch) : Type 0 where
  pub fork : Entry
  pub forked : plan.fork_point ≡ some fork
  pub down : Falls ix from plan.disconnect fork
  pub up : Rises ix fork plan.connect to
  pub deepest : (g : Entry) → IsAncestor ix from g → IsAncestor ix to g → g.height ≤ fork.height

module _ (ix : BlockIndex) (l : IsLinked ix.entries ix.children ix.genesis ix.next_sequence) where
  joined-IsSwitch :
      (from to : Entry)
      → IsStored ix l from
      → IsStored ix l to
      → (dn : Passage) (d : Retreated ix l from to [] dn) (up : Passage)
        (u : Retreated ix l to d.reached [] up) (met : BothWalks)
      → Met ix l d.reached u.reached dn.passed up.passed met
      → IsSwitch ix from to (record {
        fork_point = meeting met.older met.newer;
        disconnect = met.disconnect;
        connect = turned met.connect [];
      })
  joined-IsSwitch from to s s' dn d up u met m = record {
    fork = m.fork;
    forked = rw (m.older, m.newer, beq_refl {A = List ℕ} m.fork.hash);
    down =
        subst (λ x. Falls ix from x m.fork)
          (sym (m.recorded_out ∙ ap (λ x. x ++ m.outs) d.recorded))
          (Falls-append ix from d.reached m.fork d.seen m.outs d.path m.down);
    up =
        subst (λ x. Rises ix m.fork (turned x []) to)
          (sym (m.recorded_back ∙ ap (λ x. x ++ m.backs) u.recorded))
          (Rises-turned ix to m.fork to (u.seen ++ m.backs) []
            (Falls-append ix to u.reached m.fork u.seen m.backs u.path m.up) refl);
    deepest = λ g h k.
        let at_level = d.shared g (ancestor-low ix l to g k.0 s' k.1) h in
        let meets = u.shared g (ancestor-low ix l d.reached g at_level.0 d.stored at_level.1) k in
        let common = m.shared g at_level meets in
        ancestor-low ix l m.fork g common.0 m.stored common.1;
  }

  abbrev planned : Passage → Passage → ChainSwitch
  planned dn up =
      let met = step_back ix (rounds up.stand) dn.stand up.stand dn.passed up.passed in
      record {
        fork_point = meeting met.older met.newer;
        disconnect = met.disconnect;
        connect = turned met.connect [];
      }

  planned-IsSwitch :
      (from to : Entry)
      → IsStored ix l from
      → IsStored ix l to
      → (dn : Passage) (d : Retreated ix l from to [] dn) (up : Passage)
        (u : Retreated ix l to d.reached [] up)
      → IsSwitch ix from to (planned dn up)
  planned-IsSwitch from to s s' dn d up u =
      joined-IsSwitch from to s s' dn d up u
        (step_back ix (rounds up.stand) dn.stand up.stand dn.passed up.passed)
        (rw (d.stands, u.stands)
          (step_back-Met ix l (u.reached.height + 1) d.reached u.reached dn.passed up.passed
            (omega arith) (sym (u.level d.below)) d.stored u.stored))

-- Between two entries of a linked index, the switch that PlanChainSwitch plans goes from the old tip down
-- through the entries to disconnect, each the parent of the one before, to a fork point, and from there
-- up through the entries to connect, each a child of the one before, to the new tip; and no entry that
-- is an ancestor of both tips is higher than the fork point.
pub plan_chain_switch-IsSwitch :
    (ix : BlockIndex)
    → IsLinked ix.entries ix.children ix.genesis ix.next_sequence
    → (from to : Entry) → find from.hash ix.entries ≡ some from
    → find to.hash ix.entries ≡ some to
    → IsSwitch ix from to (plan_chain_switch ix (some from) (some to))
unfolding plan_chain_switch
plan_chain_switch-IsSwitch ix l from to s s' =
    let d = retreat-Retreated ix l (from.height + 1) from to [] (omega arith) s in
    let dn = retreat ix (from.height + 1) (some to) (some from) [] in
    let above : Retreated ix l to d.reached [] (retreat ix (to.height + 1) dn.stand (some to) []) =
      subst (λ o. Retreated ix l to d.reached [] (retreat ix (to.height + 1) o (some to) []))
        (sym d.stands) (retreat-Retreated ix l (to.height + 1) to d.reached [] (omega arith) s') in
    planned-IsSwitch ix l from to s s' dn d (retreat ix (to.height + 1) dn.stand (some to) []) above
