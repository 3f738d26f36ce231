-- ===== src/Chain/Sound/Marking.antt =====
-- `RecordValidity` and `RecordFailure` keep the invariant of the index.
use amarian_amr.Base.{
  ◌+◌, ◌<◌, ◌≡◌, inl, inr, refl, ap, subst, ◌∙◌, Bool, true, false, Option, none, some, [], ◌∷◌,
  length, ltb, if◌then◌else◌, nat_eq, list_eq, arith, Bool-cases,
}
use amarian_amr.Base.Table.{find, insert, Distinct, insert-Distinct}
use amarian_amr.Primitives.Hash.{Hash256}
use amarian_amr.Chain.Index.{BlockIndex, Entry, BlockValidity, itself, is_eligible, find_or_none}
use amarian_amr.Chain.Marks.{
  Entries, marked, rung, raise, validity_found, record_validity, Walk, walk_subtree, rescan,
  hash_of, is_eligible_best, refresh_best, failure_found, record_failure,
}
use amarian_amr.Chain.Linked.{
  IsLinked, IsLinked-Similar, Similar, Similar-refl, Similar-mark, Similar-trans,
}
use amarian_amr.Chain.Best.{IsBest, rescan-IsBest}
use amarian_amr.Chain.Failure.{
  IsDone, IsClosed, Out, Pending, left, live-insert, live-le, out-stays, out-new,
  walk_subtree-IsDone, walk_subtree-Distinct,
}
use amarian_amr.Chain.Sound.{IsSound}
use amarian_amr.Chain.Sound.Marked.{
  Out-Failed, alive_or_out, raised-stays, raised-back, IsBest-kept, IsClosed-kept, clash,
}

module _ (ix : BlockIndex) (s : IsSound ix) (hash : Hash256) where
  raised :
      (d : Entry) (reached : BlockValidity)
      → find d.hash ix.entries ≡ some d
      → IsSound (record ix { entries = insert d.hash (marked reached d.failure d) ix.entries })
  raised d reached k =
      let u = insert d.hash (marked reached d.failure d) ix.entries in
      let similar = Similar-mark d.hash reached d.failure d ix.entries k in
      let stays = raised-stays d.hash d ix.entries reached k in
      let back = raised-back d.hash d ix.entries reached k in
      record {
        linked =
            IsLinked-Similar ix.entries u ix.children ix.genesis ix.next_sequence similar s.linked;
        distinct = insert-Distinct d.hash (marked reached d.failure d) ix.entries s.distinct;
        closed = IsClosed-kept ix.entries u similar stays back s.closed;
        best = IsBest-kept ix.entries u similar stays ix.best_header s.best (λ h e' q i.
            let (w, found, alive, beats) = s.best.chosen h q in
            alive_or_out u h e' i (λ o. clash alive (Out-Failed ix.entries h (back h o) w found)));
      }

  pub record_validity-IsSound :
      (reached : BlockValidity) → IsSound (record_validity hash reached ix)
  unfolding record_validity raise
  record_validity-IsSound reached = known (find hash ix.entries) refl
    where
      known : (o : Option Entry) → find hash ix.entries ≡ o → IsSound (validity_found o reached ix)
      known none k = s
      known (some d) k = elim (Bool-cases (ltb (rung d.validity) (rung reached))) [
        | inl q ↦
            rw q (raised d reached (ap (λ x. find x ix.entries) (s.linked.hashed hash d k) ∙ k))
        | inr q ↦ rw q s
      ]

  -- Where the recorded best header is still eligible it is still best, and otherwise a scan finds another.
  refreshed :
      (u : Entries)
      → Similar ix.entries u
      → ((h : Hash256) → Out ix.entries h → Out u h)
      → Distinct u
      → IsClosed u
      → IsSound (refresh_best (record ix { entries = u }))
  unfolding refresh_best
  refreshed u similar stays distinct closed = recorded ix.best_header refl
    where
      linked : IsLinked u ix.children ix.genesis ix.next_sequence
      linked =
          IsLinked-Similar ix.entries u ix.children ix.genesis ix.next_sequence similar s.linked

      sound :
          (best : Option Hash256)
          → IsBest u best
          → IsSound (record ix { entries = u; best_header = best })
      sound best is_best = record {
        linked = linked;
        distinct = distinct;
        closed = closed;
        best = is_best;
      }

      scanned : IsSound (record ix { entries = u; best_header = hash_of (rescan u none) })
      scanned = sound (hash_of (rescan u none)) (rescan-IsBest u distinct linked.hashed)

      alive :
          (best : Option Hash256)
          → is_eligible_best (find_or_none (record ix { entries = u }) best) ≡ true
          → (h : Hash256) (e : Entry) → best ≡ some h
          → find h u ≡ some e
          → is_eligible e ≡ true
      alive none q h e k found = absurd (cc (k))
      alive (some j) q h e k found =
          let key : j ≡ h = cc (k) in
          subst (λ o. is_eligible_best o ≡ true) (ap (λ x. find x u) key ∙ found) q

      recorded :
          (best : Option Hash256)
          → ix.best_header ≡ best
          → IsSound (
              if is_eligible_best (find_or_none (record ix { entries = u }) ix.best_header)
              then record ix { entries = u }
              else record ix { entries = u; best_header = hash_of (rescan u none) })
      recorded best k =
          elim (Bool-cases
            (is_eligible_best (find_or_none (record ix { entries = u }) ix.best_header))) [
              | inl q ↦ rw q (
                  sound ix.best_header (
                    IsBest-kept ix.entries u similar stays ix.best_header s.best
                      (alive ix.best_header q)))
              | inr q ↦ rw q scanned
            ]

  -- The walk from an entry that is just marked.
  module _ (root : Entry) (found : find hash ix.entries ≡ some root)
      (live_root : is_eligible root ≡ true) where
    abbrev first : Walk
    first = record {
      frontier = hash ∷ [];
      count = 1;
      entries = insert hash (marked root.validity itself root) ix.entries;
    }

    first-Pending : Pending ix.children first
    first-Pending h o = elim (out-new hash root ix.entries root.validity itself found refl h o) [
      | inr q ↦ inl (inl q)
      | inl old ↦ inr (λ c m.
          let (e, below, up) = s.linked.named h c m in
          let dead = s.closed c h e below up old in
          Out-Failed first.entries c
            (out-stays hash root ix.entries root.validity itself found refl c (e, below, dead)))
    ]

    first-left : left first < length ix.entries + 1
    unfolding left
    first-left = omega (
      arith,
      live-insert hash root (marked root.validity itself root) ix.entries found live_root refl,
      live-le ix.entries,
    )

    walked :
        IsDone ix.children first.entries
          (walk_subtree (length ix.entries + 1) ix.children first).entries
    walked = walk_subtree-IsDone (length ix.entries + 1) ix.children first first-left first-Pending

    marked-Similar :
        Similar ix.entries (walk_subtree (length ix.entries + 1) ix.children first).entries
    marked-Similar =
        Similar-trans ix.entries first.entries _
          (Similar-mark hash root.validity itself root ix.entries found) walked.similar

    failed-Similar : Similar ix.entries (failure_found (some root) hash ix).1.entries
    unfolding refresh_best
    failed-Similar = rw live_root (
        ground_cases (
          is_eligible_best (
            find_or_none
              (record ix {
                entries = (walk_subtree (length ix.entries + 1) ix.children first).entries;
              })
              ix.best_header)))
      where
        ground_cases :
            (t : Bool)
            → Similar ix.entries
                (if t
                  then record ix {
                    entries = (walk_subtree (length ix.entries + 1) ix.children first).entries;
                  }
                  else record ix {
                    entries = (walk_subtree (length ix.entries + 1) ix.children first).entries;
                    best_header = hash_of (
                        rescan
                          (walk_subtree (length ix.entries + 1) ix.children first).entries
                          none);
                  }).entries
        ground_cases true = marked-Similar
        ground_cases false = marked-Similar

    failed : IsSound (failure_found (some root) hash ix).1
    failed =
        let done =
          walk_subtree-IsDone (length ix.entries + 1) ix.children first first-left first-Pending in
        let u = (walk_subtree (length ix.entries + 1) ix.children first).entries in
        let similar =
          Similar-trans ix.entries first.entries u
            (Similar-mark hash root.validity itself root ix.entries found) done.similar in
        let linked =
          IsLinked-Similar ix.entries u ix.children ix.genesis ix.next_sequence similar s.linked in
        rw live_root (
          refreshed u similar
            (λ h o.
              done.out_stays h (out-stays hash root ix.entries root.validity itself found refl h o))
            (walk_subtree-Distinct (length ix.entries + 1) ix.children first
              (insert-Distinct hash (marked root.validity itself root) ix.entries s.distinct))
            (λ h p e k up o.
              let child = linked.descended h p e k up in
              done.below p e.hash o child.listed e (ap (λ x. find x u) (linked.hashed h e k) ∙ k)))

  pub record_failure-IsSound : IsSound (record_failure hash ix).1
  unfolding record_failure
  record_failure-IsSound = known (find hash ix.entries) refl
    where
      known : (o : Option Entry) → find hash ix.entries ≡ o → IsSound (failure_found o hash ix).1
      known none k = s
      known (some root) k = elim (Bool-cases (is_eligible root)) [
        | inl alive ↦ failed root k alive
        | inr dead ↦ rw dead s
      ]

  pub record_failure-Similar : Similar ix.entries (record_failure hash ix).1.entries
  unfolding record_failure
  record_failure-Similar = known (find hash ix.entries) refl
    where
      known :
          (o : Option Entry)
          → find hash ix.entries ≡ o
          → Similar ix.entries (failure_found o hash ix).1.entries
      known none k = Similar-refl ix.entries
      known (some root) k = elim (Bool-cases (is_eligible root)) [
        | inl alive ↦ failed-Similar root k alive
        | inr dead ↦ rw dead (Similar-refl ix.entries)
      ]

  pub record_validity-Similar :
      (reached : BlockValidity) → Similar ix.entries (record_validity hash reached ix).entries
  unfolding record_validity raise
  record_validity-Similar reached = known (find hash ix.entries) refl
    where
      known :
          (o : Option Entry)
          → find hash ix.entries ≡ o
          → Similar ix.entries (validity_found o reached ix).entries
      known none k = Similar-refl ix.entries
      known (some d) k = elim (Bool-cases (ltb (rung d.validity) (rung reached))) [
        | inl q ↦ rw q (
            Similar-mark d.hash reached d.failure d ix.entries
              (ap (λ x. find x ix.entries) (s.linked.hashed hash d k) ∙ k))
        | inr q ↦ rw q (Similar-refl ix.entries)
      ]
