-- ===== src/Consensus/Validation/Distinct.antt =====
-- No outpoint is spent twice: the sets of `CheckTransaction` and `CheckBlock`.
use amarian_amr.Base.{
  ◌≡◌, ◌↔◌, inl, inr, refl, sym, false, List, [], ◌∷◌, arith, All, ◌==◌, Bool-cases,
}
use amarian_amr.Base.Result.{ok, >>=-eq_ok, reject_if-eq_ok}
use amarian_amr.Primitives.OutPoint.{OutPoint, outpoint_eq, outpoint_beq_iff}
use amarian_amr.Primitives.Transaction.{Transaction}
use amarian_amr.Consensus.Validation.{ValidationError, block_duplicate_spend}
use amarian_amr.Consensus.Validation.Structure.{is_seen, insert_all}
use amarian_amr.Consensus.Validation.Blocks.{spent_outpoints, check_no_duplicate_spend}

-- The outpoint is not in the list.
unfoldable pub Absent : OutPoint → List OutPoint → Type 0
Absent o [] = Unit {0}
Absent o (p ∷ ps) = ((o ≡ p) → ⊥) × Absent o ps

-- No outpoint comes twice.
unfoldable pub Unrepeated : List OutPoint → Type 0
Unrepeated [] = Unit {0}
Unrepeated (o ∷ os) = Absent o os × Unrepeated os

is_seen-Absent : (o : OutPoint) (ps : List OutPoint) → is_seen o ps ≡ false → Absent o ps
unfolding is_seen Absent
is_seen-Absent o [] h = tt
is_seen-Absent o (p ∷ ps) h = elim (Bool-cases (o == p)) [
  | inl q ↦ absurd (cc (rw q at h))
  | inr q ↦ (λ e. ground (arith, outpoint_beq_iff o p), is_seen-Absent o ps (rw q at h))
]

-- The outpoints of the list are new to the set.
Unmet : List OutPoint → List OutPoint → Type 0
Unmet os seen = All (λ (o : OutPoint). Absent o seen) os

Unmet-split :
    (o : OutPoint) (os seen : List OutPoint) → Unmet os (o ∷ seen) → Absent o os × Unmet os seen
unfolding Absent Unmet
Unmet-split o [] seen h = (tt, tt)
Unmet-split o (p ∷ ps) seen h =
    let rest = Unmet-split o ps seen h.1 in (((λ e. h.0.0 (sym e)), rest.0), (h.0.1, rest.1))

Unmet-join :
    (o : OutPoint) (os seen : List OutPoint) → Absent o os → Unmet os seen → Unmet os (o ∷ seen)
unfolding Absent Unmet
Unmet-join o [] seen a h = tt
Unmet-join o (p ∷ ps) seen a h = ((((λ e. a.0 (sym e)), h.0)), Unmet-join o ps seen a.1 h.1)

Absent-is_seen : (o : OutPoint) (ps : List OutPoint) → Absent o ps → is_seen o ps ≡ false
unfolding is_seen Absent
Absent-is_seen o [] h = refl
Absent-is_seen o (p ∷ ps) h = elim (Bool-cases (o == p)) [
  | inl q ↦ absurd (h.0 ((outpoint_beq_iff o p).0 q))
  | inr q ↦ rw q (Absent-is_seen o ps h.1)
]

insert_all-eq_ok :
    (e : ValidationError) (os seen after : List OutPoint)
    → insert_all e seen os ≡ ok after
    → Unrepeated os × Unmet os seen
unfolding insert_all Unrepeated Unmet
insert_all-eq_ok e [] seen after h = (tt, tt)
insert_all-eq_ok e (o ∷ os) seen after h =
    let q = reject_if-eq_ok (is_seen o seen) e (insert_all e (o ∷ seen) os) h in
    let r = insert_all-eq_ok e os (o ∷ seen) after q.1 in
    let s = Unmet-split o os seen r.1 in ((s.0, r.0), (is_seen-Absent o seen q.0, s.1))

insert_all-ok :
    (e : ValidationError) (os seen : List OutPoint)
    → Unrepeated os
    → Unmet os seen
    → (after : List OutPoint) × (insert_all e seen os ≡ ok after)
unfolding insert_all Unrepeated Unmet
insert_all-ok e [] seen u m = (seen, refl)
insert_all-ok e (o ∷ os) seen u m =
    let r = insert_all-ok e os (o ∷ seen) u.1 (Unmet-join o os seen u.0 m.1) in
    (r.0, rw (Absent-is_seen o seen m.0) r.1)

none_met : (os : List OutPoint) → Unmet os []
unfolding Unmet Absent
none_met [] = tt
none_met (o ∷ os) = (tt, none_met os)

-- An empty set takes in only outpoints that do not repeat.
pub insert_all_from_nothing :
    (e : ValidationError) (os after : List OutPoint) → insert_all e [] os ≡ ok after → Unrepeated os
insert_all_from_nothing e os after h = (insert_all-eq_ok e os [] after h).0

-- The last check of a block accepts exactly when no outpoint is spent twice by its transactions, be it
-- by two of them or by one.
pub check_no_duplicate_spend_iff :
    (txs : List Transaction)
    → (check_no_duplicate_spend txs ≡ ok tt) ↔ Unrepeated (spent_outpoints txs)
unfolding check_no_duplicate_spend
check_no_duplicate_spend_iff txs =
    let os = spent_outpoints txs in
    (
      λ h.
          let q = >>=-eq_ok (insert_all block_duplicate_spend [] os) (λ spent. ok tt) h in
          (insert_all-eq_ok block_duplicate_spend os [] q.0 q.1).0,
      λ u. let r = insert_all-ok block_duplicate_spend os [] u (none_met os) in rw r.1 refl,
    )
