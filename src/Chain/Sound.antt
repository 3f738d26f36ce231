-- ===== src/Chain/Sound.antt =====
-- The invariant of the index, kept by every operation.
pub mod Marked
pub mod Marking
pub mod Reach
use amarian_amr.Base.{
  ℕ, zero, suc, ◌+◌, ◌<◌, ◌≡◌, ◌⊎◌, inl, inr, refl, sym, ap, ap₂, subst, ◌∙◌, Bool, true, false,
  not, Option, none, some, List, [], ◌∷◌, length, if◌then◌else◌, ◌==◌, nat_eq, list_eq, beq→eq,
  beq_refl, arith, Bool-cases,
}
use amarian_amr.Base.Int.{ℤ}
use amarian_amr.Base.Result.{Result, ok, err, ◌>>=◌, ◌>>◌, reject_if, reject_if-eq_ok, >>=-eq_ok}
use amarian_amr.Base.Table.{find, insert, find-insert, Distinct, insert-Distinct}
use amarian_amr.Crypto.{Backend}
use amarian_amr.Primitives.Hash.{Hash256}
use amarian_amr.Primitives.Block.{BlockHeader}
use amarian_amr.Primitives.Digests.{header_hash}
use amarian_amr.Consensus.Params.{ChainParams}
use amarian_amr.Consensus.Validation.{Verdict}
use amarian_amr.Consensus.Validation.Header.{check_block_header, contextual_check_block_header}
use amarian_amr.Consensus.Validation.Timestamps.{Extends, contextual_check_block_header_iff}
use amarian_amr.Chain.Index.{
  BlockIndex, Entry, HeaderError, is_eligible, is_better_tip, better_of, find_or_none, rule,
  known_parent, not_placed, predecessor_invalid, from_genesis, check_new_header, new_entry,
  insert_entry, add_checked, add_found, add_header, header_context_for,
}
use amarian_amr.Chain.Marks.{Entries}
use amarian_amr.Chain.Linked.{IsLinked, IsLinked-insert, Listed, leaf-or-old, old-stays}
use amarian_amr.Chain.Best.{IsBest, ineligible_loses, is_better_tip_irrefl, beats_winner}
use amarian_amr.Chain.Failure.{IsClosed, Out}

pub record IsSound (ix : BlockIndex) : Type 0 where
  pub linked : IsLinked ix.entries ix.children ix.genesis ix.next_sequence
  pub distinct : Distinct ix.entries
  pub closed : IsClosed ix.entries
  pub best : IsBest ix.entries ix.best_header

-- What the checks of a new header establish of its predecessor.
module _ (b : Backend) (header : BlockHeader) (now : ℤ) (params : ChainParams) (ix : BlockIndex)
    (parent : Entry) (checked : check_new_header b header now params ix ≡ ok parent) where
  pub checked_parent :
      (find header.prev_block ix.entries ≡ some parent)
      × (is_eligible parent ≡ true)
      × (header.prev_block ≡ parent.hash)
      × (header.height ≡ parent.height + 1)
  unfolding check_new_header
  checked_parent =
      let (u, ruled, rest) = >>=-eq_ok (rule (check_block_header b header params)) _ checked in
      let (q, known, last) = >>=-eq_ok (known_parent (find header.prev_block ix.entries)) _ rest in
      let live = reject_if-eq_ok (not (is_eligible q)) (not_placed predecessor_invalid) _ last in
      let (v, accepted, final) =
        >>=-eq_ok
          (rule (
            contextual_check_block_header header
              (header_context_for ix q now params (some header.timestamp)) params))
          _ live.1 in
      let same : q ≡ parent = cc (final) in
      let extends =
        (contextual_check_block_header_iff header
            (header_context_for ix q now params (some header.timestamp)) params).0
          (unrule _ v accepted) in
      (
        found (find header.prev_block ix.entries) q known ∙ ap (λ x. some x) same,
        subst (λ x. is_eligible x ≡ true) same (alive q live.0),
        linked q extends.prev ∙ ap (λ x. Entry.hash x) same,
        higher q extends.height ∙ ap (λ x. Entry.height x + 1) same,
      )
    where
      found : (o : Option Entry) (q : Entry) → known_parent o ≡ ok q → o ≡ some q
      found none q h = absurd (cc (h))
      found (some e) q h = cc (h)

      alive : (q : Entry) → not (is_eligible q) ≡ false → is_eligible q ≡ true
      alive q h = ground arith

      unrule : (m : Verdict) (v : Unit {0}) → rule m ≡ ok v → m ≡ ok tt
      unrule (ok w) v h = refl
      unrule (err e) v h = absurd (cc (h))

      linked :
          (q : Entry)
          → header.prev_block
            ≡ (header_context_for ix q now params (some header.timestamp)).prev_hash
          → header.prev_block ≡ q.hash
      linked q h = unfold header_context_for in h

      higher :
          (q : Entry)
          → header.height
            ≡ (header_context_for ix q now params (some header.timestamp)).prev_height + 1
          → header.height ≡ q.height + 1
      higher q h = unfold header_context_for in h

-- A leaf below an eligible entry keeps the invariant.
module _ (ix : BlockIndex) (s : IsSound ix) (e parent : Entry)
    (fresh : find e.hash ix.entries ≡ none) (below : find parent.hash ix.entries ≡ some parent)
    (alive : is_eligible parent ≡ true) (eligible : is_eligible e ≡ true)
    (up : e.parent ≡ some parent.hash) where
  clash : {a : Bool} → a ≡ true → a ≡ false → ⊥
  clash h k = cc

  leaf-IsClosed : IsClosed (insert e.hash e ix.entries)
  leaf-IsClosed h p f k q o = elim (split h f k) [
    | inl (at, same) ↦
        let named : parent.hash ≡ p = cc (up, q, ap (λ x. Entry.parent x) same) in
        elim (split p o.0 o.1) [
          | inl (at', same') ↦ absurd (clash (ap (λ x. is_eligible x) same' ∙ eligible) o.2)
          | inr old ↦
              let it : parent ≡ o.0 = cc (below, old, ap (λ x. find x ix.entries) named) in
              absurd (clash (ap (λ x. is_eligible x) (sym it) ∙ alive) o.2)
        ]
    | inr old ↦ elim (split p o.0 o.1) [
      | inl (at', same') ↦ absurd (clash (ap (λ x. is_eligible x) same' ∙ eligible) o.2)
      | inr old' ↦ s.closed h p f old q (o.0, old', o.2)
    ]
  ]
    where
      split :
          (h : Hash256) (f : Entry)
          → find h (insert e.hash e ix.entries) ≡ some f
          → ((h ≡ e.hash) × (f ≡ e)) ⊎ (find h ix.entries ≡ some f)
      split h f k = leaf-or-old ix.entries e fresh h f k

  leaf-IsBest : IsBest (insert e.hash e ix.entries) (better_of e (find_or_none ix ix.best_header))
  leaf-IsBest = cases ix.best_header refl
    where
      best_of :
          (w : Entry)
          → find w.hash (insert e.hash e ix.entries) ≡ some w
          → is_eligible w ≡ true
          → ((h : Hash256) (f : Entry) → find h ix.entries ≡ some f → is_better_tip f w ≡ false)
          → is_better_tip e w ≡ false
          → IsBest (insert e.hash e ix.entries) (some w.hash)
      best_of w found live old new = record {
        chosen = λ h q.
            let same : w.hash ≡ h = cc (q) in
            (
              w,
              subst (λ x. find x (insert e.hash e ix.entries) ≡ some w) same found,
              live,
              λ k f i. elim (leaf-or-old ix.entries e fresh k f i) [
                | inl (at, is_e) ↦ subst (λ x. is_better_tip x w ≡ false) (sym is_e) new
                | inr before ↦ old k f before
              ],
            );
        nothing = λ q. absurd (cc (q));
      }

      at_leaf : find e.hash (insert e.hash e ix.entries) ≡ some e
      at_leaf = find-insert e.hash e.hash e ix.entries ∙ rw (beq_refl {A = List ℕ} e.hash)

      against :
          (h : Hash256) (w : Entry)
          → find h ix.entries ≡ some w
          → is_eligible w ≡ true
          → ((k : Hash256) (f : Entry) → find k ix.entries ≡ some f → is_better_tip f w ≡ false)
          → IsBest (insert e.hash e ix.entries) (better_of e (some w))
      against h w found live beats = elim (Bool-cases (is_better_tip e w)) [
        | inl better ↦ rw better (
            best_of e at_leaf eligible (λ k f i. beats_winner e w f better (beats k f i))
              (is_better_tip_irrefl e))
        | inr worse ↦ rw worse (
            best_of w
              (old-stays ix.entries e fresh w.hash w
                (subst (λ x. find x ix.entries ≡ some w) (sym (s.linked.hashed h w found)) found))
              live beats worse)
      ]

      cases :
          (o : Option Hash256)
          → ix.best_header ≡ o
          → IsBest (insert e.hash e ix.entries) (better_of e (find_or_none ix o))
      cases none q =
          best_of e at_leaf eligible (λ k f i. ineligible_loses f e (s.best.nothing q k f i))
            (is_better_tip_irrefl e)
      cases (some h) q =
          let (w, found, live, beats) = s.best.chosen h q in
          subst (λ o. IsBest (insert e.hash e ix.entries) (better_of e o)) (sym found)
            (against h w found live beats)

-- `AddHeader` keeps the invariant, whatever it answers.
module _ (b : Backend) (header : BlockHeader) (now : ℤ) (params : ChainParams) (ix : BlockIndex)
    (s : IsSound ix) where
  inserted :
      (parent : Entry)
      → find (header_hash b header) ix.entries ≡ none
      → check_new_header b header now params ix ≡ ok parent
      → IsSound (insert_entry b (new_entry b header parent ix.next_sequence) ix)
  unfolding insert_entry new_entry
  inserted parent fresh checked =
      let (found, alive, linked, higher) = checked_parent b header now params ix parent checked in
      let below = subst (λ x. find x ix.entries ≡ some parent) linked found in
      let e = new_entry b header parent ix.next_sequence in
      record {
        linked =
            IsLinked-insert ix.entries ix.children ix.genesis ix.next_sequence s.linked e parent
              fresh below refl linked higher refl refl;
        distinct = insert-Distinct e.hash e ix.entries s.distinct;
        closed = leaf-IsClosed ix s e parent fresh below alive refl refl;
        best = leaf-IsBest ix s e parent fresh below alive refl refl;
      }

  pub add_header-IsSound : IsSound (add_header b header now params ix).1
  unfolding add_header
  add_header-IsSound = known (find (header_hash b header) ix.entries) refl
    where
      checked :
          (r : Result HeaderError Entry)
          → find (header_hash b header) ix.entries ≡ none
          → check_new_header b header now params ix ≡ r
          → IsSound (add_checked b r header ix).1
      checked (err e) fresh q = s
      checked (ok parent) fresh q = inserted parent fresh q

      known :
          (o : Option Entry)
          → find (header_hash b header) ix.entries ≡ o
          → IsSound (add_found b o header now params ix).1
      known none q = checked (check_new_header b header now params ix) q refl
      known (some e) q = s

  -- The entries that are there stay as they are.
  pub find-add_header :
      (h : Hash256) (e : Entry)
      → find h ix.entries ≡ some e
      → find h (add_header b header now params ix).1.entries ≡ some e
  unfolding add_header insert_entry new_entry
  find-add_header h e k = known (find (header_hash b header) ix.entries) refl
    where
      checked :
          (r : Result HeaderError Entry)
          → find (header_hash b header) ix.entries ≡ none
          → find h (add_checked b r header ix).1.entries ≡ some e
      checked (err x) fresh = k
      checked (ok parent) fresh =
          old-stays ix.entries (new_entry b header parent ix.next_sequence) fresh h e k

      known :
          (o : Option Entry)
          → find (header_hash b header) ix.entries ≡ o
          → find h (add_found b o header now params ix).1.entries ≡ some e
      known none q = checked (check_new_header b header now params ix) q
      known (some x) q = k
