-- ===== src/Chain/Sound/Reach.antt =====
-- The states that an index reaches: src/chain/block_index.cpp.
use amarian_amr.Base.{
  ℕ, ◌<◌, ◌≡◌, inl, inr, refl, sym, ap, subst, ◌∙◌, false, none, some, List, [], ◌∷◌, if◌then◌else◌,
  ◌==◌, nat_eq, list_eq, beq→eq, beq_refl, arith, Bool-cases,
}
use amarian_amr.Base.Int.{ℤ}
use amarian_amr.Base.Table.{find, Distinct}
use amarian_amr.Crypto.{Backend}
use amarian_amr.Primitives.Hash.{Hash256}
use amarian_amr.Primitives.Block.{BlockHeader}
use amarian_amr.Primitives.Digests.{header_hash}
use amarian_amr.Consensus.Params.{ChainParams}
use amarian_amr.Consensus.Work.{of_compact_target}
use amarian_amr.Chain.Index.{
  BlockIndex, Entry, BlockValidity, full, no_failure, is_better_tip, from_genesis, add_header,
}
use amarian_amr.Chain.Linked.{Listed}
use amarian_amr.Chain.Marks.{Entries, children_of, record_validity, record_failure}
use amarian_amr.Chain.Best.{is_better_tip_irrefl}
use amarian_amr.Chain.Sound.{IsSound, add_header-IsSound}
use amarian_amr.Chain.Sound.Marking.{record_validity-IsSound, record_failure-IsSound}

-- One call that changes an index.
pub data Step (b : Backend) (params : ChainParams) : BlockIndex → BlockIndex → Type 0 where
  adding :
      (header : BlockHeader) (now : ℤ) (ix : BlockIndex)
      → Step b params ix (add_header b header now params ix).1
  validating :
      (hash : Hash256) (reached : BlockValidity) (ix : BlockIndex)
      → Step b params ix (record_validity hash reached ix)
  failing : (hash : Hash256) (ix : BlockIndex) → Step b params ix (record_failure hash ix).1

-- The indices that calls reach from one that holds the genesis block alone.
pub data Reach (b : Backend) (params : ChainParams) (genesis : BlockHeader)
    : BlockIndex → Type 0 where
  built : Reach b params genesis (from_genesis b genesis)
  after :
      (ix ix' : BlockIndex)
      → Reach b params genesis ix
      → Step b params ix ix'
      → Reach b params genesis ix'

Step-IsSound :
    (b : Backend) (params : ChainParams) (ix ix' : BlockIndex)
    → Step b params ix ix'
    → IsSound ix
    → IsSound ix'
Step-IsSound b params ix ix' (adding header now _) s = add_header-IsSound b header now params ix s
Step-IsSound b params ix ix' (validating hash reached _) s =
    record_validity-IsSound ix s hash reached
Step-IsSound b params ix ix' (failing hash _) s = record_failure-IsSound ix s hash

no_child : (h c : Hash256) → Listed c (children_of h []) → ⊥
unfolding children_of
no_child h c l = l

module _ (b : Backend) (header : BlockHeader) (low : header.height ≡ 0) where
  abbrev pub root : Entry
  root = record {
    header = header;
    hash = header_hash b header;
    height = header.height;
    total_work = of_compact_target header.target_bits;
    parent = none;
    validity = full;
    failure = no_failure;
    sequence = 0;
  }

  abbrev pub alone : Entries
  alone = (header_hash b header, root) ∷ []

  only : (h : Hash256) (e : Entry) → find h alone ≡ some e → (header_hash b header ≡ h) × (root ≡ e)
  unfolding find
  only h e k = elim (Bool-cases (header_hash b header == h)) [
    | inl q ↦ (beq→eq q, one e (subst (λ c. (if c then some root else none) ≡ some e) q k))
    | inr q ↦ absurd (two e (subst (λ c. (if c then some root else none) ≡ some e) q k))
  ]
    where
      one : (e : Entry) → some root ≡ some e → root ≡ e
      one e k = cc (k)

      two : (e : Entry) → (if false then some root else none) ≡ some e → ⊥
      two e k = cc (k)

  pub here : find (header_hash b header) alone ≡ some root
  unfolding find
  here = rw (beq_refl {A = List ℕ} (header_hash b header))

  alone-Distinct : Distinct alone
  unfolding find
  alone-Distinct = (refl, tt)

  from_genesis-IsSound : IsSound (from_genesis b header)
  unfolding from_genesis
  from_genesis-IsSound = record {
    linked = record {
      hashed = λ h e k. let o = only h e k in ap (λ x. Entry.hash x) (sym o.1) ∙ o.0;
      rooted = λ h e k q. let o = only h e k in (sym o.0, ap (λ x. Entry.height x) (sym o.1) ∙ low);
      descended = λ h p e k q. let o = only h e k in absurd (cc (ap (λ x. Entry.parent x) o.1, q));
      named = λ h c l. absurd (no_child h c l);
      numbered = λ h e k. let o = only h e k in subst (λ x. Entry.sequence x < 1) o.1 (omega arith);
      unique = λ h k e f i j q. sym (only h e i).0 ∙ (only k f j).0;
    };
    distinct = alone-Distinct;
    closed = λ h p e k q o. let w = only h e k in absurd (cc (ap (λ x. Entry.parent x) w.1, q));
    best = record {
      chosen = λ h q.
          let same : header_hash b header ≡ h = cc (q) in
          (
            root,
            subst (λ x. find x alone ≡ some root) same here,
            refl,
            λ k f i.
                subst (λ x. is_better_tip x root ≡ false) (only k f i).1
                  (is_better_tip_irrefl root),
          );
      nothing = λ q. absurd (cc (q));
    };
  }

-- Every index that calls of AddHeader, RecordValidity and RecordFailure reach, from the constructor
-- over a genesis header of height 0, is sound: an entry is stored under its own hash; an entry
-- with no parent is the genesis entry, of height 0; any other entry is one higher than the entry that its
-- header names, which is in the index, carries that entry's work plus its own, and is listed among its children; sequence
-- numbers are distinct and below the next; an entry below a failed one is failed; and the recorded best
-- header is an eligible entry that no entry of the index beats, with none recorded only where no entry
-- is eligible.
pub reachable-IsSound :
    (b : Backend) (params : ChainParams) (genesis : BlockHeader)
    → genesis.height ≡ 0
    → (ix : BlockIndex) → Reach b params genesis ix
    → IsSound ix
reachable-IsSound b params genesis low ix built = from_genesis-IsSound b genesis low
reachable-IsSound b params genesis low ix (after before _ r step) =
    Step-IsSound b params before ix step (reachable-IsSound b params genesis low before r)
