-- ===== src/Chain/State/Replay.antt =====
-- What the active chain and the set of coins owe to each other: src/chain/chain_state.cpp.
use amarian_amr.Base.{
  Bool, true, false, ℕ, ◌≤◌, ◌≡◌, inl, inr, refl, sym, ap, ◌∙◌, Option, none, some, List, [], ◌∷◌,
  if◌then◌else◌, ◌==◌, nat_eq, list_eq, beq→eq, beq_refl, arith, Bool-cases, is_some,
}
use amarian_amr.Base.Result.{Result, ok, err}
use amarian_amr.Base.Table.{find, insert, find-insert}
use amarian_amr.Crypto.{Backend}
use amarian_amr.Primitives.Hash.{Hash256}
use amarian_amr.Primitives.Block.{Block}
use amarian_amr.Consensus.Params.{ChainParams}
use amarian_amr.Utxo.Coins.{get_coin}
use amarian_amr.Utxo.Coins.Laws.{Coins}
use amarian_amr.Utxo.Ledger.{coins_store}
use amarian_amr.Utxo.Undo.{BlockUndo}
use amarian_amr.Utxo.Connect.{ConnectResult, connect_batch}
use amarian_amr.Chain.Index.{BlockIndex, Entry}
use amarian_amr.Chain.Linked.{IsLinked, Listed, Same-after, Similar}
use amarian_amr.Chain.Sound.{IsSound}
use amarian_amr.Chain.Store.{BlockStore, get_block, get_undo, put_block, put_undo}
use amarian_amr.Chain.State.{
  ChainState, ActivationFailure, ActivationError, block_body_unavailable, undo_record_unavailable,
  revert_rejected, chain_out_of_step, commit_failed, storage_faulted,
}

-- A block of the chain, whose body and undo record are stored, took one set of coins to another.
pub record Applied (b : Backend) (params : ChainParams) (store : BlockStore) (h : Hash256)
    (before after : Coins) : Type 0 where
  pub block : Block
  pub result : ConnectResult
  pub stored : get_block h store ≡ some block
  pub undone : get_undo h store ≡ some result.undo
  pub connects : connect_batch coins_store b block params before ≡ ok (result, after)

-- The coins are those that the blocks of a chain, its tip first, leave of the coins at genesis.
abbrev pub Replayed : Backend → ChainParams → Coins → BlockStore → List Hash256 → Coins → Type 0
Replayed b params base store [] s = ⊥
Replayed b params base store (g ∷ []) s = s ≡ base
Replayed b params base store (h ∷ p ∷ hs) s =
    (before : Coins) × Applied b params store h before s
    × Replayed b params base store (p ∷ hs) before

-- Each block of a chain, its tip first, is the parent of the one before, and the last has none.
abbrev pub IsPath : BlockIndex → List Hash256 → Type 0
IsPath ix [] = ⊥
IsPath ix (g ∷ []) = (e : Entry) × (find g ix.entries ≡ some e) × (e.parent ≡ none)
IsPath ix (h ∷ p ∷ hs) =
    (e : Entry) × (find h ix.entries ≡ some e) × (e.parent ≡ some p) × IsPath ix (p ∷ hs)

pub record IsActive {T : Type 0} (b : Backend) (params : ChainParams) (base : Coins)
    (st : ChainState T) : Type 0 where
  pub sound : IsSound st.index
  pub path : IsPath st.index st.blocks
  pub replayed : Replayed b params base st.store st.blocks (get_coin st.coins)

-- An index that has the entries of another, with the parents that they have there.
abbrev pub Keeps : BlockIndex → BlockIndex → Type 0
Keeps ix ix' =
    (h : Hash256) (e : Entry)
    → find h ix.entries ≡ some e
    → (e' : Entry) × (find h ix'.entries ≡ some e') × (e'.parent ≡ e.parent)

pub Similar-Keeps : (ix ix' : BlockIndex) → Similar ix.entries ix'.entries → Keeps ix ix'
Similar-Keeps ix ix' similar h e k =
    let (e', found, same) = Same-after (find h ix.entries) (find h ix'.entries) e (similar h) k in
    (e', found, sym (ap (λ x. Entry.parent x) same))

pub IsPath-Keeps :
    (ix ix' : BlockIndex) (hs : List Hash256) → Keeps ix ix' → IsPath ix hs → IsPath ix' hs
IsPath-Keeps ix ix' [] keeps p = p
IsPath-Keeps ix ix' (g ∷ []) keeps (e, found, top) =
    let (e', found', same) = keeps g e found in (e', found', same ∙ top)
IsPath-Keeps ix ix' (h ∷ q ∷ hs) keeps (e, found, up, rest) =
    let (e', found', same) = keeps h e found in
    (e', found', same ∙ up, IsPath-Keeps ix ix' (q ∷ hs) keeps rest)

-- No block of a chain is higher than its tip.
pub path-low :
    (ix : BlockIndex)
    → IsLinked ix.entries ix.children ix.genesis ix.next_sequence
    → (t : Hash256) (hs : List Hash256) → IsPath ix (t ∷ hs)
    → (et : Entry) → find t ix.entries ≡ some et
    → (h : Hash256) → Listed h (t ∷ hs)
    → (e : Entry) × (find h ix.entries ≡ some e) × (e.height ≤ et.height)
path-low ix l t [] p et found h (inl q) =
    (et, ap (λ x. find x ix.entries) (sym q) ∙ found, omega arith)
path-low ix l t [] p et found h (inr n) = absurd n
path-low ix l t (j ∷ hs) p et found h (inl q) =
    (et, ap (λ x. find x ix.entries) (sym q) ∙ found, omega arith)
path-low ix l t (q ∷ hs) (e, found', up, rest) et found h (inr later) =
    let same : e ≡ et = cc (found, found') in
    let child = l.descended t q et found (ap (λ x. Entry.parent x) (sym same) ∙ up) in
    let (g, at_h, low) = path-low ix l q hs rest child.above child.found h later in
    (g, at_h, omega (arith, low, child.one_higher))

pub get_block-put_undo :
    (h j : Hash256) (undo : BlockUndo) (store : BlockStore)
    → get_block h (put_undo j undo store) ≡ get_block h store
unfolding get_block put_undo
get_block-put_undo h j undo store = refl

pub get_undo-put_undo :
    (h : Hash256) (undo : BlockUndo) (store : BlockStore)
    → get_undo h (put_undo h undo store) ≡ some undo
unfolding get_undo put_undo
get_undo-put_undo h undo store = find-insert h h undo store.undos ∙ rw (beq_refl {A = List ℕ} h)

-- Storing an undo record for another block, and a body for a block that had none.
module _ (b : Backend) (params : ChainParams) (base : Coins) (store : BlockStore)
    (h : Hash256) where
  pub Replayed-put_undo :
      (undo : BlockUndo) (hs : List Hash256) (s : Coins)
      → (Listed h hs → ⊥)
      → Replayed b params base store hs s
      → Replayed b params base (put_undo h undo store) hs s
  unfolding put_undo get_block get_undo
  Replayed-put_undo undo [] s n r = r
  Replayed-put_undo undo (g ∷ []) s n r = r
  Replayed-put_undo undo (j ∷ p ∷ hs) s n (before, a, rest) = (
    before,
    record {
      block = a.block;
      result = a.result;
      stored = a.stored;
      undone = find-insert h j undo store.undos ∙ elim (Bool-cases (h == j)) [
        | inl q ↦ absurd (n (inl (sym (beq→eq q))))
        | inr q ↦ rw q (a.undone)
      ];
      connects = a.connects;
    },
    Replayed-put_undo undo (p ∷ hs) before (λ l. n (inr l)) rest,
  )

  find-put_block :
      (block body : Block) (j : Hash256)
      → get_block j store ≡ some body
      → get_block j (put_block h block store) ≡ some body
  unfolding put_block get_block
  find-put_block block body j k = known (find h store.bodies) refl
    where
      known :
          (o : Option Block)
          → find h store.bodies ≡ o
          → find j
              (if is_some o
                then store
                else record store { bodies = insert h block store.bodies }).bodies
            ≡ some body
      known (some x) q = k
      known none q = find-insert h j block store.bodies ∙ elim (Bool-cases (h == j)) [
        | inl same ↦
            let key : h ≡ j = beq→eq same in absurd (cc (q, k, ap (λ x. find x store.bodies) key))
        | inr other ↦ rw other k
      ]

  pub Replayed-put_block :
      (block : Block) (hs : List Hash256) (s : Coins)
      → Replayed b params base store hs s
      → Replayed b params base (put_block h block store) hs s
  unfolding put_block get_undo
  Replayed-put_block block [] s r = r
  Replayed-put_block block (g ∷ []) s r = r
  Replayed-put_block block (j ∷ p ∷ hs) s (before, a, rest) = (
    before,
    record {
      block = a.block;
      result = a.result;
      stored = find-put_block block a.block j a.stored;
      undone = same_undos (find h store.bodies) ∙ a.undone;
      connects = a.connects;
    },
    Replayed-put_block block (p ∷ hs) before rest,
  )
    where
      same_undos :
          (o : Option Block)
          → find j
              (if is_some o
                then store
                else record store { bodies = insert h block store.bodies }).undos
            ≡ find j store.undos
      same_undos (some x) = refl
      same_undos none = refl

-- Whether an answer is that the sink refused a tip, after which the caller stops.
abbrev pub is_refusal : ActivationError → Bool
is_refusal block_body_unavailable = false
is_refusal undo_record_unavailable = false
is_refusal revert_rejected = false
is_refusal chain_out_of_step = false
is_refusal commit_failed = true
is_refusal storage_faulted = false

abbrev pub is_refused : {A : Type 0} → Result ActivationFailure A → Bool
is_refused (ok a) = false
is_refused (err f) = is_refusal f.error

-- A step after which the coins are those of the active chain, unless the sink refused a tip.
abbrev pub Keeping :
    {T A : Type 0}
    → Backend
    → ChainParams
    → Coins
    → Result ActivationFailure A × ChainState T
    → Type 0
Keeping b params base r = is_refused r.0 ≡ false → IsActive b params base r.1
