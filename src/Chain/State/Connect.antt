-- ===== src/Chain/State/Connect.antt =====
-- `ConnectTip` keeps the coins those of the active chain: src/chain/chain_state.cpp.
use amarian_amr.Base.{
  ◌≡◌, inl, inr, refl, sym, ap, subst, ◌∙◌, true, Option, none, some, List, [], ◌∷◌, ltb, nat_eq,
  list_eq, beq→eq, arith, Bool-cases,
}
use amarian_amr.Base.Result.{Result, ok, err}
use amarian_amr.Base.Table.{find}
use amarian_amr.Crypto.{Backend}
use amarian_amr.Primitives.Hash.{Hash256}
use amarian_amr.Primitives.Block.{Block}
use amarian_amr.Consensus.Params.{ChainParams}
use amarian_amr.Consensus.Validation.{ValidationError, Computed, Verdict}
use amarian_amr.Consensus.Validation.Blocks.{check_block}
use amarian_amr.Utxo.Coins.{CoinsCache, get_coin}
use amarian_amr.Utxo.Coins.Laws.{Coins}
use amarian_amr.Utxo.Ledger.{coins_store}
use amarian_amr.Utxo.Connect.{ConnectResult, connect_batch, connect_block}
use amarian_amr.Utxo.Connect.RoundTrip.{shown, commit_coins, committed, connect_block-shown}
use amarian_amr.Chain.Index.{BlockIndex, Entry, body, full}
use amarian_amr.Chain.Marks.{rung, record_validity}
use amarian_amr.Chain.Linked.{IsLinked, Listed}
use amarian_amr.Chain.Sound.Marking.{record_validity-Similar}
use amarian_amr.Chain.Store.{get_block, get_undo, put_undo}
use amarian_amr.Chain.State.{
  ActivationSummary, ChainSink, ChainState, is_tip, connect_applied, connect_checked,
  connect_stored, connect_entry, connect_tip,
}
use amarian_amr.Chain.State.Replay.{
  Replayed, IsPath, IsActive, Keeping, Similar-Keeps, path-low, Replayed-put_undo,
  get_block-put_undo, get_undo-put_undo,
}
use amarian_amr.Chain.State.Kept.{
  validated, entry_committed, recoined, tip-Active, reject_block-Active, connected-Keeping,
}

-- A pointer to the tip of a chain.
is_tip-eq :
    (p : Option Hash256) (blocks : List Hash256)
    → is_tip p blocks ≡ true
    → (t : Hash256) × (hs : List Hash256) × (blocks ≡ t ∷ hs) × (p ≡ some t)
is_tip-eq none blocks h = absurd (cc (h))
is_tip-eq (some p) [] h = absurd (cc (h))
is_tip-eq (some p) (t ∷ hs) h = (t, hs, refl, ap (λ x. some x) (beq→eq h))

-- A block whose parent is the tip is not on the chain.
fresh-above :
    (ix : BlockIndex)
    → IsLinked ix.entries ix.children ix.genesis ix.next_sequence
    → (t : Hash256) (hs : List Hash256) → IsPath ix (t ∷ hs)
    → (h : Hash256) (e : Entry) → find h ix.entries ≡ some e
    → e.parent ≡ some t
    → Listed h (t ∷ hs)
    → ⊥
fresh-above ix l t hs path h e found up listed =
    let child = l.descended h t e found up in
    let (g, at_e, low) = path-low ix l t hs path child.above child.found h listed in
    let same : g ≡ e = cc (at_e, found) in
    omega (arith, low, child.one_higher, ap (λ x. Entry.height x) same)

module _ {T : Type 0} (k : ChainSink T) (b : Backend) (params : ChainParams) (base : Coins) where
  abbrev Active : ChainState T → Type 0
  Active st = IsActive b params base st

  refused :
      {A : Type 0} (coins : CoinsCache) (reason : ValidationError) (c : CoinsCache)
      (q : Result ValidationError (A × Coins))
      → shown {A = A} (err reason, c) ≡ commit_coins (get_coin coins) q
      → get_coin c ≡ get_coin coins
  refused coins reason c (err e) h = cc (h)
  refused coins reason c (ok r) h = absurd (cc (h))

  -- A block that is put on the tip.
  extended :
      (st : ChainState T) (h : Hash256) (e : Entry) (block : Block) (result : ConnectResult)
      (coins : CoinsCache) (t : Hash256) (hs : List Hash256)
      → st.blocks ≡ t ∷ hs
      → Active st
      → find h st.index.entries ≡ some e
      → e.parent ≡ some t
      → get_block h st.store ≡ some block
      → connect_block b block st.coins params ≡ (ok result, coins)
      → Active (record st {
        coins = coins;
        store = put_undo h result.undo st.store;
        blocks = h ∷ st.blocks;
      })
  extended st h e block result coins t hs q a found up stored run = record {
    sound = a.sound;
    path =
        subst (λ x. IsPath st.index (h ∷ x)) (sym q)
          (e, found, up, subst (IsPath st.index) q a.path);
    replayed =
        subst
          (λ x. Replayed b params base (put_undo h result.undo st.store) (h ∷ x) (get_coin coins))
          (sym q)
          (
            get_coin st.coins,
            record {
              block = block;
              result = result;
              stored = stored_still;
              undone = undone_now;
              connects =
                  committed b block (get_coin st.coins)
                    (connect_batch coins_store b block params (get_coin st.coins)) coins result
                    (connect_block b block st.coins params) run
                    (connect_block-shown b block params st.coins);
            },
            Replayed-put_undo b params base st.store h result.undo (t ∷ hs) (get_coin st.coins)
                (fresh-above st.index a.sound.linked t hs (subst (IsPath st.index) q a.path) h e
                  found up)
                (subst (λ x. Replayed b params base st.store x (get_coin st.coins)) q a.replayed),
          );
  }
    where
      stored_still : get_block h (put_undo h result.undo st.store) ≡ some block
      stored_still = get_block-put_undo h h result.undo st.store ∙ stored

      undone_now : get_undo h (put_undo h result.undo st.store) ≡ some result.undo
      undone_now = get_undo-put_undo h result.undo st.store

  module _ (e : Entry) (block : Block) (summary : ActivationSummary) where
    connect_applied-Keeping :
        (r : Computed ConnectResult × CoinsCache) (st : ChainState T)
        → connect_block b block st.coins params ≡ r
        → Active st
        → (f : Entry) → find e.hash st.index.entries ≡ some f
        → f.parent ≡ e.parent
        → is_tip e.parent st.blocks ≡ true
        → get_block e.hash st.store ≡ some block
        → Keeping b params base (connect_applied k b params r e block summary st)
    connect_applied-Keeping (err reason, coins) st run a f found same on_tip stored = λ taken.
        reject_block-Active k b params base e reason summary (record st { coins = coins })
          (recoined k b params base st coins
            (refused st.coins reason coins
              (connect_batch coins_store b block params (get_coin st.coins))
              (ap shown (sym run) ∙ connect_block-shown b block params st.coins))
            a)
    connect_applied-Keeping (ok result, coins) st run a f found same on_tip stored =
        let (t, hs, q, up) = is_tip-eq e.parent st.blocks on_tip in
        let next = extended st e.hash f block result coins t hs q a found (same ∙ up) stored run in
        let marked = validated k b params base _ e.hash full next in
        connected-Keeping k b params base _ e.hash block summary
          (tip-Active k b params base _ (entry_committed k b params base _ e.hash marked))

    connect_checked-Keeping :
        (r : Verdict) (st : ChainState T)
        → Active st
        → find e.hash st.index.entries ≡ some e
        → is_tip e.parent st.blocks ≡ true
        → get_block e.hash st.store ≡ some block
        → Keeping b params base (connect_checked k b params r e block summary st)
    connect_checked-Keeping (err reason) st a found on_tip stored =
        λ taken. reject_block-Active k b params base e reason summary st a
    connect_checked-Keeping (ok u) st a found on_tip stored =
        let (f, found', same) =
          Similar-Keeps st.index (record_validity e.hash body st.index)
            (record_validity-Similar st.index a.sound e.hash body) e.hash e found in
        connect_applied-Keeping (connect_block b block st.coins params)
          (record st { index = record_validity e.hash body st.index }) refl
          (validated k b params base st e.hash body a) f found' same on_tip stored

  connect_stored-Keeping :
      (o : Option Block) (e : Entry) (summary : ActivationSummary) (st : ChainState T)
      → get_block e.hash st.store ≡ o
      → Active st
      → find e.hash st.index.entries ≡ some e
      → is_tip e.parent st.blocks ≡ true
      → Keeping b params base (connect_stored k b params o e summary st)
  connect_stored-Keeping none e summary st q a found on_tip = λ taken. a
  connect_stored-Keeping (some block) e summary st q a found on_tip =
      elim (Bool-cases (ltb (rung e.validity) (rung body))) [
        | inl low ↦ rw low (
            connect_checked-Keeping e block summary (check_block b block params) st a found on_tip
              q)
        | inr high ↦ rw high (
            connect_applied-Keeping e block summary (connect_block b block st.coins params) st refl
              a e found refl on_tip q)
      ]

  pub connect_tip-Keeping :
      (h : Hash256) (summary : ActivationSummary) (st : ChainState T)
      → Active st
      → Keeping b params base (connect_tip k b params h summary st)
  unfolding connect_tip
  connect_tip-Keeping h summary st a = known (find h st.index.entries) refl
    where
      known :
          (o : Option Entry)
          → find h st.index.entries ≡ o
          → Keeping b params base (connect_entry k b params o h summary st)
      known none q = λ taken. a
      known (some e) q = elim (Bool-cases (is_tip e.parent st.blocks)) [
        | inl on_tip ↦ rw on_tip (
            connect_stored-Keeping (get_block e.hash st.store) e summary st refl a
              (ap (λ x. find x st.index.entries) (a.sound.linked.hashed h e q) ∙ q) on_tip)
        | inr off_tip ↦ rw off_tip (λ taken. a)
      ]
