-- ===== src/Chain/State/Disconnect.antt =====
-- `DisconnectTip` keeps the coins those of the active chain: src/chain/chain_state.cpp.
use amarian_amr.Base.{
  ◌≡◌, refl, sym, ap, subst, ◌∙◌, Option, none, some, List, [], ◌∷◌, nat_eq, list_eq,
}
use amarian_amr.Base.Result.{Result, ok, err}
use amarian_amr.Crypto.{Backend}
use amarian_amr.Primitives.Hash.{Hash256}
use amarian_amr.Primitives.Block.{Block}
use amarian_amr.Consensus.Params.{ChainParams}
use amarian_amr.Utxo.Coins.{CoinsCache, get_coin}
use amarian_amr.Utxo.Coins.Laws.{Coins}
use amarian_amr.Utxo.Ledger.{coins_store}
use amarian_amr.Utxo.Undo.{BlockUndo}
use amarian_amr.Utxo.Connect.{DisconnectError, connect_batch, disconnect_batch, disconnect_block}
use amarian_amr.Utxo.Connect.RoundTrip.{
  shown, commit_coins, disconnect_block-shown, disconnect_batch-connect_batch,
}
use amarian_amr.Chain.Index.{find_or_none}
use amarian_amr.Chain.Store.{get_block, get_undo}
use amarian_amr.Chain.State.{
  ActivationSummary, ChainSink, ChainState, tip_hash, pop_back, disconnect_reversed,
  disconnect_stored, disconnect_below, disconnect_entry, disconnect_tip,
}
use amarian_amr.Chain.State.Replay.{Applied, Replayed, IsPath, IsActive, Keeping}
use amarian_amr.Chain.State.Kept.{tip-Active, disconnected-Keeping}

module _ {T : Type 0} (k : ChainSink T) (b : Backend) (params : ChainParams) (base : Coins) where
  abbrev Active : ChainState T → Type 0
  Active st = IsActive b params base st

  -- Taking the tip off.
  disconnect_reversed-Keeping :
      (r : Result DisconnectError (Unit {0}) × CoinsCache) (h : Hash256) (block : Block)
      (summary : ActivationSummary) (st : ChainState T) (t p : Hash256) (hs : List Hash256)
      (before : Coins)
      → shown r ≡ (ok tt, before)
      → st.blocks ≡ t ∷ p ∷ hs
      → Active st
      → Replayed b params base st.store (p ∷ hs) before
      → IsPath st.index (p ∷ hs)
      → Keeping b params base (disconnect_reversed k b params r h block summary st)
  disconnect_reversed-Keeping (err e, coins) h block summary st t p hs before run q a rest path =
      absurd (cc (run))
  disconnect_reversed-Keeping (ok u, coins) h block summary st t p hs before run q a rest path =
      let same : get_coin coins ≡ before = cc (run) in
      disconnected-Keeping k b params base _ h block summary (
        tip-Active k b params base (record st { coins = coins; blocks = pop_back st.blocks })
          (record {
            sound = a.sound;
            path = subst (λ x. IsPath st.index (pop_back x)) (sym q) path;
            replayed =
                subst (λ x. Replayed b params base st.store (pop_back x) (get_coin coins)) (sym q)
                  (subst (λ s. Replayed b params base st.store (p ∷ hs) s) (sym same) rest);
          }))

  -- The undo record of the tip takes the coins back to those before it.
  pub undoes :
      (st : ChainState T) (h : Hash256) (before : Coins) (block : Block) (undo : BlockUndo)
      → Applied b params st.store h before (get_coin st.coins)
      → get_block h st.store ≡ some block
      → get_undo h st.store ≡ some undo
      → shown (disconnect_block b block undo st.coins) ≡ (ok tt, before)
  undoes st h before block undo x at_block at_undo =
      let same : x.block ≡ block = cc (x.stored, at_block) in
      let same_undo : x.result.undo ≡ undo = cc (x.undone, at_undo) in
      disconnect_block-shown b block undo st.coins
      ∙ ap (commit_coins (get_coin st.coins)) (
          subst (λ u. disconnect_batch coins_store b block u (get_coin st.coins) ≡ ok (tt, before))
            same_undo
            (disconnect_batch-connect_batch b block params x.result before (get_coin st.coins) (
              subst
                (λ w.
                  connect_batch coins_store b w params before ≡ ok (x.result, get_coin st.coins))
                same x.connects)))

  disconnect_stored-Keeping :
      (o : Option Block) (u : Option BlockUndo) (h : Hash256) (summary : ActivationSummary)
      (st : ChainState T) (p : Hash256) (hs : List Hash256)
      → get_block h st.store ≡ o
      → get_undo h st.store ≡ u
      → st.blocks ≡ h ∷ p ∷ hs
      → Active st
      → Keeping b params base (disconnect_stored k b params o u h summary st)
  disconnect_stored-Keeping none u h summary st p hs at_block at_undo q a = λ taken. a
  disconnect_stored-Keeping (some block) none h summary st p hs at_block at_undo q a = λ taken. a
  disconnect_stored-Keeping (some block) (some undo) h summary st p hs at_block at_undo q a =
      let (before, x, rest) =
        subst (λ y. Replayed b params base st.store y (get_coin st.coins)) q a.replayed in
      let (e, found, up, path) = subst (IsPath st.index) q a.path in
      disconnect_reversed-Keeping (disconnect_block b block undo st.coins) h block summary st h p hs
        before (undoes st h before block undo x at_block at_undo) q a rest path

  disconnect_entry-Keeping :
      (blocks : List Hash256) (summary : ActivationSummary) (st : ChainState T)
      → st.blocks ≡ blocks
      → Active st
      → Keeping b params base
          (disconnect_entry k b params (find_or_none st.index (tip_hash blocks)) summary st)
  disconnect_entry-Keeping [] summary st q a = λ taken. a
  disconnect_entry-Keeping (g ∷ []) summary st q a =
      let (e, found, top) = subst (IsPath st.index) q a.path in
      subst (λ o. Keeping b params base (disconnect_entry k b params o summary st)) (sym found)
        (subst (λ o. Keeping b params base (disconnect_below k b params o e.hash summary st))
          (sym top) (λ taken. a))
  disconnect_entry-Keeping (h ∷ p ∷ hs) summary st q a =
      let (e, found, up, path) = subst (IsPath st.index) q a.path in
      let key : e.hash ≡ h = a.sound.linked.hashed h e found in
      subst (λ o. Keeping b params base (disconnect_entry k b params o summary st)) (sym found)
        (subst (λ o. Keeping b params base (disconnect_below k b params o e.hash summary st))
          (sym up)
          (disconnect_stored-Keeping (get_block e.hash st.store) (get_undo e.hash st.store) e.hash
            summary st p hs refl refl (q ∙ ap (λ x. x ∷ p ∷ hs) (sym key)) a))

  pub disconnect_tip-Keeping :
      (summary : ActivationSummary) (st : ChainState T)
      → Active st
      → Keeping b params base (disconnect_tip k b params summary st)
  unfolding disconnect_tip
  disconnect_tip-Keeping summary st a = disconnect_entry-Keeping st.blocks summary st refl a
