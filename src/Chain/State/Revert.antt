-- ===== src/Chain/State/Revert.antt =====
-- `DisconnectTip` takes any block off the active chain: src/chain/chain_state.cpp.
use amarian_amr.Base.{
  ◌+◌, ◌≡◌, ◌⊎◌, inl, inr, refl, sym, ap, ap₂, subst, ◌∙◌, Bool, true, false, Option, none, some,
  List, ◌∷◌, list_eq, nat_eq, Bool-cases,
}
use amarian_amr.Base.Result.{Result, ok, err}
use amarian_amr.Crypto.{Backend}
use amarian_amr.Primitives.Hash.{Hash256}
use amarian_amr.Primitives.Block.{Block}
use amarian_amr.Consensus.Params.{ChainParams}
use amarian_amr.Utxo.Coins.{CoinsCache, get_coin}
use amarian_amr.Utxo.Coins.Laws.{Coins}
use amarian_amr.Utxo.Connect.{DisconnectError, disconnect_block}
use amarian_amr.Utxo.Connect.RoundTrip.{shown}
use amarian_amr.Chain.Index.{find_or_none}
use amarian_amr.Chain.State.{
  ActivationFailure, ActivationSummary, ChainSink, ChainState, stopped, commit_failed, tip_hash,
  pop_back, tip_entry, tip_committed, commit_current_tip, disconnected_tip, disconnect_reversed,
  disconnect_stored, disconnect_below, disconnect_entry, disconnect_tip,
}
use amarian_amr.Chain.Store.{get_block, get_undo}
use amarian_amr.Chain.State.Replay.{Replayed, IsPath, IsActive}
use amarian_amr.Chain.State.Disconnect.{undoes}

module _ {T : Type 0} (k : ChainSink T) (b : Backend) (params : ChainParams) where
  -- The sink refused this tip when the cache showed these coins.
  abbrev pub TipRefused : Coins → Option T → Option Hash256 → Type 0
  TipRefused before sink tip =
      (t : T) × (h : Hash256) × (coins : CoinsCache) × (sink ≡ some t)
      × (tip ≡ some h)
      × (get_coin coins ≡ before)
      × ((k.commit_tip coins h t).0 ≡ false)

  -- What taking a block off comes to: it is off and the coins are those before it, except that the
  -- sink may have refused the new tip when the cache showed them.
  abbrev pub IsReverted :
      Hash256
      → List Hash256
      → Coins
      → Option T
      → ActivationSummary
      → Result ActivationFailure ActivationSummary × ChainState T
      → Type 0
  IsReverted h hs before sink summary r =
      (r.1.blocks ≡ hs)
      × (((r.0 ≡ ok (record summary { disconnected = summary.disconnected + 1 }))
            × (get_coin r.1.coins ≡ before))
          ⊎ ((r.0 ≡ stopped commit_failed h) × TipRefused before sink (tip_hash hs)))

  -- What a commit of the tip leaves.
  abbrev Committed : Coins → Option T → Option Hash256 → Bool × ChainState T → Type 0
  Committed before sink tip r =
      ((r.0 ≡ true) × (get_coin r.1.coins ≡ before)) ⊎ ((r.0 ≡ false) × TipRefused before sink tip)

  tip-Committed :
      (sink : Option T) (tip : Option Hash256) (st : ChainState T)
      → ((tip_committed k sink tip st).1.blocks ≡ st.blocks)
        × Committed (get_coin st.coins) sink tip (tip_committed k sink tip st)
  tip-Committed none tip st = (refl, inl (refl, refl))
  tip-Committed (some t) none st = (refl, inl (refl, refl))
  tip-Committed (some t) (some tip) st = (
    refl,
    elim (Bool-cases (k.commit_tip st.coins tip t).0) [
      | inl taken ↦ inl (taken, k.commit_tip-shown st.coins tip t taken)
      | inr refused ↦ inr (refused, (t, tip, st.coins, refl, refl, refl, refused))
    ],
  )

  disconnected-IsReverted :
      (r : Bool × ChainState T) (h : Hash256) (block : Block) (summary : ActivationSummary)
      (hs : List Hash256) (before : Coins) (sink : Option T)
      → r.1.blocks ≡ hs
      → Committed before sink (tip_hash hs) r
      → IsReverted h hs before sink summary (disconnected_tip k b params r h block summary)
  disconnected-IsReverted (false, st) h block summary hs before sink q (inl c) = absurd (cc (c.0))
  disconnected-IsReverted (false, st) h block summary hs before sink q (inr c) =
      (q, inr (refl, c.1))
  disconnected-IsReverted (true, st) h block summary hs before sink q (inl c) = (q, inl (refl, c.1))
  disconnected-IsReverted (true, st) h block summary hs before sink q (inr c) = absurd (cc (c.0))

  reversed-IsReverted :
      (r : Result DisconnectError (Unit {0}) × CoinsCache) (h : Hash256) (block : Block)
      (summary : ActivationSummary) (st : ChainState T) (before : Coins)
      → shown r ≡ (ok tt, before)
      → IsReverted h
          (pop_back st.blocks)
          before
          st.sink
          summary
          (disconnect_reversed k b params r h block summary st)
  unfolding commit_current_tip
  reversed-IsReverted (err e, coins) h block summary st before run = absurd (cc (run))
  reversed-IsReverted (ok u, coins) h block summary st before run =
      let same : get_coin coins ≡ before = cc (run) in
      let popped : ChainState T = record st { coins = coins; blocks = pop_back st.blocks } in
      let kept = tip-Committed popped.sink (tip_hash popped.blocks) popped in
      disconnected-IsReverted (commit_current_tip k popped) h block summary (pop_back st.blocks)
        before st.sink kept.0
        (subst (λ x. Committed x st.sink (tip_hash popped.blocks) (commit_current_tip k popped))
          same kept.1)

  -- In a state whose coins are those of its active chain, DisconnectTip takes any block but the first
  -- off the chain: it never lacks a body or an undo record and the reversal never disagrees with the
  -- coins. Afterwards the block below is the tip. Either the call succeeds and the coins are those
  -- before the block, or it fails with the one error that says that the sink failed, and the sink
  -- refused that tip when the cache showed the coins before the block.
  pub disconnect_tip-IsReverted :
      (base : Coins) (summary : ActivationSummary) (st : ChainState T) (h p : Hash256)
      (hs : List Hash256)
      → IsActive b params base st
      → st.blocks ≡ h ∷ p ∷ hs
      → (before : Coins) × Replayed b params base st.store (p ∷ hs) before
        × IsReverted h (p ∷ hs) before st.sink summary (disconnect_tip k b params summary st)
  unfolding disconnect_tip
  disconnect_tip-IsReverted base summary st h p hs a q =
      let (before, x, rest) =
        subst (λ y. Replayed b params base st.store y (get_coin st.coins)) q a.replayed in
      let (e, found, up, path) = subst (IsPath st.index) q a.path in
      let key : e.hash ≡ h = a.sound.linked.hashed h e found in
      let at_tip : tip_entry st ≡ some e = ap (λ y. find_or_none st.index (tip_hash y)) q ∙ found in
      let done =
        reversed-IsReverted (disconnect_block b x.block x.result.undo st.coins) h x.block summary st
          before (undoes k b params base st h before x.block x.result.undo x x.stored x.undone) in
      let run : disconnect_tip k b params summary st
          ≡ disconnect_reversed k b params (disconnect_block b x.block x.result.undo st.coins) h
              x.block summary st =
        ap (λ o. disconnect_entry k b params o summary st) at_tip
        ∙ ap (λ o. disconnect_below k b params o e.hash summary st) up
        ∙ ap
            (λ y.
              disconnect_stored k b params (get_block y st.store) (get_undo y st.store) y summary
                st)
            key
        ∙ ap₂ (λ o u. disconnect_stored k b params o u h summary st) x.stored x.undone in
      (
        before,
        rest,
        subst (λ r. IsReverted h (p ∷ hs) before st.sink summary r) (sym run)
            (subst
              (λ y. IsReverted h (pop_back y) before st.sink summary (
                disconnect_reversed k b params (disconnect_block b x.block x.result.undo st.coins) h
                  x.block summary st))
              q done),
      )
