-- ===== src/Chain/State/Kept.antt =====
-- What every operation of `ChainState` is made of keeps the coins those of the active chain.
use amarian_amr.Base.{
  ◌≡◌, inl, inr, refl, sym, subst, Bool, true, false, Option, none, some, nat_eq, list_eq,
  Bool-cases,
}
use amarian_amr.Base.Int.{ℤ}
use amarian_amr.Crypto.{Backend}
use amarian_amr.Primitives.Hash.{Hash256}
use amarian_amr.Primitives.Block.{Block, BlockHeader}
use amarian_amr.Consensus.Params.{ChainParams}
use amarian_amr.Consensus.Validation.{ValidationError}
use amarian_amr.Utxo.Coins.{CoinsCache, get_coin}
use amarian_amr.Utxo.Coins.Laws.{Coins}
use amarian_amr.Chain.Index.{BlockIndex, Entry, BlockValidity, add_header}
use amarian_amr.Chain.Marks.{record_validity, record_failure}
use amarian_amr.Chain.Sound.{IsSound, add_header-IsSound, find-add_header}
use amarian_amr.Chain.Sound.Marking.{
  record_validity-IsSound, record_failure-IsSound, record_validity-Similar, record_failure-Similar,
}
use amarian_amr.Chain.State.{
  ActivationSummary, ChainSink, ChainState, tip_hash, commit_entry, commit_current_tip,
  tip_committed, disconnected_tip, faulted, reject_block, connected_tip,
}
use amarian_amr.Chain.State.Replay.{Replayed, IsActive, Keeping, Keeps, Similar-Keeps, IsPath-Keeps}

module _ {T : Type 0} (k : ChainSink T) (b : Backend) (params : ChainParams) (base : Coins) where
  abbrev Active : ChainState T → Type 0
  Active st = IsActive b params base st

  -- Another index over the same chain.
  reindexed :
      (st : ChainState T) (ix : BlockIndex)
      → Active st
      → IsSound ix
      → Keeps st.index ix
      → Active (record st { index = ix })
  reindexed st ix a sound keeps = record {
    sound = sound;
    path = IsPath-Keeps st.index ix st.blocks keeps a.path;
    replayed = a.replayed;
  }

  pub validated :
      (st : ChainState T) (h : Hash256) (reached : BlockValidity)
      → Active st
      → Active (record st { index = record_validity h reached st.index })
  validated st h reached a =
      reindexed st (record_validity h reached st.index) a
        (record_validity-IsSound st.index a.sound h reached)
        (Similar-Keeps st.index (record_validity h reached st.index)
          (record_validity-Similar st.index a.sound h reached))

  pub failed :
      (st : ChainState T) (h : Hash256)
      → Active st
      → Active (record st { index = (record_failure h st.index).1 })
  failed st h a =
      reindexed st (record_failure h st.index).1 a (record_failure-IsSound st.index a.sound h) (
        Similar-Keeps st.index (record_failure h st.index).1
          (record_failure-Similar st.index a.sound h))

  pub added :
      (st : ChainState T) (header : BlockHeader) (now : ℤ)
      → Active st
      → Active (record st { index = (add_header b header now params st.index).1 })
  added st header now a =
      reindexed st (add_header b header now params st.index).1 a
        (add_header-IsSound b header now params st.index a.sound)
        (λ h e q. (e, find-add_header b header now params st.index a.sound h e q, refl))

  pub entry_committed : (st : ChainState T) (h : Hash256) → Active st → Active (commit_entry k h st)
  unfolding commit_entry
  entry_committed st h a = record { sound = a.sound; path = a.path; replayed = a.replayed }

  pub recoined :
      (st : ChainState T) (coins : CoinsCache)
      → get_coin coins ≡ get_coin st.coins
      → Active st
      → Active (record st { coins = coins })
  recoined st coins q a = record {
    sound = a.sound;
    path = a.path;
    replayed = subst (λ s. Replayed b params base st.store st.blocks s) (sym q) a.replayed;
  }

  pub tip-Active :
      (st : ChainState T)
      → Active st
      → (commit_current_tip k st).0 ≡ true
      → Active (commit_current_tip k st).1
  unfolding commit_current_tip
  tip-Active st a = committed_tip st.sink (tip_hash st.blocks)
    where
      committed_tip :
          (sink : Option T) (tip : Option Hash256)
          → (tip_committed k sink tip st).0 ≡ true
          → Active (tip_committed k sink tip st).1
      committed_tip none tip taken = a
      committed_tip (some t) none taken = a
      committed_tip (some t) (some tip) taken = record {
        sound = a.sound;
        path = a.path;
        replayed =
            subst (λ s. Replayed b params base st.store st.blocks s)
              (sym (k.commit_tip-shown st.coins tip t taken)) a.replayed;
      }

  pub reject_block-Active :
      (e : Entry) (reason : ValidationError) (summary : ActivationSummary) (st : ChainState T)
      → Active st
      → Active (reject_block k b params e reason summary st).1
  reject_block-Active e reason summary st a = elim (Bool-cases (faulted k st.sink)) [
    | inl q ↦ rw q a
    | inr q ↦ rw q (
        entry_committed (record st { index = (record_failure e.hash st.index).1 }) e.hash
          (failed st e.hash a))
  ]

  pub connected-Keeping :
      (r : Bool × ChainState T) (h : Hash256) (block : Block) (summary : ActivationSummary)
      → (r.0 ≡ true → Active r.1)
      → Keeping b params base (connected_tip k b params r h block summary)
  connected-Keeping (false, st) h block summary a taken = absurd (cc (taken))
  connected-Keeping (true, st) h block summary a taken =
      let before = a refl in
      record { sound = before.sound; path = before.path; replayed = before.replayed }

  pub disconnected-Keeping :
      (r : Bool × ChainState T) (h : Hash256) (block : Block) (summary : ActivationSummary)
      → (r.0 ≡ true → Active r.1)
      → Keeping b params base (disconnected_tip k b params r h block summary)
  disconnected-Keeping (false, st) h block summary a taken = absurd (cc (taken))
  disconnected-Keeping (true, st) h block summary a taken =
      let before = a refl in
      record { sound = before.sound; path = before.path; replayed = before.replayed }
