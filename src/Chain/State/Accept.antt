-- ===== src/Chain/State/Accept.antt =====
-- `AcceptBlock` and `AcceptHeader` keep the coins those of the active chain: src/chain/chain_state.cpp.
use amarian_amr.Base.{inl, inr, nat_eq, list_eq, Bool-cases}
use amarian_amr.Base.Int.{ℤ}
use amarian_amr.Base.Result.{Result, ok, err}
use amarian_amr.Crypto.{Backend}
use amarian_amr.Primitives.Block.{Block, BlockHeader}
use amarian_amr.Consensus.Params.{ChainParams}
use amarian_amr.Consensus.Validation.{Verdict}
use amarian_amr.Consensus.Validation.Blocks.{check_block}
use amarian_amr.Utxo.Coins.{get_coin}
use amarian_amr.Utxo.Coins.Laws.{Coins}
use amarian_amr.Chain.Index.{Entry, HeaderError, body, is_eligible, add_header}
use amarian_amr.Chain.Marks.{record_validity, record_failure}
use amarian_amr.Chain.Store.{have_block, put_block}
use amarian_amr.Chain.State.{
  ChainSink, ChainState, accept_checked, accept_indexed, accept_block, header_indexed,
  accept_header,
}
use amarian_amr.Chain.State.Replay.{IsActive, Replayed-put_block}
use amarian_amr.Chain.State.Kept.{validated, failed, added, entry_committed}

module _ {T : Type 0} (k : ChainSink T) (b : Backend) (params : ChainParams) (base : Coins) where
  abbrev Active : ChainState T → Type 0
  Active st = IsActive b params base st

  accept_checked-Active :
      (v : Verdict) (e : Entry) (block : Block) (st : ChainState T)
      → Active st
      → Active (accept_checked k b params v e block st).1
  accept_checked-Active (err reason) e block st a =
      entry_committed k b params base (record st { index = (record_failure e.hash st.index).1 })
        e.hash (failed k b params base st e.hash a)
  accept_checked-Active (ok u) e block st a =
      let next = validated k b params base st e.hash body a in
      entry_committed k b params base
        (record st {
          store = put_block e.hash block st.store;
          index = record_validity e.hash body st.index;
        })
        e.hash
        (record {
          sound = next.sound;
          path = next.path;
          replayed =
              Replayed-put_block b params base st.store e.hash block st.blocks (get_coin st.coins)
                a.replayed;
        })

  accept_indexed-Active :
      (r : Result HeaderError Entry) (block : Block) (st : ChainState T)
      → Active st
      → Active (accept_indexed k b params r block st).1
  accept_indexed-Active (err e) block st a = a
  accept_indexed-Active (ok e) block st a = elim (Bool-cases (is_eligible e)) [
    | inl live ↦ elim (Bool-cases (have_block e.hash st.store)) [
      | inl there ↦ rw (live, there) a
      | inr missing ↦
          rw (live, missing) (accept_checked-Active (check_block b block params) e block st a)
    ]
    | inr dead ↦ rw dead a
  ]

  pub accept_block-Active :
      (block : Block) (now : ℤ) (st : ChainState T)
      → Active st
      → Active (accept_block k b params block now st).1
  unfolding accept_block
  accept_block-Active block now st a =
      accept_indexed-Active (add_header b block.header now params st.index).0 block
        (record st { index = (add_header b block.header now params st.index).1 })
        (added k b params base st block.header now a)

  header_indexed-Active :
      (r : Result HeaderError Entry) (st : ChainState T)
      → Active st
      → Active (header_indexed k b params r st).1
  header_indexed-Active (err e) st a = a
  header_indexed-Active (ok e) st a = elim (Bool-cases (is_eligible e)) [
    | inl live ↦ rw live (entry_committed k b params base st e.hash a)
    | inr dead ↦ rw dead a
  ]

  pub accept_header-Active :
      (header : BlockHeader) (now : ℤ) (st : ChainState T)
      → Active st
      → Active (accept_header k b params header now st).1
  unfolding accept_header
  accept_header-Active header now st a =
      header_indexed-Active (add_header b header now params st.index).0
        (record st { index = (add_header b header now params st.index).1 })
        (added k b params base st header now a)
