-- ===== src/Chain/State.antt =====
-- `ChainState`: include/amarian/chain/chain_state.hpp and src/chain/chain_state.cpp. A pointer to an entry is the
-- hash under which the index holds it. The sink that makes a state durable is a parameter, and the calls of the
-- observer are the notices that it was given.
pub mod Replay
pub mod Kept
pub mod Connect
pub mod Disconnect
pub mod Accept
pub mod Revert
use amarian_amr.Base.{
  ℕ, zero, suc, ◌+◌, ◌-◌, Bool, true, false, not, Option, none, some, List, [], ◌∷◌, ◌++◌, length,
  ltb, leb, if◌then◌else◌, ◌==◌, nat_eq, list_eq, ◌≡◌,
}
use amarian_amr.Base.Int.{ℤ}
use amarian_amr.Base.Result.{Result, ok, err}
use amarian_amr.Base.Table.{find}
use amarian_amr.Crypto.{Backend}
use amarian_amr.Primitives.Hash.{Hash256}
use amarian_amr.Primitives.Block.{Block, BlockHeader}
use amarian_amr.Consensus.Params.{ChainParams}
use amarian_amr.Consensus.Validation.{ValidationError, Computed, Verdict}
use amarian_amr.Consensus.Validation.Blocks.{check_block}
use amarian_amr.Utxo.Coins.{CoinsCache, get_coin}
use amarian_amr.Utxo.Undo.{BlockUndo}
use amarian_amr.Utxo.Connect.{ConnectResult, DisconnectError, connect_block, disconnect_block}
use amarian_amr.Chain.Index.{
  BlockIndex, Entry, HeaderError, rule_broken, not_placed, already_ruled_out, body, full,
  is_eligible, find_or_none, parent_of, add_header, from_genesis,
}
use amarian_amr.Chain.Marks.{rung, record_validity, record_failure}
use amarian_amr.Chain.Store.{
  BlockStore, empty_store, get_block, have_block, get_undo, put_block, put_undo,
}

pub data ActivationError : Type 0 where
  block_body_unavailable undo_record_unavailable revert_rejected : ActivationError
  chain_out_of_step commit_failed storage_faulted : ActivationError

pub record ActivationFailure : Type 0 where
  pub error : ActivationError
  pub block : Hash256
  pub revert : Option DisconnectError

pub record RejectedBlock : Type 0 where
  pub hash : Hash256
  pub height : ℕ
  pub reason : ValidationError

pub record ActivationSummary : Type 0 where
  pub tip : Option Hash256
  pub connected : ℕ
  pub disconnected : ℕ
  pub rejected : List RejectedBlock
  pub reached_best_header : Bool

-- What a `TipObserver` is told.
pub data Notice : Type 0 where
  block_connected : Block → Hash256 → Notice
  block_disconnected : Block → Hash256 → Notice

-- A sink, whose own state is `T`. A sink that takes a tip has flushed the changes into the layer below, so
-- that the cache shows the same coins afterwards. Of one that refuses nothing is known: the changes may
-- be gone.
pub record ChainSink (T : Type 0) : Type 0 where
  pub commit_header : Entry → T → Bool × T
  pub commit_tip : CoinsCache → Hash256 → T → Bool × (CoinsCache × T)
  pub has_fault : T → Bool
  pub commit_tip-shown :
      (changes : CoinsCache) (tip : Hash256) (t : T)
      → (commit_tip changes tip t).0 ≡ true
      → get_coin (commit_tip changes tip t).1.0 ≡ get_coin changes

-- `blocks` is the active chain with its tip first.
pub record ChainState (T : Type 0) : Type 0 where
  pub index : BlockIndex
  pub coins : CoinsCache
  pub store : BlockStore
  pub blocks : List Hash256
  pub sink : Option T
  pub notices : Option (List Notice)

-- `Stopped`.
abbrev pub stopped : {A : Type 0} → ActivationError → Hash256 → Result ActivationFailure A
stopped e hash = err (record { error = e; block = hash; revert = none })

abbrev pub tip_hash : List Hash256 → Option Hash256
tip_hash [] = none
tip_hash (h ∷ hs) = some h

abbrev pub pop_back : List Hash256 → List Hash256
pop_back [] = []
pop_back (h ∷ hs) = hs

-- Whether a pointer is the tip.
abbrev pub is_tip : Option Hash256 → List Hash256 → Bool
is_tip none hs = false
is_tip (some p) [] = false
is_tip (some p) (h ∷ hs) = p == h

-- The ancestors of an entry, itself first. One round for each height and one more is enough fuel.
unfoldable pub upwards : BlockIndex → ℕ → Option Entry → List Hash256
upwards ix zero e = []
upwards ix (suc fuel) none = []
upwards ix (suc fuel) (some e) = e.hash ∷ upwards ix fuel (parent_of ix (some e))

abbrev pub noticed : Notice → Option (List Notice) → Option (List Notice)
noticed n none = none
noticed n (some ns) = some (n ∷ ns)

module _ {T : Type 0} where
  -- `Tip`.
  abbrev pub tip_entry : ChainState T → Option Entry
  tip_entry st = find_or_none st.index (tip_hash st.blocks)

  abbrev pub notify : Notice → ChainState T → ChainState T
  notify n st = record st { notices = noticed n st.notices }

  -- `PersistTo`, with the sink as it stands.
  unfoldable pub persist_to : T → ChainState T → ChainState T
  persist_to t st = record st { sink = some t }

  -- `ObserveWith`, with an observer that was told nothing yet.
  unfoldable pub observe_with : ChainState T → ChainState T
  observe_with st = record st { notices = some [] }

  -- `ResumeAt`.
  unfoldable pub resume_at : Entry → ChainState T → ChainState T
  unfolding upwards
  resume_at tip st = record st { blocks = upwards st.index (tip.height + 1) (some tip) }

module _ {T : Type 0} (k : ChainSink T) where
  abbrev pub header_committed : Option T → Option Entry → Option T
  header_committed none e = none
  header_committed (some t) none = some t
  header_committed (some t) (some e) = some (k.commit_header e t).1

  -- `CommitEntry`, whose answer every caller ignores.
  unfoldable pub commit_entry : Hash256 → ChainState T → ChainState T
  unfolding find
  commit_entry hash st = record st { sink = header_committed st.sink (find hash st.index.entries) }

  abbrev pub faulted : Option T → Bool
  faulted none = false
  faulted (some t) = k.has_fault t

  abbrev pub tip_committed : Option T → Option Hash256 → ChainState T → Bool × ChainState T
  tip_committed none tip st = (true, st)
  tip_committed (some t) none st = (true, st)
  tip_committed (some t) (some tip) st =
      let r = k.commit_tip st.coins tip t in (r.0, record st { coins = r.1.0; sink = some r.1.1 })

  unfoldable pub commit_current_tip : ChainState T → Bool × ChainState T
  commit_current_tip st = tip_committed st.sink (tip_hash st.blocks) st

  module _ (b : Backend) (params : ChainParams) where
    -- What follows the commit of a tip from which a block was taken.
    abbrev pub disconnected_tip :
        Bool × ChainState T
        → Hash256
        → Block
        → ActivationSummary
        → Result ActivationFailure ActivationSummary × ChainState T
    disconnected_tip (false, st) hash block summary = (stopped commit_failed hash, st)
    disconnected_tip (true, st) hash block summary = (
      ok (record summary { disconnected = summary.disconnected + 1 }),
      notify (block_disconnected block hash) st,
    )

    abbrev pub disconnect_reversed :
        Result DisconnectError (Unit {0}) × CoinsCache
        → Hash256
        → Block
        → ActivationSummary
        → ChainState T
        → Result ActivationFailure ActivationSummary × ChainState T
    disconnect_reversed (err e, coins) hash block summary st = (
      err (record { error = revert_rejected; block = hash; revert = some e }),
      record st { coins = coins },
    )
    disconnect_reversed (ok u, coins) hash block summary st =
        disconnected_tip
          (commit_current_tip (record st { coins = coins; blocks = pop_back st.blocks })) hash block
          summary

    abbrev pub disconnect_stored :
        Option Block
        → Option BlockUndo
        → Hash256
        → ActivationSummary
        → ChainState T
        → Result ActivationFailure ActivationSummary × ChainState T
    disconnect_stored none undo hash summary st = (stopped block_body_unavailable hash, st)
    disconnect_stored (some block) none hash summary st = (stopped undo_record_unavailable hash, st)
    disconnect_stored (some block) (some undo) hash summary st =
        disconnect_reversed (disconnect_block b block undo st.coins) hash block summary st

    abbrev pub disconnect_below :
        Option Hash256
        → Hash256
        → ActivationSummary
        → ChainState T
        → Result ActivationFailure ActivationSummary × ChainState T
    disconnect_below none hash summary st = (stopped chain_out_of_step hash, st)
    disconnect_below (some p) hash summary st =
        disconnect_stored (get_block hash st.store) (get_undo hash st.store) hash summary st

    -- An active chain has a tip; the answer where there is none stands for the dereference that the code makes.
    abbrev pub disconnect_entry :
        Option Entry
        → ActivationSummary
        → ChainState T
        → Result ActivationFailure ActivationSummary × ChainState T
    disconnect_entry none summary st = (stopped chain_out_of_step [], st)
    disconnect_entry (some e) summary st = disconnect_below e.parent e.hash summary st

    unfoldable pub disconnect_tip :
        ActivationSummary → ChainState T → Result ActivationFailure ActivationSummary × ChainState T
    unfolding commit_current_tip get_block get_undo disconnect_block find
    disconnect_tip summary st = disconnect_entry (tip_entry st) summary st

    -- A block that broke a rule is ruled out, unless the storage cannot be trusted.
    abbrev pub reject_block :
        Entry
        → ValidationError
        → ActivationSummary
        → ChainState T
        → Result ActivationFailure (Bool × ActivationSummary) × ChainState T
    reject_block entry reason summary st =
        if faulted st.sink then (stopped storage_faulted entry.hash, st) else (
          ok (
            false,
            record summary {
              rejected =
                  summary.rejected
                  ++ record { hash = entry.hash; height = entry.height; reason = reason } ∷ [];
            },
          ),
          commit_entry entry.hash (record st { index = (record_failure entry.hash st.index).1 }),
        )

    -- What follows the commit of a tip on which a block was put.
    abbrev pub connected_tip :
        Bool × ChainState T
        → Hash256
        → Block
        → ActivationSummary
        → Result ActivationFailure (Bool × ActivationSummary) × ChainState T
    connected_tip (false, st) hash block summary = (stopped commit_failed hash, st)
    connected_tip (true, st) hash block summary = (
      ok (true, record summary { connected = summary.connected + 1 }),
      notify (block_connected block hash) st,
    )

    abbrev pub connect_applied :
        Computed ConnectResult × CoinsCache
        → Entry
        → Block
        → ActivationSummary
        → ChainState T
        → Result ActivationFailure (Bool × ActivationSummary) × ChainState T
    connect_applied (err reason, coins) entry block summary st =
        reject_block entry reason summary (record st { coins = coins })
    connect_applied (ok result, coins) entry block summary st =
        connected_tip
          (commit_current_tip (
            commit_entry entry.hash (record st {
              coins = coins;
              store = put_undo entry.hash result.undo st.store;
              blocks = entry.hash ∷ st.blocks;
              index = record_validity entry.hash full st.index;
            })))
          entry.hash block summary

    abbrev pub connect_checked :
        Verdict
        → Entry
        → Block
        → ActivationSummary
        → ChainState T
        → Result ActivationFailure (Bool × ActivationSummary) × ChainState T
    connect_checked (err reason) entry block summary st = reject_block entry reason summary st
    connect_checked (ok u) entry block summary st =
        connect_applied (connect_block b block st.coins params) entry block summary
          (record st { index = record_validity entry.hash body st.index })

    abbrev pub connect_stored :
        Option Block
        → Entry
        → ActivationSummary
        → ChainState T
        → Result ActivationFailure (Bool × ActivationSummary) × ChainState T
    connect_stored none entry summary st = (stopped block_body_unavailable entry.hash, st)
    connect_stored (some block) entry summary st =
        if ltb (rung entry.validity) (rung body)
        then connect_checked (check_block b block params) entry block summary st
        else connect_applied (connect_block b block st.coins params) entry block summary st

    -- A pointer names an entry that is there; the answer where there is none stands for its dereference.
    abbrev pub connect_entry :
        Option Entry
        → Hash256
        → ActivationSummary
        → ChainState T
        → Result ActivationFailure (Bool × ActivationSummary) × ChainState T
    connect_entry none hash summary st = (stopped chain_out_of_step hash, st)
    connect_entry (some entry) hash summary st =
        if not (is_tip entry.parent st.blocks)
        then (stopped chain_out_of_step entry.hash, st)
        else connect_stored (get_block entry.hash st.store) entry summary st

    unfoldable pub connect_tip :
        Hash256
        → ActivationSummary
        → ChainState T
        → Result ActivationFailure (Bool × ActivationSummary) × ChainState T
    unfolding commit_current_tip commit_entry get_block put_undo connect_block check_block
        record_validity record_failure find
    connect_tip hash summary st = connect_entry (find hash st.index.entries) hash summary st

    abbrev pub accept_checked :
        Verdict → Entry → Block → ChainState T → Result HeaderError Hash256 × ChainState T
    accept_checked (err reason) entry block st = (
      err (rule_broken reason),
      commit_entry entry.hash (record st { index = (record_failure entry.hash st.index).1 }),
    )
    accept_checked (ok u) entry block st = (
      ok entry.hash,
      commit_entry entry.hash (record st {
        store = put_block entry.hash block st.store;
        index = record_validity entry.hash body st.index;
      }),
    )

    abbrev pub accept_indexed :
        Result HeaderError Entry → Block → ChainState T → Result HeaderError Hash256 × ChainState T
    accept_indexed (err e) block st = (err e, st)
    accept_indexed (ok entry) block st =
        if not (is_eligible entry)
        then (err (not_placed already_ruled_out), st)
        else if have_block entry.hash st.store
        then (ok entry.hash, st)
        else accept_checked (check_block b block params) entry block st

    unfoldable pub accept_block :
        Block → ℤ → ChainState T → Result HeaderError Hash256 × ChainState T
    unfolding add_header commit_entry have_block put_block check_block record_validity
        record_failure
    accept_block block now st =
        let r = add_header b block.header now params st.index in
        accept_indexed r.0 block (record st { index = r.1 })

    abbrev pub header_indexed :
        Result HeaderError Entry → ChainState T → Result HeaderError Hash256 × ChainState T
    header_indexed (err e) st = (err e, st)
    header_indexed (ok entry) st =
        if not (is_eligible entry)
        then (err (not_placed already_ruled_out), st)
        else (ok entry.hash, commit_entry entry.hash st)

    unfoldable pub accept_header :
        BlockHeader → ℤ → ChainState T → Result HeaderError Hash256 × ChainState T
    unfolding add_header commit_entry
    accept_header header now st =
        let r = add_header b header now params st.index in
        header_indexed r.0 (record st { index = r.1 })

module _ {T : Type 0} where
  -- The constructor, over an index that holds the genesis block alone and an empty store.
  unfoldable pub at_genesis :
      Backend → BlockHeader → CoinsCache → Option T → Option (List Notice) → ChainState T
  unfolding from_genesis
  at_genesis b header coins sink notices =
      let index = from_genesis b header in
      record {
        index = index;
        coins = coins;
        store = empty_store;
        blocks = index.genesis ∷ [];
        sink = sink;
        notices = notices;
      }
