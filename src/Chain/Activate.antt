-- ===== src/Chain/Activate.antt =====
-- `ActivateBestChain` of src/chain/chain_state.cpp.
pub mod Kept
use amarian_amr.Base.{
  ℕ, zero, suc, ◌+◌, ◌-◌, Bool, true, false, not, Option, none, some, List, [], ◌∷◌, length, leb,
  if◌then◌else◌, ◌==◌, nat_eq, list_eq,
}
use amarian_amr.Base.Result.{Result, ok, err}
use amarian_amr.Base.Table.{find}
use amarian_amr.Crypto.{Backend}
use amarian_amr.Primitives.Hash.{Hash256}
use amarian_amr.Consensus.Params.{ChainParams}
use amarian_amr.Chain.Index.{Entry, is_better_tip}
use amarian_amr.Chain.Switch.{ChainSwitch, plan_chain_switch}
use amarian_amr.Chain.Store.{BlockStore, have_block}
use amarian_amr.Chain.State.{
  ActivationFailure, ActivationSummary, ChainSink, ChainState, chain_out_of_step, stopped, tip_hash,
  is_tip, tip_entry, disconnect_tip, connect_tip,
}

-- The block at a place of a chain whose tip is first.
abbrev pub nth : ℕ → List Hash256 → Option Hash256
nth n [] = none
nth zero (h ∷ hs) = some h
nth (suc n) (h ∷ hs) = nth n hs

-- `AtHeight`.
abbrev pub at_height : ℕ → List Hash256 → Option Hash256
at_height height hs = if leb (length hs) height then none else nth (length hs - 1 - height) hs

abbrev pub is_hash : Hash256 → Option Hash256 → Bool
is_hash h none = false
is_hash h (some j) = j == h

-- `Contains`.
abbrev pub contains : Entry → List Hash256 → Bool
contains e hs = is_hash e.hash (at_height e.height hs)

-- The blocks of a new branch up to the first whose body is absent.
unfoldable pub reachable : BlockStore → List Entry → List Entry
unfolding have_block
reachable store [] = []
reachable store (e ∷ es) = if have_block e.hash store then e ∷ reachable store es else []

abbrev pub last_or : Entry → List Entry → Entry
last_or e [] = e
last_or e (x ∷ xs) = last_or x xs

module _ {T : Type 0} (k : ChainSink T) (b : Backend) (params : ChainParams) where
  abbrev pub disconnect_next :
      Result ActivationFailure ActivationSummary × ChainState T
      → (ActivationSummary
          → ChainState T
          → Result ActivationFailure ActivationSummary × ChainState T)
      → Result ActivationFailure ActivationSummary × ChainState T
  disconnect_next (err e, st) rest = (err e, st)
  disconnect_next (ok summary, st) rest = rest summary st

  unfoldable pub disconnect_all :
      List Entry
      → ActivationSummary
      → ChainState T
      → Result ActivationFailure ActivationSummary × ChainState T
  unfolding disconnect_tip
  disconnect_all [] summary st = (ok summary, st)
  disconnect_all (e ∷ es) summary st =
      if not (is_tip (some e.hash) st.blocks)
      then (stopped chain_out_of_step e.hash, st)
      else disconnect_next (disconnect_tip k b params summary st) (disconnect_all es)

  abbrev pub connect_next :
      Result ActivationFailure (Bool × ActivationSummary) × ChainState T
      → (ActivationSummary
          → ChainState T
          → Result ActivationFailure ActivationSummary × ChainState T)
      → Result ActivationFailure ActivationSummary × ChainState T
  connect_next (err e, st) rest = (err e, st)
  connect_next (ok (false, summary), st) rest = (ok summary, st)
  connect_next (ok (true, summary), st) rest = rest summary st

  -- The loop stops at a block that is ruled out.
  unfoldable pub connect_all :
      List Entry
      → ActivationSummary
      → ChainState T
      → Result ActivationFailure ActivationSummary × ChainState T
  unfolding connect_tip
  connect_all [] summary st = (ok summary, st)
  connect_all (e ∷ es) summary st =
      connect_next (connect_tip k b params e.hash summary st) (connect_all es)

  -- A summary that names the tip, with whether the pass was the last.
  abbrev pub finish_pass :
      Result ActivationFailure ActivationSummary × ChainState T
      → Result ActivationFailure (Bool × ActivationSummary) × ChainState T
  finish_pass (err e, st) = (err e, st)
  finish_pass (ok summary, st) = (ok (false, record summary { tip = tip_hash st.blocks }), st)

  abbrev pub settled :
      Bool
      → ActivationSummary
      → ChainState T
      → Result ActivationFailure (Bool × ActivationSummary) × ChainState T
  settled reached summary st =
      (ok (true, record summary { tip = tip_hash st.blocks; reached_best_header = reached }), st)

  -- The move along a plan, as far as the bodies that are there.
  abbrev pub follow_plan :
      List Entry
      → List Entry
      → ActivationSummary
      → ChainState T
      → Result ActivationFailure (Bool × ActivationSummary) × ChainState T
  follow_plan out back summary st =
      finish_pass (disconnect_next (disconnect_all out summary st) (connect_all back))

  abbrev pub improves : Entry → Option Entry → Bool
  improves attainable none = false
  improves attainable (some tip) = is_better_tip attainable tip

  abbrev pub from_fork :
      Option Entry
      → Hash256
      → ChainSwitch
      → ActivationSummary
      → ChainState T
      → Result ActivationFailure (Bool × ActivationSummary) × ChainState T
  from_fork none target plan summary st = (stopped chain_out_of_step target, st)
  from_fork (some fork) target plan summary st =
      if not (contains fork st.blocks)
      then (stopped chain_out_of_step fork.hash, st)
      else (let back = reachable st.store plan.connect in
          if not (improves (last_or fork back) (tip_entry st))
          then settled summary.reached_best_header summary st
          else follow_plan plan.disconnect back summary st)

  abbrev pub towards :
      Option Hash256
      → ActivationSummary
      → ChainState T
      → Result ActivationFailure (Bool × ActivationSummary) × ChainState T
  towards none summary st = settled false summary st
  towards (some target) summary st =
      if is_tip (some target) st.blocks
      then settled true summary st
      else (let plan = plan_chain_switch st.index (tip_entry st) (find target st.index.entries) in
          from_fork plan.fork_point target plan summary st)

  -- One pass of the loop, with whether it returns.
  unfoldable pub pass :
      ActivationSummary
      → ChainState T
      → Result ActivationFailure (Bool × ActivationSummary) × ChainState T
  unfolding find plan_chain_switch is_better_tip reachable disconnect_all connect_all
  pass summary st = towards st.index.best_header summary st

  -- `none` where the rounds do not suffice.
  abbrev pub again :
      Result ActivationFailure (Bool × ActivationSummary) × ChainState T
      → (ActivationSummary
          → ChainState T
          → Option (Result ActivationFailure ActivationSummary) × ChainState T)
      → Option (Result ActivationFailure ActivationSummary) × ChainState T
  again (err e, st) rest = (some (err e), st)
  again (ok (true, summary), st) rest = (some (ok summary), st)
  again (ok (false, summary), st) rest = rest summary st

  unfoldable pub activate_loop :
      ℕ
      → ActivationSummary
      → ChainState T
      → Option (Result ActivationFailure ActivationSummary) × ChainState T
  unfolding pass
  activate_loop zero summary st = (none, st)
  activate_loop (suc fuel) summary st = again (pass summary st) (activate_loop fuel)

  unfoldable pub activate_best_chain :
      ℕ → ChainState T → Option (Result ActivationFailure ActivationSummary) × ChainState T
  unfolding activate_loop
  activate_best_chain fuel st =
      activate_loop fuel
        (record {
          tip = tip_hash st.blocks;
          connected = 0;
          disconnected = 0;
          rejected = [];
          reached_best_header = false;
        })
        st
