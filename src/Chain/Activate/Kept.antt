-- ===== src/Chain/Activate/Kept.antt =====
-- Activation keeps the coins those of the active chain, and so does every call that reaches a state.
use amarian_amr.Base.{
  ℕ, zero, suc, ◌≡◌, inl, inr, refl, Bool, true, false, Option, none, some, List, [], ◌∷◌, nat_eq,
  list_eq, Bool-cases, ◌||◌,
}
use amarian_amr.Base.Int.{ℤ}
use amarian_amr.Base.Result.{Result, ok, err}
use amarian_amr.Base.Table.{find}
use amarian_amr.Crypto.{Backend}
use amarian_amr.Primitives.Hash.{Hash256}
use amarian_amr.Primitives.Block.{Block, BlockHeader}
use amarian_amr.Consensus.Params.{ChainParams}
use amarian_amr.Utxo.Coins.{CoinsCache, get_coin}
use amarian_amr.Utxo.Coins.Laws.{Coins}
use amarian_amr.Chain.Index.{Entry, from_genesis}
use amarian_amr.Chain.Sound.Reach.{reachable-IsSound, built, root, here}
use amarian_amr.Chain.Switch.{ChainSwitch, plan_chain_switch}
use amarian_amr.Chain.State.{
  ActivationFailure, ActivationSummary, ChainSink, ChainState, Notice, is_tip, tip_entry,
  disconnect_tip, connect_tip, accept_block, accept_header, at_genesis,
}
use amarian_amr.Chain.State.Replay.{IsActive, IsPath, Keeping, is_refused}
use amarian_amr.Chain.State.Connect.{connect_tip-Keeping}
use amarian_amr.Chain.State.Disconnect.{disconnect_tip-Keeping}
use amarian_amr.Chain.State.Accept.{accept_block-Active, accept_header-Active}
use amarian_amr.Chain.Activate.{
  contains, reachable, last_or, disconnect_next, disconnect_all, connect_next, connect_all,
  finish_pass, improves, from_fork, towards, pass, again, activate_loop, activate_best_chain,
}

-- Whether an activation answered that the sink refused a tip.
abbrev pub is_stopped : Option (Result ActivationFailure ActivationSummary) → Bool
is_stopped none = false
is_stopped (some r) = is_refused r

module _ {T : Type 0} (k : ChainSink T) (b : Backend) (params : ChainParams) (base : Coins) where
  abbrev Active : ChainState T → Type 0
  Active st = IsActive b params base st

  abbrev Kept : {A : Type 0} → Result ActivationFailure A × ChainState T → Type 0
  Kept r = Keeping b params base r

  abbrev Runs :
      (ActivationSummary → ChainState T → Result ActivationFailure ActivationSummary × ChainState T)
      → Type 0
  Runs rest = (summary : ActivationSummary) (st : ChainState T) → Active st → Kept (rest summary st)

  disconnect_next-Kept :
      (r : Result ActivationFailure ActivationSummary × ChainState T)
      (rest : ActivationSummary
        → ChainState T
        → Result ActivationFailure ActivationSummary × ChainState T)
      → Kept r
      → Runs rest
      → Kept (disconnect_next k b params r rest)
  disconnect_next-Kept (err e, st) rest a runs = a
  disconnect_next-Kept (ok summary, st) rest a runs = runs summary st (a refl)

  disconnect_all-Kept : (es : List Entry) → Runs (disconnect_all k b params es)
  unfolding disconnect_all
  disconnect_all-Kept [] summary st a = λ taken. a
  disconnect_all-Kept (e ∷ es) summary st a = elim (Bool-cases (is_tip (some e.hash) st.blocks)) [
    | inl q ↦ rw q (
        disconnect_next-Kept (disconnect_tip k b params summary st) (disconnect_all k b params es)
          (disconnect_tip-Keeping k b params base summary st a) (disconnect_all-Kept es))
    | inr q ↦ rw q (λ taken. a)
  ]

  connect_next-Kept :
      (r : Result ActivationFailure (Bool × ActivationSummary) × ChainState T)
      (rest : ActivationSummary
        → ChainState T
        → Result ActivationFailure ActivationSummary × ChainState T)
      → Kept r
      → Runs rest
      → Kept (connect_next k b params r rest)
  connect_next-Kept (err e, st) rest a runs = a
  connect_next-Kept (ok (false, summary), st) rest a runs = a
  connect_next-Kept (ok (true, summary), st) rest a runs = runs summary st (a refl)

  connect_all-Kept : (es : List Entry) → Runs (connect_all k b params es)
  unfolding connect_all
  connect_all-Kept [] summary st a = λ taken. a
  connect_all-Kept (e ∷ es) summary st a =
      connect_next-Kept (connect_tip k b params e.hash summary st) (connect_all k b params es)
        (connect_tip-Keeping k b params base e.hash summary st a) (connect_all-Kept es)

  finish_pass-Kept :
      (r : Result ActivationFailure ActivationSummary × ChainState T)
      → Kept r
      → Kept (finish_pass k b params r)
  finish_pass-Kept (err e, st) a = a
  finish_pass-Kept (ok summary, st) a = a

  from_fork-Kept :
      (fork : Option Entry) (target : Hash256) (plan : ChainSwitch) (summary : ActivationSummary)
      (st : ChainState T)
      → Active st
      → Kept (from_fork k b params fork target plan summary st)
  from_fork-Kept none target plan summary st a = λ taken. a
  from_fork-Kept (some fork) target plan summary st a =
      elim (Bool-cases (contains fork st.blocks)) [
        | inl q ↦
            elim (Bool-cases (
              improves k b params (last_or fork (reachable st.store plan.connect))
                (tip_entry st))) [
                  | inl better ↦
                      rw (q, better)
                        (finish_pass-Kept _ (
                          disconnect_next-Kept
                            (disconnect_all k b params plan.disconnect summary st)
                            (connect_all k b params (reachable st.store plan.connect))
                            (disconnect_all-Kept plan.disconnect summary st a)
                            (connect_all-Kept (reachable st.store plan.connect))))
                  | inr worse ↦ rw (q, worse) (λ taken. a)
                ]
        | inr q ↦ rw q (λ taken. a)
      ]

  pass-Kept :
      (summary : ActivationSummary) (st : ChainState T)
      → Active st
      → Kept (pass k b params summary st)
  unfolding pass
  pass-Kept summary st a = known st.index.best_header
    where
      known : (o : Option Hash256) → Kept (towards k b params o summary st)
      known none = λ taken. a
      known (some target) = elim (Bool-cases (is_tip (some target) st.blocks)) [
        | inl q ↦ rw q (λ taken. a)
        | inr q ↦
            let plan = plan_chain_switch st.index (tip_entry st) (find target st.index.entries) in
            rw q (from_fork-Kept plan.fork_point target plan summary st a)
      ]

  -- An activation that has not answered that the sink refused a tip.
  abbrev Answered : Option (Result ActivationFailure ActivationSummary) × ChainState T → Type 0
  Answered r = is_stopped r.0 ≡ false → Active r.1

  activate_loop-Answered :
      (fuel : ℕ) (summary : ActivationSummary) (st : ChainState T)
      → Active st
      → Answered (activate_loop k b params fuel summary st)
  unfolding activate_loop
  activate_loop-Answered zero summary st a = λ taken. a
  activate_loop-Answered (suc fuel) summary st a =
      next (pass k b params summary st) (pass-Kept summary st a) (activate_loop-Answered fuel)
    where
      next :
          (r : Result ActivationFailure (Bool × ActivationSummary) × ChainState T)
          → Kept r
          → ((s : ActivationSummary) (u : ChainState T)
              → Active u
              → Answered (activate_loop k b params fuel s u))
          → Answered (again k b params r (activate_loop k b params fuel))
      next (err e, u) a ih = a
      next (ok (true, s), u) a ih = a
      next (ok (false, s), u) a ih = ih s u (a refl)

  activate_best_chain-Answered :
      (fuel : ℕ) (st : ChainState T) → Active st → Answered (activate_best_chain k b params fuel st)
  unfolding activate_best_chain
  activate_best_chain-Answered fuel st a = activate_loop-Answered fuel _ st a

module _ (b : Backend) (header : BlockHeader) where
  genesis-IsPath :
      header.height ≡ 0 → IsPath (from_genesis b header) ((from_genesis b header).genesis ∷ [])
  unfolding from_genesis
  genesis-IsPath low = (root b header low, here b header low, refl)

module _ {T : Type 0} (b : Backend) (params : ChainParams) (header : BlockHeader) where
  at_genesis-IsActive :
      (coins : CoinsCache) (sink : Option T) (notices : Option (List Notice))
      → header.height ≡ 0
      → IsActive b params (get_coin coins) (at_genesis b header coins sink notices)
  unfolding at_genesis
  at_genesis-IsActive coins sink notices low = record {
    sound = reachable-IsSound b params header low (from_genesis b header) built;
    path = genesis-IsPath b header low;
    replayed = refl;
  }

-- A call that changes a chain state, with whether it answered that the sink refused a tip.
pub data Call {T : Type 0} (k : ChainSink T) (b : Backend) (params : ChainParams)
    : Bool → ChainState T → ChainState T → Type 0 where
  offering_block :
      (block : Block) (now : ℤ) (st : ChainState T)
      → Call k b params false st (accept_block k b params block now st).1
  offering_header :
      (header : BlockHeader) (now : ℤ) (st : ChainState T)
      → Call k b params false st (accept_header k b params header now st).1
  activating :
      (fuel : ℕ) (st : ChainState T)
      → Call k b params
          (is_stopped (activate_best_chain k b params fuel st).0)
          st
          (activate_best_chain k b params fuel st).1

-- The states that calls reach from one, with whether a call answered that the sink refused a tip.
pub data Calls {T : Type 0} (k : ChainSink T) (b : Backend) (params : ChainParams)
    (start : ChainState T) : Bool → ChainState T → Type 0 where
  no_call : Calls k b params start false start
  after_call :
      (refused now : Bool) (st st' : ChainState T)
      → Calls k b params start refused st
      → Call k b params now st st'
      → Calls k b params start (refused || now) st'

Call-IsActive :
    {T : Type 0} (k : ChainSink T) (b : Backend) (params : ChainParams) (base : Coins) (now : Bool)
    (st st' : ChainState T)
    → Call k b params now st st'
    → IsActive b params base st
    → now ≡ false
    → IsActive b params base st'
Call-IsActive k b params base _ st st' (offering_block block now _) a taken =
    accept_block-Active k b params base block now st a
Call-IsActive k b params base _ st st' (offering_header header now _) a taken =
    accept_header-Active k b params base header now st a
Call-IsActive k b params base _ st st' (activating fuel _) a taken =
    activate_best_chain-Answered k b params base fuel st a taken

or_false : (x y : Bool) → (x || y) ≡ false → (x ≡ false) × (y ≡ false)
or_false false false h = (refl, refl)
or_false false true h = absurd (cc (h))
or_false true y h = absurd (cc (h))

-- From a chain state over a genesis header of height 0 and an empty store, whatever blocks and headers
-- are offered and however often and for however many passes the best chain is activated, errors and
-- reorganisations included, as long as no activation has answered that the sink refused a tip: the index
-- is sound, the active chain is the path from its tip down to an entry with no parent, each block on it
-- above that entry has its body and its undo record in the store, and the coins are exactly those that
-- the loops of ConnectBlock leave, block after block along the active chain, of the coins at the start.
pub reached-IsActive :
    {T : Type 0} (k : ChainSink T) (b : Backend) (params : ChainParams) (header : BlockHeader)
    (coins : CoinsCache) (sink : Option T) (notices : Option (List Notice))
    → header.height ≡ 0
    → (refused : Bool) (st : ChainState T)
    → Calls k b params (at_genesis b header coins sink notices) refused st
    → refused ≡ false
    → IsActive b params (get_coin coins) st
reached-IsActive k b params header coins sink notices low _ _ no_call taken =
    at_genesis-IsActive b params header coins sink notices low
reached-IsActive k b params header coins sink notices low _ st
      (after_call refused now before _ calls call) taken =
    Call-IsActive k b params (get_coin coins) now before st call
      (reached-IsActive k b params header coins sink notices low refused before calls
        (or_false refused now taken).0)
      (or_false refused now taken).1
