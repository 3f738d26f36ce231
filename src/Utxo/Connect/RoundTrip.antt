-- ===== src/Utxo/Connect/RoundTrip.antt =====
-- The two operations on a caller's cache: what they do to the coins it shows.
use amarian_amr.Base.{
  ℕ, ◌+◌, not, ◌||◌, ◌≡◌, refl, sym, ap, ap₂, ◌∙◌, fun_ext, true, false, List, [], ◌∷◌, length,
  arith, ◌==◌, nat_eq,
}
use amarian_amr.Base.Int.{pos}
use amarian_amr.Base.Result.{Result, ok, err}
use amarian_amr.Base.Table.{find}
use amarian_amr.Crypto.{Backend}
use amarian_amr.Primitives.Transaction.{Transaction}
use amarian_amr.Primitives.Block.{Block}
use amarian_amr.Consensus.Params.{ChainParams}
use amarian_amr.Utxo.Coins.{CoinsView, CoinsCache, get_coin, over, as_view}
use amarian_amr.Utxo.Coins.Laws.{Coins, coins-flush}
use amarian_amr.Utxo.Ledger.{Action, coins_store}
use amarian_amr.Utxo.Ledger.Simulation.{Simulates, Ends}
use amarian_amr.Utxo.Undo.{BlockUndo}
use amarian_amr.Utxo.Connect.{
  ConnectResult, commit, connect_batch, connect_block, disconnect_batch, disconnect_block,
}
use amarian_amr.Utxo.Connect.Inversion.{connect_batch-eq_ok}
use amarian_amr.Utxo.Connect.Refinement.{connect_batch-Simulates, disconnect_batch-Simulates}
use amarian_amr.Utxo.Connect.Reversal.Loops.{
  disconnect_transactions-connect_transactions, length-connect_transactions, spending_count,
}

-- The set of coins after a run: the run's on success, and the one before it on an error.
abbrev pub commit_coins : {E A : Type 0} → Coins → Result E (A × Coins) → Result E A × Coins
commit_coins s (err e) = (err e, s)
commit_coins s (ok (a, t)) = (ok a, t)

-- What an operation returns, with the coins that the caller's cache shows then.
abbrev pub shown : {E A : Type 0} → Result E A × CoinsCache → Result E A × Coins
shown (r, c) = (r, get_coin c)

get_coin-over : (c : CoinsCache) → get_coin (over (as_view c)) ≡ get_coin c
unfolding over get_coin find
get_coin-over c = fun_ext λ o. refl

shown-commit :
    {E A : Type 0} (c : CoinsCache) (r : Result E (A × CoinsCache)) (q : Result E (A × Coins))
    → Ends (over (as_view c)) r q
    → shown (commit c r) ≡ commit_coins (get_coin c) q
unfolding over
shown-commit c (err e) q h = ap (commit_coins (get_coin c)) (sym h)
shown-commit c (ok (a, d)) q h =
    let f = h.1 in
    let left = coins-flush d c (f.distinct tt) (λ o. ap (λ (v : CoinsView). v.get o) f.same_base) in
    ap (λ z. (ok a, z)) left ∙ ap (commit_coins (get_coin c)) (sym h.0)

shown-Simulates :
    {E A : Type 0} {m : Action CoinsCache E A} {n : Action Coins E A} (c : CoinsCache)
    → Simulates m n
    → shown (commit c (m (over (as_view c)))) ≡ commit_coins (get_coin c) (n (get_coin c))
shown-Simulates {m = m} {n = n} c h =
    shown-commit c (m (over (as_view c))) (n (get_coin (over (as_view c))))
      (h.ends (over (as_view c)))
    ∙ ap (λ s. commit_coins (get_coin c) (n s)) (get_coin-over c)

module _ (b : Backend) (block : Block) where
  -- `connect_block` returns, for every block, cache and network, what the same loops return on the set
  -- of coins that the cache shows; afterwards the cache shows the coins that they leave when they
  -- succeed, and the coins that it showed before when they refuse.
  pub connect_block-shown :
      (params : ChainParams) (coins : CoinsCache)
      → shown (connect_block b block coins params)
        ≡ commit_coins (get_coin coins) (connect_batch coins_store b block params (get_coin coins))
  unfolding connect_block
  connect_block-shown params coins = shown-Simulates coins (connect_batch-Simulates b block params)

  -- `disconnect_block` returns, for every block, undo record and cache, what the same loops return on
  -- the set of coins that the cache shows; afterwards the cache shows the coins that they leave when
  -- they succeed, and the coins that it showed before when they refuse.
  pub disconnect_block-shown :
      (undo : BlockUndo) (coins : CoinsCache)
      → shown (disconnect_block b block undo coins)
        ≡ commit_coins (get_coin coins) (disconnect_batch coins_store b block undo (get_coin coins))
  unfolding disconnect_block
  disconnect_block-shown undo coins =
      shown-Simulates coins (disconnect_batch-Simulates b block undo)

  -- The undo record has an entry for each transaction behind the first.
  describes :
      (txs : List Transaction) (n : ℕ)
      → n ≡ spending_count true txs
      → (length txs == 0) ≡ false
      → (length txs == 0 || not (n + 1 == length txs)) ≡ false
  describes [] n h k = k
  describes (tx ∷ txs) n h k = ground (arith, h)

  pub disconnect_batch-connect_batch :
      (params : ChainParams) (result : ConnectResult) (s t : Coins)
      → connect_batch coins_store b block params s ≡ ok (result, t)
      → disconnect_batch coins_store b block result.undo t ≡ ok (tt, s)
  unfolding disconnect_batch
  disconnect_batch-connect_batch params result s t h =
      let txs = block.transactions in
      let undos = result.undo.transactions in
      let q = connect_batch-eq_ok coins_store b block params result s t h in
      let back =
        disconnect_transactions-connect_transactions b block.header.height params true txs (pos 0)
          result.total_fees undos s t q.2 in
      let count =
        length-connect_transactions b block.header.height params true txs (pos 0) result.total_fees
          undos s t q.2 in
      rw (describes txs (length undos) count q.0) back

  pub committed :
      {E A : Type 0} (s : Coins) (q : Result E (A × Coins)) (c : CoinsCache) (a : A)
      (r : Result E A × CoinsCache)
      → r ≡ (ok a, c)
      → shown r ≡ commit_coins s q
      → q ≡ ok (a, get_coin c)
  committed s (err e) c a r h k = absurd (cc (h, k))
  committed s (ok (x, t)) c a r h k =
      let value : x ≡ a = cc (h, k) in
      let set : t ≡ get_coin c = cc (h, k) in ap₂ (λ y u. ok (y, u)) value set

  -- For every block, cache and network: when `connect_block` accepts the block, `disconnect_block` with
  -- the undo record that it returned succeeds on the cache it left, and the cache then shows exactly the
  -- coins that it showed before.
  pub disconnect_block-connect_block :
      (params : ChainParams) (coins after : CoinsCache) (result : ConnectResult)
      → connect_block b block coins params ≡ (ok result, after)
      → shown (disconnect_block b block result.undo after) ≡ (ok tt, get_coin coins)
  disconnect_block-connect_block params coins after result h =
      let run =
        committed (get_coin coins) (connect_batch coins_store b block params (get_coin coins)) after
          result (connect_block b block coins params) h (connect_block-shown params coins) in
      disconnect_block-shown result.undo after
      ∙ ap (commit_coins (get_coin after))
          (disconnect_batch-connect_batch params result (get_coin coins) (get_coin after) run)
