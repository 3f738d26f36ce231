-- ===== src/Utxo/Connect/Supply.antt =====
-- No block creates more than its reward: the sums that `ConnectBlock` keeps, over any store.
use amarian_amr.Base.{
  ℕ, ◌+◌, ◌≤◌, not, ◌≡◌, refl, sym, ap, ◌∙◌, subst, true, false, List, [], ◌∷◌, ◌++◌, inl, inr,
  arith, ◌==◌, nat_eq, bool_eq, Bool-cases,
}
use amarian_amr.Base.Int.{ℤ, pos, pos_part}
use amarian_amr.Base.Result.{Result, ok, err, reject_if}
use amarian_amr.Crypto.{Backend}
use amarian_amr.Primitives.Amount.{
  max_money, is_valid_amount, try_accumulate, checked_add-valid, valid_pos-le,
}
use amarian_amr.Primitives.Transaction.{Transaction, is_coinbase}
use amarian_amr.Primitives.Block.{Block}
use amarian_amr.Primitives.Digests.{txid}
use amarian_amr.Consensus.Params.{ChainParams}
use amarian_amr.Consensus.Issuance.{block_reward}
use amarian_amr.Consensus.Validation.{block_multiple_coinbases}
use amarian_amr.Consensus.Validation.Structure.{amounts_of, outpoints_of}
use amarian_amr.Consensus.Validation.Spend.{coin_amounts, check_transaction_inputs}
use amarian_amr.Consensus.Validation.Fee.{
  total, check_transaction_inputs-fee, check_coinbase_amount-eq_ok,
}
use amarian_amr.Consensus.Validation.Blocks.{coinbase_outputs}
use amarian_amr.Utxo.Coins.{CoinsCache, over, as_view}
use amarian_amr.Utxo.Ledger.{Store, cache_store, lift, return, ◌>>=◌, >>=-eq_ok, lift-eq_ok}
use amarian_amr.Utxo.Undo.{TxUndo}
use amarian_amr.Utxo.Connect.Inversion.{connect_batch-eq_ok}
use amarian_amr.Utxo.Connect.{
  ConnectResult, add_fee, spend_inputs, create_outputs, connect_inputs, connect_transaction,
  connect_transactions, connect_batch, connect_block, commit,
}

-- The value that the transactions pay out, and the value of the coins in the undo entries.
unfoldable pub value_paid : List Transaction → ℕ
value_paid [] = 0
value_paid (tx ∷ txs) = total (amounts_of tx.outputs) + value_paid txs

unfoldable pub value_spent : List TxUndo → ℕ
value_spent [] = 0
value_spent (undo ∷ undos) = total (coin_amounts undo.spent) + value_spent undos

add_fee-eq_ok :
    (f n : ℕ) (r : ℤ)
    → f ≤ max_money
    → n ≤ max_money
    → add_fee (pos f) (pos n) ≡ ok r
    → (r ≡ pos (f + n)) × (f + n ≤ max_money)
unfolding add_fee try_accumulate
add_fee-eq_ok f n r h l k = elim (Bool-cases (is_valid_amount (pos (f + n)))) [
  | inl q ↦ (cc (rw (checked_add-valid f n h l, q) at k), valid_pos-le (f + n) q)
  | inr q ↦ absurd (cc (rw (checked_add-valid f n h l, q) at k))
]

-- What a stretch of transactions leaves: the fees in balance with the coins spent and the values paid.
abbrev Balanced : ℕ → ℤ → ℕ → ℕ → Type 0
Balanced fees sum spent paid = (g : ℕ) × (sum ≡ pos g) × (g ≤ max_money) × (spent + fees ≡ paid + g)

module _ {S : Type 0} (st : Store S) (b : Backend) (height : ℕ) (params : ChainParams) where
  connect_inputs-balance :
      (tx : Transaction) (fees : ℕ) (sum : ℤ) (undos : List TxUndo) (s t : S)
      → fees ≤ max_money
      → connect_inputs st b tx height params (pos fees) s ≡ ok ((undos, sum), t)
      → Balanced fees sum (value_spent undos) (total (amounts_of tx.outputs))
  unfolding connect_inputs value_spent
  connect_inputs-balance tx fees sum undos s t low h =
      let q =
        >>=-eq_ok (spend_inputs st (outpoints_of tx.inputs))
          (λ spent. lift (check_transaction_inputs b tx spent height params) >>= λ fee.
            lift (add_fee (pos fees) fee) >>= λ sum'. return (record { spent = spent } ∷ [], sum'))
          s t (undos, sum) h in
      let r =
        >>=-eq_ok (lift (check_transaction_inputs b tx q.0 height params))
          (λ fee.
            lift (add_fee (pos fees) fee) >>= λ sum'. return (record { spent = q.0 } ∷ [], sum'))
          q.1 t (undos, sum) q.3 in
      let u =
        >>=-eq_ok (lift (add_fee (pos fees) r.0))
          (λ sum'. return (record { spent = q.0 } ∷ [], sum')) r.1 t (undos, sum) r.3 in
      let fee =
        check_transaction_inputs-fee b tx q.0 height params r.0
          (lift-eq_ok (check_transaction_inputs b tx q.0 height params) q.1 r.1 r.0 r.2).0 in
      let added = (lift-eq_ok (add_fee (pos fees) r.0) r.1 u.1 u.0 u.2).0 in
      let f =
        add_fee-eq_ok fees fee.0 u.0 low (omega (arith, fee.2, fee.3)) (rw (sym fee.1) added) in
      let entry : record { spent = q.0 } ∷ [] ≡ undos = cc (u.3) in
      let value : u.0 ≡ sum = cc (u.3) in
      (
        fees + fee.0,
        sym value ∙ f.0,
        f.1,
        subst (λ z. value_spent z + fees ≡ total (amounts_of tx.outputs) + (fees + fee.0)) entry
            (omega (arith, fee.2)),
      )

  -- A transaction behind the first is in balance.
  connect_spend-balance :
      (tx : Transaction) (fees : ℕ) (sum : ℤ) (undos : List TxUndo) (s t : S)
      → fees ≤ max_money
      → connect_transaction st b false tx height params (pos fees) s ≡ ok ((undos, sum), t)
      → Balanced fees sum (value_spent undos) (total (amounts_of tx.outputs))
  unfolding connect_transaction
  connect_spend-balance tx fees sum undos s t low h =
      let made = create_outputs st (txid b tx) 0 height false tx.outputs in
      let inputs = connect_inputs st b tx height params (pos fees) in
      let q =
        >>=-eq_ok (lift (reject_if (not (is_coinbase tx == false)) block_multiple_coinbases))
          (λ _. inputs >>= λ r. made >>= λ _. return r) s t (undos, sum) h in
      let p = >>=-eq_ok inputs (λ r. made >>= λ _. return r) q.1 t (undos, sum) q.3 in
      let r = >>=-eq_ok made (λ _. return p.0) p.1 t (undos, sum) p.3 in
      let same : p.0 ≡ (undos, sum) = cc (r.3) in
      connect_inputs-balance tx fees sum undos q.1 p.1 low (rw (sym same) (p.2))

  value_spent-append : (u v : List TxUndo) → value_spent (u ++ v) ≡ value_spent u + value_spent v
  unfolding value_spent
  value_spent-append [] v = omega arith
  value_spent-append (x ∷ u) v = omega (arith, value_spent-append u v)

  connect_spends-balance :
      (txs : List Transaction) (fees : ℕ) (sum : ℤ) (undos : List TxUndo) (s t : S)
      → fees ≤ max_money
      → connect_transactions st b false txs height params (pos fees) s ≡ ok ((undos, sum), t)
      → Balanced fees sum (value_spent undos) (value_paid txs)
  unfolding connect_transactions value_paid
  connect_spends-balance [] fees sum undos s t low h =
      let value : pos fees ≡ sum = cc (h) in
      let none_spent : [] ≡ undos = cc (h) in
      (
        fees,
        sym value,
        low,
        ap (λ z. value_spent z + fees) (sym none_spent) ∙ unfold value_spent in refl,
      )
  connect_spends-balance (tx ∷ txs) fees sum undos s t low h =
      let q =
        >>=-eq_ok (connect_transaction st b false tx height params (pos fees))
          (λ r. connect_transactions st b false txs height params r.1 >>= λ rest.
            return (r.0 ++ rest.0, rest.1))
          s t (undos, sum) h in
      let r =
        >>=-eq_ok (connect_transactions st b false txs height params q.0.1)
          (λ rest. return (q.0.0 ++ rest.0, rest.1)) q.1 t (undos, sum) q.3 in
      let one = connect_spend-balance tx fees q.0.1 q.0.0 s q.1 low q.2 in
      let rest =
        connect_spends-balance txs one.0 r.0.1 r.0.0 q.1 r.1 one.2 (rw (sym one.1) (r.2)) in
      let whole : q.0.0 ++ r.0.0 ≡ undos = cc (r.3) in
      let value : r.0.1 ≡ sum = cc (r.3) in
      (
        rest.0,
        sym value ∙ rest.1,
        rest.2,
        ap (λ z. value_spent z + fees) (sym whole)
            ∙ omega (arith, value_spent-append q.0.0 r.0.0, one.3, rest.3),
      )

  -- The first transaction adds no fee and no undo entry.
  connect_first-neutral :
      (tx : Transaction) (sum : ℤ) (undos : List TxUndo) (s t : S)
      → connect_transaction st b true tx height params (pos 0) s ≡ ok ((undos, sum), t)
      → (sum ≡ pos 0) × (undos ≡ [])
  unfolding connect_transaction
  connect_first-neutral tx sum undos s t h =
      let made = create_outputs st (txid b tx) 0 height true tx.outputs in
      let q =
        >>=-eq_ok (lift (reject_if (not (is_coinbase tx == true)) block_multiple_coinbases))
          (λ _. made >>= λ _. return ([], pos 0)) s t (undos, sum) h in
      let r = >>=-eq_ok made (λ _. return ([], pos 0)) q.1 t (undos, sum) q.3 in
      (cc (r.3), cc (r.3))

  -- All the transactions of a block: what they pay is what they spend, less the fees, and the coinbase.
  connect_transactions-balance :
      (txs : List Transaction) (sum : ℤ) (undos : List TxUndo) (s t : S)
      → connect_transactions st b true txs height params (pos 0) s ≡ ok ((undos, sum), t)
      → (g : ℕ) × (sum ≡ pos g)
        × (value_spent undos + total (amounts_of (coinbase_outputs txs)) ≡ value_paid txs + g)
  unfolding connect_transactions value_paid
  connect_transactions-balance [] sum undos s t h =
      let value : pos 0 ≡ sum = cc (h) in
      let none_spent : [] ≡ undos = cc (h) in
      (
        0,
        sym value,
        ap (λ z. value_spent z + total []) (sym none_spent) ∙ unfold value_spent total in refl,
      )
  connect_transactions-balance (tx ∷ txs) sum undos s t h =
      let q =
        >>=-eq_ok (connect_transaction st b true tx height params (pos 0))
          (λ r. connect_transactions st b false txs height params r.1 >>= λ rest.
            return (r.0 ++ rest.0, rest.1))
          s t (undos, sum) h in
      let r =
        >>=-eq_ok (connect_transactions st b false txs height params q.0.1)
          (λ rest. return (q.0.0 ++ rest.0, rest.1)) q.1 t (undos, sum) q.3 in
      let one = connect_first-neutral tx q.0.1 q.0.0 s q.1 q.2 in
      let rest =
        connect_spends-balance txs 0 r.0.1 r.0.0 q.1 r.1 (omega arith) (rw (sym one.0) (r.2)) in
      let whole : r.0.0 ≡ undos = cc (r.3, one.1, ap (λ z. z ++ r.0.0) one.1) in
      let value : r.0.1 ≡ sum = cc (r.3) in
      (
        rest.0,
        sym value ∙ rest.1,
        ap (λ z. value_spent z + total (amounts_of tx.outputs)) (sym whole) ∙ omega (arith, rest.3),
      )

module _ (b : Backend) (block : Block) (params : ChainParams) where
  connect_batch-balance :
      (result : ConnectResult) (s t : CoinsCache)
      → connect_batch cache_store b block params s ≡ ok (result, t)
      → value_paid block.transactions
        ≤ value_spent result.undo.transactions
          + pos_part (block_reward block.header.height params.issuance)
  connect_batch-balance result s t h =
      let q = connect_batch-eq_ok cache_store b block params result s t h in
      let r =
        connect_transactions-balance cache_store b block.header.height params block.transactions
          result.total_fees result.undo.transactions s t q.2 in
      let c = check_coinbase_amount-eq_ok block r.0 params (rw (sym r.1) (q.3)) in
      omega (arith, r.2, c)

  committed_batch :
      {E A : Type 0} (coins : CoinsCache) (q : Result E (A × CoinsCache)) (a : A)
      (after : CoinsCache)
      → commit coins q ≡ (ok a, after)
      → (t : CoinsCache) × (q ≡ ok (a, t))
  committed_batch coins (err e) a after h = absurd (cc (h))
  committed_batch coins (ok (x, t)) a after h =
      let same : x ≡ a = cc (h) in (t, ap (λ y. ok (y, t)) same)

  -- When `connect_block` accepts a block, all that the outputs of its transactions hold is at most all
  -- that the coins in the returned undo record held and the positive part of the reward scheduled for
  -- the block's height.
  pub connect_block-no_inflation :
      (coins after : CoinsCache) (result : ConnectResult)
      → connect_block b block coins params ≡ (ok result, after)
      → value_paid block.transactions
        ≤ value_spent result.undo.transactions
          + pos_part (block_reward block.header.height params.issuance)
  unfolding connect_block
  connect_block-no_inflation coins after result h =
      let start = over (as_view coins) in
      let q =
        committed_batch coins (connect_batch cache_store b block params start) result after h in
      connect_batch-balance result start q.0 q.1
