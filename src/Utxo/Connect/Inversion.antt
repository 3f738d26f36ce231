-- ===== src/Utxo/Connect/Inversion.antt =====
-- What a batch that connected has been through.
use amarian_amr.Base.{
  not, ◌≡◌, refl, sym, ◌∙◌, subst, Bool, true, false, List, length, ◌==◌, nat_eq,
}
use amarian_amr.Base.Int.{ℤ, pos}
use amarian_amr.Base.Result.{ok, reject_if, reject_if-eq_tt}
use amarian_amr.Crypto.{Backend}
use amarian_amr.Primitives.Block.{Block}
use amarian_amr.Consensus.Params.{ChainParams}
use amarian_amr.Consensus.Validation.{
  ValidationError, block_no_transactions, block_first_tx_not_coinbase,
}
use amarian_amr.Consensus.Validation.Blocks.{front_is_coinbase, check_coinbase_amount}
use amarian_amr.Utxo.Ledger.{Store, Action, lift, return, ◌>>=◌, >>=-eq_ok, lift-eq_ok}
use amarian_amr.Utxo.Undo.{TxUndo}
use amarian_amr.Utxo.Connect.{ConnectResult, connect_batch, finish_connect, connect_transactions}

module _ {S : Type 0} (st : Store S) (b : Backend) (block : Block) (params : ChainParams) where
  finish_connect-eq_ok :
      (r : List TxUndo × ℤ) (result : ConnectResult) (s t : S)
      → finish_connect st b block params r s ≡ ok (result, t)
      → (record { undo = record { transactions = r.0 }; total_fees = r.1 } ≡ result)
        × (s ≡ t)
        × (check_coinbase_amount block r.1 params ≡ ok tt)
  unfolding finish_connect
  finish_connect-eq_ok r result s t h =
      let u =
        >>=-eq_ok (lift (check_coinbase_amount block r.1 params))
          (λ _. return (record { undo = record { transactions = r.0 }; total_fees = r.1 })) s t
          result h in
      let v = lift-eq_ok (check_coinbase_amount block r.1 params) s u.1 u.0 u.2 in
      (cc (u.3), v.1 ∙ cc (u.3), v.0)

  pub connect_batch-eq_ok :
      (result : ConnectResult) (s t : S)
      → connect_batch st b block params s ≡ ok (result, t)
      → ((length block.transactions == 0) ≡ false)
        × (front_is_coinbase block.transactions ≡ true)
        × (connect_transactions st b true block.transactions block.header.height params (pos 0) s
            ≡ ok ((result.undo.transactions, result.total_fees), t))
        × (check_coinbase_amount block result.total_fees params ≡ ok tt)
  unfolding connect_batch
  connect_batch-eq_ok result s t h =
      let txs = block.transactions in
      let run = connect_transactions st b true txs block.header.height params (pos 0) in
      let finish : (List TxUndo × ℤ) → Action S ValidationError ConnectResult =
        λ r. finish_connect st b block params r in
      let p =
        >>=-eq_ok (lift (reject_if (length txs == 0) block_no_transactions))
          (λ _. lift (reject_if (not (front_is_coinbase txs)) block_first_tx_not_coinbase) >>= λ _.
            run >>= finish)
          s t result h in
      let q =
        >>=-eq_ok (lift (reject_if (not (front_is_coinbase txs)) block_first_tx_not_coinbase))
          (λ _. run >>= finish) p.1 t result p.3 in
      let r = >>=-eq_ok run finish q.1 t result q.3 in
      let u = finish_connect-eq_ok r.0 result r.1 t r.3 in
      let none_missing =
        lift-eq_ok (reject_if (length txs == 0) block_no_transactions) s p.1 tt p.2 in
      let front =
        lift-eq_ok (reject_if (not (front_is_coinbase txs)) block_first_tx_not_coinbase) p.1 q.1 tt
          q.2 in
      let coinbase =
        reject_if-eq_tt (not (front_is_coinbase txs)) block_first_tx_not_coinbase front.0 in
      (
        reject_if-eq_tt (length txs == 0) block_no_transactions none_missing.0,
        not-false (front_is_coinbase txs) coinbase,
        subst (λ (z : ConnectResult). run s ≡ ok ((z.undo.transactions, z.total_fees), t)) u.0
            (rw (none_missing.1 ∙ front.1, sym u.1) (r.2)),
        subst (λ (z : ConnectResult). check_coinbase_amount block z.total_fees params ≡ ok tt) u.0
            u.2,
      )
    where
      not-false : (t : Bool) → not t ≡ false → t ≡ true
      not-false true h = refl
      not-false false h = cc
