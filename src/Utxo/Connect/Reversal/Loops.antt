-- ===== src/Utxo/Connect/Reversal/Loops.antt =====
-- Restoring the inputs, and the loop over the transactions.
use amarian_amr.Base.{
  ℕ, suc, ◌+◌, not, ◌≡◌, refl, sym, ap, ◌∙◌, subst, Bool, true, false, none, some, List, [], ◌∷◌,
  ◌++◌, arith, if◌then◌else◌, ◌==◌, nat_eq, bool_eq, beq_refl, length, length-append,
}
use amarian_amr.Base.Int.{ℤ}
use amarian_amr.Base.Result.{ok, reject_if}
use amarian_amr.Crypto.{Backend}
use amarian_amr.Primitives.OutPoint.{OutPoint}
use amarian_amr.Primitives.Transaction.{Transaction, is_coinbase}
use amarian_amr.Primitives.Coin.{Coin}
use amarian_amr.Primitives.Digests.{txid}
use amarian_amr.Consensus.Params.{ChainParams}
use amarian_amr.Consensus.Validation.{tx_input_missing_or_spent, block_multiple_coinbases}
use amarian_amr.Consensus.Validation.Structure.{outpoints_of}
use amarian_amr.Consensus.Validation.Spend.{check_transaction_inputs}
use amarian_amr.Utxo.Coins.Laws.{Coins, update}
use amarian_amr.Utxo.Ledger.{
  coins_store, continue, return, ◌>>=◌, >>=-eq_ok, lift-eq_ok, lift, spend_or, add_or,
}
use amarian_amr.Utxo.Undo.{TxUndo}
use amarian_amr.Utxo.Connect.{
  add_fee, spend_inputs, restore_inputs, restore_transaction, create_outputs, connect_inputs,
  connect_transaction, connect_transactions, disconnect_transaction, disconnect_transactions,
  later_undos, spent_outpoint_occupied,
}
use amarian_amr.Utxo.Connect.Reversal.{update-at, update-back, spend_or-eq_ok, add_or-none}
use amarian_amr.Utxo.Connect.Reversal.Outputs.{remove_outputs-create_outputs}

-- Spending first to last and restoring last to first.
restore_inputs-spend_inputs :
    (os : List OutPoint) (coins : List Coin) (s t : Coins)
    → spend_inputs coins_store os s ≡ ok (coins, t)
    → (restore_inputs coins_store os coins t ≡ ok (tt, s)) × (length coins ≡ length os)
unfolding spend_inputs restore_inputs
restore_inputs-spend_inputs [] coins s t h =
    let same : s ≡ t = cc (h) in
    let empty : [] ≡ coins = cc (h) in (ap (λ z. ok (tt, z)) (sym same), ap length (sym empty))
restore_inputs-spend_inputs (o ∷ os) coins s t h =
    let q =
      >>=-eq_ok (spend_or coins_store tx_input_missing_or_spent o)
        (λ coin. spend_inputs coins_store os >>= λ rest. return (coin ∷ rest)) s t coins h in
    let r = >>=-eq_ok (spend_inputs coins_store os) (λ rest. return (q.0 ∷ rest)) q.1 t coins q.3 in
    let whole : q.0 ∷ r.0 ≡ coins = cc (r.3) in
    let last : r.1 ≡ t = cc (r.3) in
    let k = spend_or-eq_ok tx_input_missing_or_spent o s q.1 q.0 q.2 in
    let rest = restore_inputs-spend_inputs os r.0 q.1 r.1 r.2 in
    let gone : q.1 o ≡ none = ap (λ z. z o) (sym k.1) ∙ update-at o none s in
    let back : update o (some q.0) q.1 ≡ s =
      ap (update o (some q.0)) (sym k.1) ∙ update-back o (some q.0) none s k.0 in
    subst
      (λ z. (restore_inputs coins_store (o ∷ os) z t ≡ ok (tt, s)) × (length z ≡ suc (length os)))
      whole
      (
        subst
            (λ z.
              continue (restore_inputs coins_store os r.0 z)
                (λ _. add_or coins_store spent_outpoint_occupied o q.0)
              ≡ ok (tt, s))
            last
            (rw rest.0
              (add_or-none spent_outpoint_occupied o q.1 q.0 gone ∙ ap (λ z. ok (tt, z)) back)),
        ap suc rest.1,
      )

-- One undo entry for each transaction but the first.
abbrev pub spending_count : Bool → List Transaction → ℕ
spending_count is_first [] = 0
spending_count true (tx ∷ txs) = length txs
spending_count false (tx ∷ txs) = suc (length txs)

module _ (b : Backend) (height : ℕ) (params : ChainParams) where
  -- What the inputs of a transaction left in the undo record restores them.
  connect_inputs-restores :
      (tx : Transaction) (fees total : ℤ) (undos : List TxUndo) (s t : Coins)
      → connect_inputs coins_store b tx height params fees s ≡ ok ((undos, total), t)
      → (undo : TxUndo) × (undo ∷ [] ≡ undos)
        × ((rest : List TxUndo)
            → restore_transaction coins_store (outpoints_of tx.inputs) (undo ∷ rest) t ≡ ok (tt, s))
  unfolding connect_inputs restore_transaction
  connect_inputs-restores tx fees total undos s t h =
      let os = outpoints_of tx.inputs in
      let q =
        >>=-eq_ok (spend_inputs coins_store os)
          (λ spent. lift (check_transaction_inputs b tx spent height params) >>= λ fee.
            lift (add_fee fees fee) >>= λ sum. return (record { spent = spent } ∷ [], sum))
          s t (undos, total) h in
      let r =
        >>=-eq_ok (lift (check_transaction_inputs b tx q.0 height params))
          (λ fee. lift (add_fee fees fee) >>= λ sum. return (record { spent = q.0 } ∷ [], sum)) q.1
          t (undos, total) q.3 in
      let u =
        >>=-eq_ok (lift (add_fee fees r.0)) (λ sum. return (record { spent = q.0 } ∷ [], sum)) r.1 t
          (undos, total) r.3 in
      let first = lift-eq_ok (check_transaction_inputs b tx q.0 height params) q.1 r.1 r.0 r.2 in
      let second = lift-eq_ok (add_fee fees r.0) r.1 u.1 u.0 u.2 in
      let last : u.1 ≡ t = cc (u.3) in
      let entry : record { spent = q.0 } ∷ [] ≡ undos = cc (u.3) in
      let reached : q.1 ≡ t = first.1 ∙ (second.1 ∙ last) in
      let back = restore_inputs-spend_inputs os q.0 s q.1 q.2 in
      (
        record { spent = q.0 },
        entry,
        λ rest.
            subst
              (λ z.
                restore_transaction coins_store os (record { spent = q.0 } ∷ rest) z ≡ ok (tt, s))
              reached (rw back.1 (rw (beq_refl (length os)) back.0)),
      )

  -- One transaction, when more undo entries follow its own.
  Undone : Bool → Transaction → List TxUndo → Coins → Coins → Type 0
  Undone is_first tx undos s t =
      (rest : List TxUndo)
      → (disconnect_transaction coins_store b is_first tx height (undos ++ rest) t ≡ ok (tt, s))
        × (later_undos is_first (undos ++ rest) ≡ rest)
        × (length undos ≡ (if is_first then 0 else 1))

  connect_transaction-Undone :
      (is_first : Bool) (tx : Transaction) (fees total : ℤ) (undos : List TxUndo) (s t : Coins)
      → connect_transaction coins_store b is_first tx height params fees s ≡ ok ((undos, total), t)
      → Undone is_first tx undos s t
  unfolding connect_transaction disconnect_transaction Undone
  connect_transaction-Undone true tx fees total undos s t h rest =
      let made = create_outputs coins_store (txid b tx) 0 height true tx.outputs in
      let q =
        >>=-eq_ok (lift (reject_if (not (is_coinbase tx == true)) block_multiple_coinbases))
          (λ _. made >>= λ _. return ([], fees)) s t (undos, total) h in
      let start =
        lift-eq_ok (reject_if (not (is_coinbase tx == true)) block_multiple_coinbases) s q.1 tt
          q.2 in
      let r = >>=-eq_ok made (λ _. return ([], fees)) q.1 t (undos, total) q.3 in
      let last : r.1 ≡ t = cc (r.3) in
      let none_left : [] ≡ undos = cc (r.3) in
      let back =
        remove_outputs-create_outputs (txid b tx) height true 0 tx.outputs s t
          (rw (start.1, sym last) (r.2)) in
      (rw back refl, ap (λ z. z ++ rest) (sym none_left), ap length (sym none_left))
  connect_transaction-Undone false tx fees total undos s t h rest =
      let made = create_outputs coins_store (txid b tx) 0 height false tx.outputs in
      let q =
        >>=-eq_ok (lift (reject_if (not (is_coinbase tx == false)) block_multiple_coinbases))
          (λ _. connect_inputs coins_store b tx height params fees >>= λ r. made >>= λ _. return r)
          s t (undos, total) h in
      let start =
        lift-eq_ok (reject_if (not (is_coinbase tx == false)) block_multiple_coinbases) s q.1 tt
          q.2 in
      let p =
        >>=-eq_ok (connect_inputs coins_store b tx height params fees) (λ r. made >>= λ _. return r)
          q.1 t (undos, total) q.3 in
      let r = >>=-eq_ok made (λ _. return p.0) p.1 t (undos, total) p.3 in
      let last : r.1 ≡ t = cc (r.3) in
      let same : p.0 ≡ (undos, total) = cc (r.3) in
      let back =
        remove_outputs-create_outputs (txid b tx) height false 0 tx.outputs p.1 t
          (rw (sym last) (r.2)) in
      let k = connect_inputs-restores tx fees total undos q.1 p.1 (rw (sym same) (p.2)) in
      (
        rw (back, start.1, sym k.1) (k.2 rest),
        ap (λ z. later_undos false (z ++ rest)) (sym k.1),
        ap length (sym k.1),
      )

  -- `DisconnectBlock` takes back what `ConnectBlock` did, with the undo record it returned.
  pub disconnect_transactions-connect_transactions :
      (is_first : Bool) (txs : List Transaction) (fees total : ℤ) (undos : List TxUndo)
      (s t : Coins)
      → connect_transactions coins_store b is_first txs height params fees s
        ≡ ok ((undos, total), t)
      → disconnect_transactions coins_store b is_first txs height undos t ≡ ok (tt, s)
  unfolding connect_transactions disconnect_transactions Undone
  disconnect_transactions-connect_transactions is_first [] fees total undos s t h =
      let same : s ≡ t = cc (h) in ap (λ z. ok (tt, z)) (sym same)
  disconnect_transactions-connect_transactions is_first (tx ∷ txs) fees total undos s t h =
      let q =
        >>=-eq_ok (connect_transaction coins_store b is_first tx height params fees)
          (λ r. connect_transactions coins_store b false txs height params r.1 >>= λ rest.
            return (r.0 ++ rest.0, rest.1))
          s t (undos, total) h in
      let r =
        >>=-eq_ok (connect_transactions coins_store b false txs height params q.0.1)
          (λ rest. return (q.0.0 ++ rest.0, rest.1)) q.1 t (undos, total) q.3 in
      let last : r.1 ≡ t = cc (r.3) in
      let whole : q.0.0 ++ r.0.0 ≡ undos = cc (r.3) in
      let one = connect_transaction-Undone is_first tx fees q.0.1 q.0.0 s q.1 q.2 r.0.0 in
      let later =
        disconnect_transactions-connect_transactions false txs q.0.1 r.0.1 r.0.0 q.1 r.1 r.2 in
      subst (λ z. disconnect_transactions coins_store b is_first (tx ∷ txs) height z t ≡ ok (tt, s))
        whole (rw (one.1, sym last, later) one.0)

  pub length-connect_transactions :
      (is_first : Bool) (txs : List Transaction) (fees total : ℤ) (undos : List TxUndo)
      (s t : Coins)
      → connect_transactions coins_store b is_first txs height params fees s
        ≡ ok ((undos, total), t)
      → length undos ≡ spending_count is_first txs
  unfolding connect_transactions Undone
  length-connect_transactions is_first [] fees total undos s t h =
      let none_left : [] ≡ undos = cc (h) in ap length (sym none_left)
  length-connect_transactions is_first (tx ∷ txs) fees total undos s t h =
      let q =
        >>=-eq_ok (connect_transaction coins_store b is_first tx height params fees)
          (λ r. connect_transactions coins_store b false txs height params r.1 >>= λ rest.
            return (r.0 ++ rest.0, rest.1))
          s t (undos, total) h in
      let r =
        >>=-eq_ok (connect_transactions coins_store b false txs height params q.0.1)
          (λ rest. return (q.0.0 ++ rest.0, rest.1)) q.1 t (undos, total) q.3 in
      let whole : q.0.0 ++ r.0.0 ≡ undos = cc (r.3) in
      let one = (connect_transaction-Undone is_first tx fees q.0.1 q.0.0 s q.1 q.2 []).2 in
      let later = length-connect_transactions false txs q.0.1 r.0.1 r.0.0 q.1 r.1 r.2 in
      let sum = length-append q.0.0 r.0.0 in
      counted is_first txs (length q.0.0) (length r.0.0) (length undos) one later
        (sym sum ∙ ap length whole)
    where
      counted :
          (is_first : Bool) (txs : List Transaction) (m n k : ℕ)
          → m ≡ (if is_first then 0 else 1)
          → n ≡ spending_count false txs
          → m + n ≡ k
          → k ≡ spending_count is_first (tx ∷ txs)
      counted true [] m n k p q r = omega arith
      counted true (x ∷ xs) m n k p q r = omega arith
      counted false [] m n k p q r = omega arith
      counted false (x ∷ xs) m n k p q r = omega arith
