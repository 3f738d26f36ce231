-- ===== src/Utxo/Connect/Reversal/Outputs.antt =====
-- Removing the outputs of a transaction, first to last, takes back their creation, first to last.
use amarian_amr.Base.{
  ℕ, suc, ◌≡◌, refl, sym, ap, ◌∙◌, Bool, false, none, some, List, [], ◌∷◌, inl, inr, arith, ◌==◌,
  beq_refl, Bool-cases,
}
use amarian_amr.Base.Result.{ok}
use amarian_amr.Primitives.Hash.{Hash256}
use amarian_amr.Primitives.OutPoint.{OutPoint, outpoint_eq, outpoint_beq_iff}
use amarian_amr.Primitives.Transaction.{TxOutput}
use amarian_amr.Primitives.Coin.{Coin, coin_eq}
use amarian_amr.Consensus.Validation.{tx_creates_existing_outpoint}
use amarian_amr.Utxo.Coins.Laws.{Coins, update}
use amarian_amr.Utxo.Ledger.{coins_store, >>=-eq_ok, add_or}
use amarian_amr.Utxo.Connect.{
  outpoint_for, is_stored, created_coin, create_output, create_outputs, remove_stored,
  remove_output, remove_outputs, created_coin_missing,
}
use amarian_amr.Utxo.Connect.Reversal.{
  update-at, update-other, update-back, update_comm, add_or-eq_ok, add_or-none, spend_or-some,
}

distinct_outpoints :
    (o p : OutPoint) (coin : Coin) (s : Coins) → s o ≡ some coin → s p ≡ none → (o == p) ≡ false
distinct_outpoints o p coin s h k = elim (Bool-cases (o == p)) [
  | inl e ↦ absurd (cc (h, k, ap s ((outpoint_beq_iff o p).0 e)))
  | inr e ↦ e
]

module _ (id : Hash256) (height : ℕ) (is_first : Bool) where
  -- A coin that is there stays there, and its absence would change nothing else.
  create_output-keeps :
      (i : ℕ) (output : TxOutput) (o : OutPoint) (coin : Coin) (s t : Coins)
      → create_output coins_store id i height is_first output s ≡ ok (tt, t)
      → s o ≡ some coin
      → (t o ≡ some coin)
        × (create_output coins_store id i height is_first output (update o none s)
            ≡ ok (tt, update o none t))
  unfolding create_output
  create_output-keeps i output o coin s t h k = elim (Bool-cases (is_stored output)) [
    | inr e ↦
        let same : s ≡ t = cc (rw e at h) in
        rw e (ap (λ z. z o) (sym same) ∙ k, ap (λ z. ok (tt, update o none z)) same)
    | inl e ↦ rw e (added (rw e at h))
  ]
    where
      p : OutPoint
      p = outpoint_for id i

      made : Coin
      made = created_coin height is_first output

      added :
          add_or coins_store tx_creates_existing_outpoint p made s ≡ ok (tt, t)
          → (t o ≡ some coin)
            × (add_or coins_store tx_creates_existing_outpoint p made (update o none s)
                ≡ ok (tt, update o none t))
      added q =
          let r = add_or-eq_ok tx_creates_existing_outpoint p s t made q in
          let apart = distinct_outpoints o p coin s k r.0 in
          let there : t o ≡ some coin =
            ap (λ z. z o) (sym r.1)
            ∙ (update-other p o (some made) s
                  (ground (arith, apart, outpoint_beq_iff o p, outpoint_beq_iff p o))
                ∙ k) in
          let moved : update p (some made) (update o none s) ≡ update o none t =
            sym (update_comm o p none (some made) s apart) ∙ ap (update o none) r.1 in
          (
            there,
            add_or-none tx_creates_existing_outpoint p (update o none s) made
                  (update-other o p none s apart ∙ r.0)
                ∙ ap (λ z. ok (tt, z)) moved,
          )

  create_outputs-keeps :
      (i : ℕ) (outputs : List TxOutput) (o : OutPoint) (coin : Coin) (s t : Coins)
      → create_outputs coins_store id i height is_first outputs s ≡ ok (tt, t)
      → s o ≡ some coin
      → (t o ≡ some coin)
        × (create_outputs coins_store id i height is_first outputs (update o none s)
            ≡ ok (tt, update o none t))
  unfolding create_outputs
  create_outputs-keeps i [] o coin s t h k =
      let same : s ≡ t = cc (h) in
      (ap (λ z. z o) (sym same) ∙ k, ap (λ z. ok (tt, update o none z)) same)
  create_outputs-keeps i (output ∷ outputs) o coin s t h k =
      let q =
        >>=-eq_ok (create_output coins_store id i height is_first output)
          (λ _. create_outputs coins_store id (suc i) height is_first outputs) s t tt h in
      let r = create_output-keeps i output o coin s q.1 q.2 k in
      let rest = create_outputs-keeps (suc i) outputs o coin q.1 t q.3 r.0 in
      (rest.0, rw r.1 rest.1)

  remove_stored-there :
      (o : OutPoint) (coin : Coin) (t : Coins)
      → t o ≡ some coin
      → remove_stored coins_store o coin t ≡ ok (tt, update o none t)
  unfolding remove_stored
  remove_stored-there o coin t h =
      rw (spend_or-some created_coin_missing o t coin h) (rw (beq_refl coin) refl)

  -- Taking back the first output leaves what the others alone would have made.
  remove_output-first :
      (i : ℕ) (output : TxOutput) (outputs : List TxOutput) (s u t : Coins)
      → create_output coins_store id i height is_first output s ≡ ok (tt, u)
      → create_outputs coins_store id (suc i) height is_first outputs u ≡ ok (tt, t)
      → (w : Coins) × (remove_output coins_store id i height is_first output t ≡ ok (tt, w))
        × (create_outputs coins_store id (suc i) height is_first outputs s ≡ ok (tt, w))
  unfolding create_output remove_output
  remove_output-first i output outputs s u t h1 h2 = elim (Bool-cases (is_stored output)) [
    | inr e ↦ let same : u ≡ s = cc (rw e at h1) in (t, rw e refl, rw same at h2)
    | inl e ↦ rw e (stored (rw e at h1))
  ]
    where
      p : OutPoint
      p = outpoint_for id i

      made : Coin
      made = created_coin height is_first output

      stored :
          add_or coins_store tx_creates_existing_outpoint p made s ≡ ok (tt, u)
          → (w : Coins) × (remove_stored coins_store p made t ≡ ok (tt, w))
            × (create_outputs coins_store id (suc i) height is_first outputs s ≡ ok (tt, w))
      stored q =
          let r = add_or-eq_ok tx_creates_existing_outpoint p s u made q in
          let there : u p ≡ some made = ap (λ z. z p) (sym r.1) ∙ update-at p (some made) s in
          let back : update p none u ≡ s =
            ap (update p none) (sym r.1) ∙ update-back p none (some made) s r.0 in
          let k = create_outputs-keeps (suc i) outputs p made u t h2 there in
          (update p none t, remove_stored-there p made t k.0, rw back at k.1)

  pub remove_outputs-create_outputs :
      (i : ℕ) (outputs : List TxOutput) (s t : Coins)
      → create_outputs coins_store id i height is_first outputs s ≡ ok (tt, t)
      → remove_outputs coins_store id i height is_first outputs t ≡ ok (tt, s)
  unfolding create_outputs remove_outputs
  remove_outputs-create_outputs i [] s t h =
      let same : s ≡ t = cc (h) in ap (λ z. ok (tt, z)) (sym same)
  remove_outputs-create_outputs i (output ∷ outputs) s t h =
      let q =
        >>=-eq_ok (create_output coins_store id i height is_first output)
          (λ _. create_outputs coins_store id (suc i) height is_first outputs) s t tt h in
      let r = remove_output-first i output outputs s q.1 t q.2 q.3 in
      rw r.1 (remove_outputs-create_outputs (suc i) outputs s r.0 r.2)
