-- ===== src/Consensus/Validation/AcceptedBlock.antt =====
-- What `CheckBlock` has established when it accepts.
use amarian_amr.Base.{
  ◌≤◌, ◌<◌, ltb, not, ◌≡◌, ap, true, false, Option, some, none, List, [], ◌∷◌, All, inl, inr, arith,
  length, ◌==◌, nat_eq, list_eq, Eq, Bool-cases,
}
use amarian_amr.Base.Result.{ok, ◌>>◌, >>=-eq_ok, reject_if-eq_ok}
use amarian_amr.Crypto.{Backend}
use amarian_amr.Primitives.Transaction.{Transaction}
use amarian_amr.Primitives.Block
use amarian_amr.Primitives.Block.{Block}
use amarian_amr.Primitives.Digests.{block_merkle_root}
use amarian_amr.Consensus.Params.{ChainParams}
use amarian_amr.Consensus.Validation.{
  Verdict, block_no_transactions, block_too_many_transactions, block_first_tx_not_coinbase,
  block_multiple_coinbases, block_coinbase_wrong_height, block_weight_too_large,
  block_merkle_root_mismatch,
}
use amarian_amr.Consensus.Validation.Structure.{check_transaction}
use amarian_amr.Consensus.Validation.Header.{check_block_header}
use amarian_amr.Consensus.Validation.Blocks.{
  front_is_coinbase, any_coinbase, behind_front, coinbase_sequence, holds, check_transactions,
  check_no_duplicate_spend, spent_outpoints, check_block,
}
use amarian_amr.Consensus.Validation.Accepted.{Accepted, check_transaction-Accepted}
use amarian_amr.Consensus.Validation.Distinct.{Unrepeated, check_no_duplicate_spend_iff}

pub record AcceptedBlock (b : Backend) (block : Block) (params : ChainParams) : Type 0 where
  pub header : check_block_header b block.header params ≡ ok tt
  pub some_transactions : 0 < length block.transactions
  pub count_within : length block.transactions ≤ params.block_limits.max_transactions
  pub first_coinbase : front_is_coinbase block.transactions ≡ true
  pub no_other_coinbase : any_coinbase (behind_front block.transactions) ≡ false
  pub height_in_coinbase : coinbase_sequence block.transactions ≡ some block.header.height
  pub weight_within : Block.weight block ≤ params.max_block_weight
  pub root : block_merkle_root b block ≡ some block.header.merkle_root
  pub transactions : All (λ tx. Accepted tx params) block.transactions
  pub spends_once : Unrepeated (spent_outpoints block.transactions)

holds-eq_some :
    {A : Type 0} ⦃e : Eq A⦄ (o : Option A) (x : A) → not (holds o x) ≡ false → o ≡ some x
holds-eq_some none x h = cc
holds-eq_some ⦃e⦄ (some y) x h = ap some (
    (e.same_iff y x).0
      (elim (Bool-cases (e.same y x)) [ inl q ↦ q | inr q ↦ absurd (cc (rw q at h)) ]))

check_transactions-Accepted :
    (txs : List Transaction) (params : ChainParams)
    → check_transactions txs params ≡ ok tt
    → All (λ tx. Accepted tx params) txs
unfolding check_transactions
check_transactions-Accepted [] params h = tt
check_transactions-Accepted (tx ∷ txs) params h =
    let q = >>=-eq_ok (check_transaction tx params) (λ _. check_transactions txs params) h in
    (check_transaction-Accepted tx params q.1, check_transactions-Accepted txs params q.2)

-- When `check_block` accepts, its header passes the header check, its first transaction and no other is
-- a coinbase, which names the header's height, the count and the weight are within the limits, the
-- header commits to the Merkle root of the transactions, every transaction is an accepted one, and no
-- outpoint is spent twice in the block.
pub check_block-AcceptedBlock :
    (b : Backend) (block : Block) (params : ChainParams)
    → check_block b block params ≡ ok tt
    → AcceptedBlock b block params
unfolding check_block
check_block-AcceptedBlock b block params h =
    let txs = block.transactions in
    let height = coinbase_sequence txs in
    let root = block_merkle_root b block in
    let rest : Verdict = check_transactions txs params >> check_no_duplicate_spend txs in
    let a = >>=-eq_ok (check_block_header b block.header params) _ h in
    let c = reject_if-eq_ok (length txs == 0) block_no_transactions _ a.2 in
    let d =
      reject_if-eq_ok (ltb params.block_limits.max_transactions (length txs))
        block_too_many_transactions _ c.1 in
    let e = reject_if-eq_ok (not (front_is_coinbase txs)) block_first_tx_not_coinbase _ d.1 in
    let f = reject_if-eq_ok (any_coinbase (behind_front txs)) block_multiple_coinbases _ e.1 in
    let g =
      reject_if-eq_ok (not (holds height block.header.height)) block_coinbase_wrong_height _ f.1 in
    let w =
      reject_if-eq_ok (ltb params.max_block_weight (Block.weight block)) block_weight_too_large _
        g.1 in
    let m =
      reject_if-eq_ok (not (holds root block.header.merkle_root)) block_merkle_root_mismatch rest
        w.1 in
    let t = >>=-eq_ok (check_transactions txs params) (λ _. check_no_duplicate_spend txs) m.1 in
    record {
      header = a.1;
      some_transactions = ground (arith, c.0);
      count_within = ground (arith, d.0);
      first_coinbase = ground (arith, e.0);
      no_other_coinbase = f.0;
      height_in_coinbase = holds-eq_some height block.header.height g.0;
      weight_within = ground (arith, w.0);
      root = holds-eq_some root block.header.merkle_root m.0;
      transactions = check_transactions-Accepted txs params t.1;
      spends_once = (check_no_duplicate_spend_iff txs).0 t.2;
    }
