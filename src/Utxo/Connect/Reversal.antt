-- ===== src/Utxo/Connect/Reversal.antt =====
-- The loops of `DisconnectBlock` undo the loops of `ConnectBlock`, on the set of coins.
mod Outputs
pub mod Loops
use amarian_amr.Base.{
  ◌≡◌, refl, sym, ap, fun_ext, ◌∙◌, Bool, true, false, Option, none, some, inl, inr, arith,
  if◌then◌else◌, ◌==◌, is_some, Bool-cases, Option-cases,
}
use amarian_amr.Base.Result.{Result, ok, err}
use amarian_amr.Primitives.OutPoint.{OutPoint, outpoint_eq, outpoint_beq_iff}
use amarian_amr.Primitives.Coin.{Coin}
use amarian_amr.Utxo.Coins.Laws.{Coins, update, spend, add, taken}
use amarian_amr.Utxo.Ledger.{coins_store, spend_or, add_or, spent_or, added_or}

-- Updates of the set of coins.
pub update-at : (o : OutPoint) (x : Option Coin) (s : Coins) → update o x s o ≡ x
unfolding update
update-at o x s = ground (arith, outpoint_beq_iff o o)

pub update-other :
    (o p : OutPoint) (x : Option Coin) (s : Coins) → (o == p) ≡ false → update o x s p ≡ s p
unfolding update
update-other o p x s h = ground arith

pub update-back :
    (o : OutPoint) (x y : Option Coin) (s : Coins) → s o ≡ x → update o x (update o y s) ≡ s
unfolding update
update-back o x y s h = fun_ext λ j. elim (Bool-cases (o == j)) [
  | inl e ↦ rw e (sym h ∙ ap s ((outpoint_beq_iff o j).0 e))
  | inr e ↦ rw e refl
]

pub update_comm :
    (o p : OutPoint) (x y : Option Coin) (s : Coins)
    → (o == p) ≡ false
    → update o x (update p y s) ≡ update p y (update o x s)
unfolding update
update_comm o p x y s h =
    fun_ext λ j. ground (arith, outpoint_beq_iff o j, outpoint_beq_iff p j, outpoint_beq_iff o p)

-- A spend and an addition that succeeded, and when they do.
module _ {E : Type 0} (e : E) where
  pub spend_or-eq_ok :
      (o : OutPoint) (s t : Coins) (coin : Coin)
      → spend_or coins_store e o s ≡ ok (coin, t)
      → (s o ≡ some coin) × (update o none s ≡ t)
  unfolding spend_or spend
  spend_or-eq_ok o s t coin h = elim (Option-cases (s o)) [
    | inl q ↦ cc (rw q at h)
    | inr (a, q) ↦
        let same : a ≡ coin = cc (rw q at h) in
        let left : update o none s ≡ t = cc (rw q at h) in (q ∙ ap some same, left)
  ]

  pub add_or-eq_ok :
      (o : OutPoint) (s t : Coins) (coin : Coin)
      → add_or coins_store e o coin s ≡ ok (tt, t)
      → (s o ≡ none) × (update o (some coin) s ≡ t)
  unfolding add_or add
  add_or-eq_ok o s t coin h = elim (Option-cases (s o)) [
    | inl q ↦ (q, cc (rw q at h))
    | inr (a, q) ↦ absurd (cc (rw q at h))
  ]

  pub spend_or-some :
      (o : OutPoint) (s : Coins) (coin : Coin)
      → s o ≡ some coin
      → spend_or coins_store e o s ≡ ok (coin, update o none s)
  unfolding spend_or spend
  spend_or-some o s coin h = rw h refl

  pub add_or-none :
      (o : OutPoint) (s : Coins) (coin : Coin)
      → s o ≡ none
      → add_or coins_store e o coin s ≡ ok (tt, update o (some coin) s)
  unfolding add_or add
  add_or-none o s coin h = rw h refl
