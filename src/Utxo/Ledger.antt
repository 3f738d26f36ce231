-- ===== src/Utxo/Ledger.antt =====
-- What src/utxo/connect.cpp does to a set of coins: it spends and it adds. `Store` is that interface, so
-- that one text of the code runs on a `CoinsCache` and on the set of coins that the cache shows.
pub mod Simulation
use amarian_amr.Base.{◌≡◌, refl, Bool, true, false, Option, none, some}
use amarian_amr.Base.Result.{Result, ok, err}
use amarian_amr.Primitives.OutPoint.{OutPoint}
use amarian_amr.Primitives.Coin.{Coin}
use amarian_amr.Utxo.Coins.{CoinsCache, spend_coin, add_coin}
use amarian_amr.Utxo.Coins.Laws.{Coins, spend, add}

pub record Store (S : Type 0) : Type 0 where
  pub spend_in : OutPoint → S → Option (Coin × S)
  pub add_in : OutPoint → Coin → S → Option S

abbrev pub cache_store : Store CoinsCache
cache_store = record { spend_in = spend_coin; add_in = add_coin }

abbrev pub coins_store : Store Coins
coins_store = record { spend_in = spend; add_in = add }

-- A computation on a set of coins that may refuse with an error.
abbrev pub Action : Type 0 → Type 0 → Type 0 → Type 0
Action S E A = S → Result E (A × S)

module _ {S E : Type 0} where
  abbrev pub continue : {A B : Type 0} → Result E (A × S) → (A → Action S E B) → Result E (B × S)
  continue (err e) f = err e
  continue (ok (a, s)) f = f a s

  infixl 5 ◌>>=◌ ◌>>◌
  abbrev pub ◌>>=◌ : {A B : Type 0} → Action S E A → (A → Action S E B) → Action S E B
  (m >>= f) s = continue (m s) f

  abbrev pub ◌>>◌ : {B : Type 0} → Action S E (Unit {0}) → Action S E B → Action S E B
  m >> k = m >>= λ _. k

  abbrev pub return : {A : Type 0} → A → Action S E A
  return a s = ok (a, s)

  -- A check that does not touch the set.
  abbrev pub lift : {A : Type 0} → Result E A → Action S E A
  lift (err e) s = err e
  lift (ok a) s = ok (a, s)

  abbrev pub spent_or : E → Option (Coin × S) → Result E (Coin × S)
  spent_or e none = err e
  spent_or e (some r) = ok r

  abbrev pub added_or : E → Option S → Result E (Unit {0} × S)
  added_or e none = err e
  added_or e (some s) = ok (tt, s)

  unfoldable pub spend_or : Store S → E → OutPoint → Action S E Coin
  spend_or st e o s = spent_or e (st.spend_in o s)

  unfoldable pub add_or : Store S → E → OutPoint → Coin → Action S E (Unit {0})
  add_or st e o coin s = added_or e (st.add_in o coin s)

  -- Inversion of a run that succeeded.
  pub >>=-eq_ok :
      {A B : Type 0} (m : Action S E A) (f : A → Action S E B) (s t : S) (b : B)
      → (m >>= f) s ≡ ok (b, t)
      → (a : A) × (u : S) × (m s ≡ ok (a, u)) × (f a u ≡ ok (b, t))
  >>=-eq_ok {A} {B} m f s t b h = from_result (m s) refl h
    where
      from_result :
          (r : Result E (A × S))
          → m s ≡ r
          → continue r f ≡ ok (b, t)
          → (a : A) × (u : S) × (m s ≡ ok (a, u)) × (f a u ≡ ok (b, t))
      from_result (err e) q k = cc
      from_result (ok (a, u)) q k = (a, u, q, k)

  pub lift-eq_ok :
      {A : Type 0} (r : Result E A) (s t : S) (a : A) → lift r s ≡ ok (a, t) → (r ≡ ok a) × (s ≡ t)
  lift-eq_ok (err e) s t a h = cc
  lift-eq_ok (ok x) s t a h = (cc (h), cc (h))
