-- ===== src/Utxo/Ledger/Simulation.antt =====
-- The cache does what the set of coins does: a run on the cache and the run on the coins it shows end
-- alike, and the cache still stands over the same base.
use amarian_amr.Base.{
  ◌≡◌, refl, Bool, true, false, Option, none, some, sym, subst, ap, if◌then◌else◌,
}
use amarian_amr.Base.Result.{Result, ok, err}
use amarian_amr.Primitives.OutPoint.{OutPoint}
use amarian_amr.Primitives.Coin.{Coin}
use amarian_amr.Utxo.Coins.{CoinsCache, get_coin, spend_coin, add_coin}
use amarian_amr.Utxo.Coins.Laws.{
  Coins, spend, add, on_coins, coins_of, spend_coin-spend, add_coin-add, Follows, Follows-trans,
  Follows-refl, spend_coin-Follows, add_coin-Follows,
}
use amarian_amr.Utxo.Ledger.{
  Action, cache_store, coins_store, continue, ◌>>=◌, return, lift, spend_or, add_or, spent_or,
  added_or,
}

module _ {E : Type 0} where
  -- How the two runs end.
  abbrev pub Ends :
      {A : Type 0} → CoinsCache → Result E (A × CoinsCache) → Result E (A × Coins) → Type 0
  Ends c (err e) r = r ≡ err e
  Ends c (ok (a, d)) r = (r ≡ ok (a, get_coin d)) × Follows c d

  pub record Simulates {A : Type 0} (m : Action CoinsCache E A) (n : Action Coins E A)
      : Type 0 where
    pub ends : (c : CoinsCache) → Ends c (m c) (n (get_coin c))

  pub Simulates-return : {A : Type 0} (a : A) → Simulates (return a) (return a)
  Simulates-return a = record { ends = λ c. (refl, Follows-refl c) }

  pub Simulates-lift : {A : Type 0} (r : Result E A) → Simulates (lift r) (lift r)
  Simulates-lift (err e) = record { ends = λ c. refl }
  Simulates-lift (ok a) = record { ends = λ c. (refl, Follows-refl c) }

  Ends-later :
      {A : Type 0} (b c : CoinsCache) (r : Result E (A × CoinsCache)) (q : Result E (A × Coins))
      → Follows b c
      → Ends c r q
      → Ends b r q
  Ends-later b c (err e) q f h = h
  Ends-later b c (ok (a, d)) q f h = (h.0, Follows-trans f h.1)

  Ends-continue :
      {A B : Type 0} (c : CoinsCache) (r : Result E (A × CoinsCache)) (q : Result E (A × Coins))
      (f : A → Action CoinsCache E B) (g : A → Action Coins E B)
      → Ends c r q
      → ((a : A) → Simulates (f a) (g a))
      → Ends c (continue r f) (continue q g)
  Ends-continue c (err e) q f g h k = rw h refl
  Ends-continue c (ok (a, d)) q f g h k =
      subst (λ z. Ends c (f a d) (continue z g)) (sym h.0)
        (Ends-later c d (f a d) (g a (get_coin d)) h.1 ((k a).ends d))

  pub Simulates-bind :
      {A B : Type 0} {m : Action CoinsCache E A} {n : Action Coins E A}
      (f : A → Action CoinsCache E B) (g : A → Action Coins E B)
      → Simulates m n
      → ((a : A) → Simulates (f a) (g a))
      → Simulates (m >>= f) (n >>= g)
  Simulates-bind {m = m} {n = n} f g h k = record {
    ends = λ c. Ends-continue c (m c) (n (get_coin c)) f g (h.ends c) k;
  }

  pub Simulates-if :
      {A : Type 0} (t : Bool) {m k : Action CoinsCache E A} {n l : Action Coins E A}
      → Simulates m n
      → Simulates k l
      → Simulates (if t then m else k) (if t then n else l)
  Simulates-if true h q = h
  Simulates-if false h q = q

  pub Simulates-spend_or :
      (e : E) (o : OutPoint) → Simulates (spend_or cache_store e o) (spend_or coins_store e o)
  unfolding spend_or
  Simulates-spend_or e o = record { ends = λ c. spent c (spend_coin o c) refl }
    where
      spent :
          (c : CoinsCache) (r : Option (Coin × CoinsCache))
          → spend_coin o c ≡ r
          → Ends c (spent_or e r) (spent_or e (spend o (get_coin c)))
      spent c none q =
          let same : spend o (get_coin c) ≡ none = cc (spend_coin-spend o c, ap on_coins q) in
          ap (spent_or e) same
      spent c (some (coin, d)) q =
          let same : spend o (get_coin c) ≡ some (coin, get_coin d) =
            cc (spend_coin-spend o c, ap on_coins q) in
          (ap (spent_or e) same, spend_coin-Follows o c d coin q)

  pub Simulates-add_or :
      (e : E) (o : OutPoint) (coin : Coin)
      → Simulates (add_or cache_store e o coin) (add_or coins_store e o coin)
  unfolding add_or
  Simulates-add_or e o coin = record { ends = λ c. added c (add_coin o coin c) refl }
    where
      added :
          (c : CoinsCache) (r : Option CoinsCache)
          → add_coin o coin c ≡ r
          → Ends c (added_or e r) (added_or e (add o coin (get_coin c)))
      added c none q =
          let same : add o coin (get_coin c) ≡ none = cc (add_coin-add o coin c, ap coins_of q) in
          ap (added_or e) same
      added c (some d) q =
          let same : add o coin (get_coin c) ≡ some (get_coin d) =
            cc (add_coin-add o coin c, ap coins_of q) in
          (ap (added_or e) same, add_coin-Follows o coin c d q)
