-- ===== src/Utxo/Coins.antt =====
-- `CoinsView`, `CoinsSink` and `CoinsCache`: include/amarian/utxo/coins.hpp and src/utxo/coins.cpp.
-- The table of changes is an association list; the base view is the record of its two operations.
pub mod Laws
use amarian_amr.Base.{
  ℕ, ◌≡◌, refl, Bool, true, false, Option, none, some, List, [], ◌∷◌, arith, is_some, if◌then◌else◌,
  length, ◌==◌, Eq, beq→eq, Option-cases, inl, inr, beq_refl, ◌∙◌, sym, ap, Bool-cases,
}
use amarian_amr.Base.Table.{
  find, insert, erase, find-insert, find-erase, Distinct, insert-Distinct, erase-Distinct,
}
use amarian_amr.Primitives.OutPoint.{OutPoint, outpoint_eq, outpoint_beq_iff}
use amarian_amr.Primitives.Coin.{Coin}

-- The interface of a set of coins. `have-get` is its contract: `HaveCoin` says whether `GetCoin` finds.
pub record CoinsView : Type 0 where
  pub get : OutPoint → Option Coin
  pub have : OutPoint → Bool
  pub have-get : (o : OutPoint) → have o ≡ is_some (get o)

abbrev pub empty_view : CoinsView
empty_view = record { get = λ o. none; have = λ o. false; have-get = λ o. refl }

abbrev pub Entries : Type 0
Entries = List (OutPoint × Option Coin)

pub record CoinsCache : Type 0 where
  pub base : CoinsView
  pub entries : Entries

-- `CoinsCache::Over`.
unfoldable pub over : CoinsView → CoinsCache
over base = record { base = base; entries = [] }

-- An entry answers for its outpoint, a spent one too; any other question goes to the base.
abbrev pub entry_or {ℓ} : {A : Type ℓ} → Option (Option Coin) → (Option Coin → A) → A → A
entry_or none f missing = missing
entry_or (some entry) f missing = f entry

unfoldable pub get_coin : CoinsCache → OutPoint → Option Coin
get_coin c o = entry_or (find o c.entries) (λ entry. entry) (c.base.get o)

unfoldable pub have_coin : CoinsCache → OutPoint → Bool
have_coin c o = entry_or (find o c.entries) is_some (c.base.have o)

unfoldable pub mark_spent : OutPoint → CoinsCache → CoinsCache
mark_spent o c =
    if c.base.have o
    then record c { entries = insert o none c.entries }
    else record c { entries = erase o c.entries }

unfoldable pub write : OutPoint → Option Coin → CoinsCache → CoinsCache
write o (some coin) c = record c { entries = insert o (some coin) c.entries }
write o none c = mark_spent o c

-- `none` is the answer `false`, which leaves the cache alone.
unfoldable pub add_coin : OutPoint → Coin → CoinsCache → Option CoinsCache
add_coin o coin c =
    if have_coin c o then none else some (record c { entries = insert o (some coin) c.entries })

abbrev pub spend_found : OutPoint → CoinsCache → Option Coin → Option (Coin × CoinsCache)
spend_found o c none = none
spend_found o c (some coin) = some (coin, mark_spent o c)

-- `none` is `nullopt`, which leaves the cache alone.
unfoldable pub spend_coin : OutPoint → CoinsCache → Option (Coin × CoinsCache)
spend_coin o c = spend_found o c (get_coin c o)

unfoldable pub write_all : Entries → CoinsCache → CoinsCache
write_all [] sink = sink
write_all ((o, coin) ∷ t) sink = write_all t (write o coin sink)

-- The emptied cache and the sink that it was written to.
unfoldable pub flush : CoinsCache → CoinsCache → CoinsCache × CoinsCache
flush c sink = (record c { entries = [] }, write_all c.entries sink)

unfoldable pub discard : CoinsCache → CoinsCache
discard c = record c { entries = [] }

unfoldable pub change_count : CoinsCache → ℕ
change_count c = length c.entries

pub have_coin-get_coin : (c : CoinsCache) (o : OutPoint) → have_coin c o ≡ is_some (get_coin c o)
unfolding have_coin get_coin
have_coin-get_coin c o = ground (arith, c.base.have-get o)

-- A cache is a view, so that one can stand over another.
abbrev pub as_view : CoinsCache → CoinsView
as_view c = record { get = get_coin c; have = have_coin c; have-get = have_coin-get_coin c }

pub get_coin-mark_spent :
    (o j : OutPoint) (c : CoinsCache)
    → get_coin (mark_spent o c) j ≡ (if o == j then none else get_coin c j)
unfolding get_coin mark_spent
get_coin-mark_spent o j c = ground (
  arith,
  c.base.have-get o,
  outpoint_beq_iff o j,
  find-insert o j none c.entries,
  find-erase o j c.entries,
)

pub get_coin-write :
    (o j : OutPoint) (x : Option Coin) (c : CoinsCache)
    → get_coin (write o x c) j ≡ (if o == j then x else get_coin c j)
unfolding write
get_coin-write o j none c = get_coin-mark_spent o j c
get_coin-write o j (some coin) c =
    unfold get_coin in ground (arith, outpoint_beq_iff o j, find-insert o j (some coin) c.entries)
