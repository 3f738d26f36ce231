-- ===== src/Utxo/Coins/Laws.antt =====
-- The cache as a function from outpoints to coins, and what each operation does to that function.
use amarian_amr.Base.{
  subst, ◌≡◌, refl, Option, none, some, [], ◌∷◌, arith, is_some, fun_ext, if◌then◌else◌, ◌==◌,
  Option-cases, inl, inr, ◌∙◌, sym, ap, Bool-cases,
}
use amarian_amr.Base.Table.{find, insert, Distinct, insert-Distinct, erase-Distinct}
use amarian_amr.Primitives.OutPoint.{OutPoint, outpoint_eq, outpoint_beq_iff}
use amarian_amr.Primitives.Coin.{Coin}
use amarian_amr.Utxo.Coins.{
  CoinsCache, entry_or, spend_found, Entries, get_coin, have_coin, mark_spent, write, add_coin,
  spend_coin, write_all, flush, have_coin-get_coin, get_coin-mark_spent, get_coin-write,
}

-- The set of coins, with nothing said of how it is kept.
abbrev pub Coins : Type 0
Coins = OutPoint → Option Coin

unfoldable pub update : OutPoint → Option Coin → Coins → Coins
update o x s j = if o == j then x else s j

-- What a spend and an addition do to the set; `none` is a refusal.
abbrev pub taken : OutPoint → Coins → Option Coin → Option (Coin × Coins)
taken o s none = none
taken o s (some coin) = some (coin, update o none s)

unfoldable pub spend : OutPoint → Coins → Option (Coin × Coins)
spend o s = taken o s (s o)

unfoldable pub add : OutPoint → Coin → Coins → Option Coins
add o coin s = if is_some (s o) then none else some (update o (some coin) s)

pub coins-mark_spent :
    (o : OutPoint) (c : CoinsCache) → get_coin (mark_spent o c) ≡ update o none (get_coin c)
unfolding update
coins-mark_spent o c = fun_ext (λ j. get_coin-mark_spent o j c)

pub coins-write :
    (o : OutPoint) (x : Option Coin) (c : CoinsCache)
    → get_coin (write o x c) ≡ update o x (get_coin c)
unfolding update
coins-write o x c = fun_ext (λ j. get_coin-write o j x c)

-- The two operations of the cache are the two operations of the set.
abbrev pub on_coins : Option (Coin × CoinsCache) → Option (Coin × Coins)
on_coins none = none
on_coins (some (coin, c)) = some (coin, get_coin c)

abbrev pub coins_of : Option CoinsCache → Option Coins
coins_of none = none
coins_of (some c) = some (get_coin c)

-- `spend_coin` returns the coin that the cache shows at the outpoint and leaves the cache showing the
-- same coins without it; where the cache shows none there, it refuses.
pub spend_coin-spend :
    (o : OutPoint) (c : CoinsCache) → on_coins (spend_coin o c) ≡ spend o (get_coin c)
unfolding spend_coin spend
spend_coin-spend o c = ground (arith, coins-mark_spent o c)

coins-insert :
    (o : OutPoint) (coin : Coin) (c : CoinsCache)
    → get_coin (record c { entries = insert o (some coin) c.entries })
      ≡ update o (some coin) (get_coin c)
unfolding write
coins-insert o coin c = coins-write o (some coin) c

-- `add_coin` leaves the cache showing the same coins and the new one; where the cache shows a coin at
-- the outpoint already, it refuses.
pub add_coin-add :
    (o : OutPoint) (coin : Coin) (c : CoinsCache)
    → coins_of (add_coin o coin c) ≡ add o coin (get_coin c)
unfolding add_coin add
add_coin-add o coin c = ground (arith, have_coin-get_coin c o, coins-insert o coin c)

-- Entries never repeat an outpoint.
abbrev pub IsDistinct : CoinsCache → Type 0
IsDistinct c = Distinct c.entries

pub write-IsDistinct :
    (o : OutPoint) (x : Option Coin) (c : CoinsCache) → IsDistinct c → IsDistinct (write o x c)
unfolding write mark_spent
write-IsDistinct o none c d =
    ground (arith, insert-Distinct o none c.entries d, erase-Distinct o c.entries d)
write-IsDistinct o (some coin) c d = insert-Distinct o (some coin) c.entries d

-- What `write_all` leaves at an outpoint: its entry, and what was there where it has none.
get_coin-write_all :
    (t : Entries) (c : CoinsCache) (j : OutPoint)
    → Distinct t
    → get_coin (write_all t c) j ≡ entry_or (find j t) (λ x. x) (get_coin c j)
unfolding write_all find
get_coin-write_all [] c j d = refl
get_coin-write_all ((o, x) ∷ t) c j d = ground (
  arith,
  get_coin-write_all t (write o x c) j d.1,
  get_coin-write o j x c,
  outpoint_beq_iff o j,
  d.0,
)

-- When a cache has no outpoint twice among its entries and its base answers as the sink shows, flushing
-- it leaves the sink showing what the cache showed.
pub coins-flush :
    (c sink : CoinsCache)
    → IsDistinct c
    → ((o : OutPoint) → c.base.get o ≡ get_coin sink o)
    → get_coin (flush c sink).1 ≡ get_coin c
unfolding flush get_coin
coins-flush c sink d over_sink = fun_ext λ j.
    get_coin-write_all c.entries sink j d
    ∙ ap (entry_or (find j c.entries) (λ x. x)) (sym (over_sink j))

pub write_all-IsDistinct :
    (t : Entries) (c : CoinsCache) → IsDistinct c → IsDistinct (write_all t c)
unfolding write_all
write_all-IsDistinct [] c d = d
write_all-IsDistinct ((o, x) ∷ t) c d =
    write_all-IsDistinct t (write o x c) (write-IsDistinct o x c d)

-- `d` is a later state of the cache `c`: over the same base, and still with distinct entries.
pub record Follows (c d : CoinsCache) : Type 0 where
  pub same_base : d.base ≡ c.base
  pub distinct : IsDistinct c → IsDistinct d

pub Follows-trans : {b c d : CoinsCache} → Follows b c → Follows c d → Follows b d
Follows-trans p q = record {
  same_base = q.same_base ∙ p.same_base;
  distinct = λ h. q.distinct (p.distinct h);
}

pub Follows-refl : (c : CoinsCache) → Follows c c
Follows-refl c = record { same_base = refl; distinct = λ h. h }

mark_spent-Follows : (o : OutPoint) (c : CoinsCache) → Follows c (mark_spent o c)
unfolding mark_spent
mark_spent-Follows o c = elim (Bool-cases (c.base.have o)) [
  | inl e ↦ rw e (record { same_base = refl; distinct = insert-Distinct o none c.entries })
  | inr e ↦ rw e (record { same_base = refl; distinct = erase-Distinct o c.entries })
]

spend_coin-eq :
    (o : OutPoint) (c d : CoinsCache) (coin : Coin)
    → spend_coin o c ≡ some (coin, d)
    → mark_spent o c ≡ d
unfolding spend_coin
spend_coin-eq o c d coin h = elim (Option-cases (get_coin c o)) [
  | inl e ↦ cc (h, ap (spend_found o c) e)
  | inr (a, e) ↦ cc (h, ap (spend_found o c) e)
]

pub spend_coin-Follows :
    (o : OutPoint) (c d : CoinsCache) (coin : Coin) → spend_coin o c ≡ some (coin, d) → Follows c d
spend_coin-Follows o c d coin h =
    subst (Follows c) (spend_coin-eq o c d coin h) (mark_spent-Follows o c)

pub add_coin-Follows :
    (o : OutPoint) (coin : Coin) (c d : CoinsCache) → add_coin o coin c ≡ some d → Follows c d
unfolding add_coin
add_coin-Follows o coin c d h = elim (Bool-cases (have_coin c o)) [
  | inl e ↦ cc (rw e at h)
  | inr e ↦
      let same : record c { entries = insert o (some coin) c.entries } ≡ d = cc (rw e at h) in
      subst (Follows c) same
        (record { same_base = refl; distinct = insert-Distinct o (some coin) c.entries })
]
