-- ===== src/Chain/Marks.antt =====
-- What is learned of an entry: `RecordValidity`, `RecordFailure` and `RescanForBestHeader` of
-- src/chain/block_index.cpp.
use amarian_amr.Base.{
  ℕ, zero, suc, ◌+◌, Bool, true, false, not, Option, none, some, List, [], ◌∷◌, length, ltb,
  if◌then◌else◌, ◌==◌, nat_eq, list_eq,
}
use amarian_amr.Base.Table.{find, insert}
use amarian_amr.Primitives.Hash.{Hash256}
use amarian_amr.Chain.Index.{
  BlockIndex, Entry, BlockValidity, header_only, body, full, BlockFailure, itself, ancestor,
  is_eligible, find_or_none, is_better_tip,
}

-- The order in which `BlockValidity` is declared.
abbrev pub rung : BlockValidity → ℕ
rung header_only = 0
rung body = 1
rung full = 2

abbrev pub Entries : Type 0
Entries = List (Hash256 × Entry)

-- An entry with other marks.
abbrev pub marked : BlockValidity → BlockFailure → Entry → Entry
marked v f e = record e { validity = v; failure = f }

unfoldable pub raise : BlockValidity → Entry → Entries → Entries
unfolding insert
raise reached stored entries =
    if ltb (rung stored.validity) (rung reached)
    then insert stored.hash (marked reached stored.failure stored) entries
    else entries

abbrev pub validity_found : Option Entry → BlockValidity → BlockIndex → BlockIndex
validity_found none reached ix = ix
validity_found (some stored) reached ix = record ix { entries = raise reached stored ix.entries }

unfoldable pub record_validity : Hash256 → BlockValidity → BlockIndex → BlockIndex
unfolding find raise
record_validity hash reached ix = validity_found (find hash ix.entries) reached ix

-- The entries whose header names `hash`.
unfoldable pub children_of : Hash256 → List (Hash256 × Hash256) → List Hash256
children_of hash [] = []
children_of hash ((p, c) ∷ t) = if p == hash then c ∷ children_of hash t else children_of hash t

-- The walk: the entries still to be followed, the last first, the entries marked so far, and the table.
pub record Walk : Type 0 where
  pub frontier : List Hash256
  pub count : ℕ
  pub entries : Entries

abbrev pub fail_found : Option Entry → Hash256 → Walk → Walk
fail_found none child w = w
fail_found (some descendant) child w = if not (is_eligible descendant) then w else record w {
  frontier = child ∷ w.frontier;
  count = w.count + 1;
  entries = insert child (marked descendant.validity ancestor descendant) w.entries;
}

unfoldable pub fail_child : Hash256 → Walk → Walk
unfolding find insert
fail_child child w = fail_found (find child w.entries) child w

unfoldable pub fail_children : List Hash256 → Walk → Walk
unfolding fail_child
fail_children [] w = w
fail_children (c ∷ cs) w = fail_children cs (fail_child c w)

abbrev pub is_empty : List Hash256 → Bool
is_empty [] = true
is_empty (h ∷ hs) = false

-- The last entry of the frontier is taken off and its children are marked.
abbrev pub follow : List Hash256 → List (Hash256 × Hash256) → Walk → Walk
follow [] children w = w
follow (current ∷ rest) children w =
    fail_children (children_of current children) (record w { frontier = rest })

-- Each round takes one entry off the frontier.
unfoldable pub walk_subtree : ℕ → List (Hash256 × Hash256) → Walk → Walk
unfolding fail_children children_of
walk_subtree zero children w = w
walk_subtree (suc fuel) children w =
    let rest = walk_subtree fuel children (follow w.frontier children w) in
    if is_empty w.frontier then w else rest

abbrev pub rescan_step : Entry → Option Entry → Option Entry
rescan_step candidate none = if is_eligible candidate then some candidate else none
rescan_step candidate (some best) =
    if is_eligible candidate
    then if is_better_tip candidate best then some candidate else some best
    else some best

unfoldable pub rescan : Entries → Option Entry → Option Entry
unfolding is_better_tip
rescan [] best = best
rescan ((h, candidate) ∷ t) best = rescan t (rescan_step candidate best)

abbrev pub hash_of : Option Entry → Option Hash256
hash_of none = none
hash_of (some e) = some e.hash

abbrev pub is_eligible_best : Option Entry → Bool
is_eligible_best none = false
is_eligible_best (some e) = is_eligible e

-- The best header, looked for again where the one recorded is ruled out.
unfoldable pub refresh_best : BlockIndex → BlockIndex
unfolding rescan
refresh_best ix =
    if is_eligible_best (find_or_none ix ix.best_header)
    then ix
    else record ix { best_header = hash_of (rescan ix.entries none) }

-- One round for each entry and one more is enough fuel.
abbrev pub failure_found : Option Entry → Hash256 → BlockIndex → ℕ × BlockIndex
failure_found none hash ix = (0, ix)
failure_found (some root) hash ix =
    if not (is_eligible root)
    then (0, ix)
    else (let w = walk_subtree (length ix.entries + 1) ix.children (record {
      frontier = hash ∷ [];
      count = 1;
      entries = insert hash (marked root.validity itself root) ix.entries;
    }) in
        (w.count, refresh_best (record ix { entries = w.entries })))

-- The number of newly marked entries, and the index.
unfoldable pub record_failure : Hash256 → BlockIndex → ℕ × BlockIndex
unfolding find insert walk_subtree refresh_best
record_failure hash ix = failure_found (find hash ix.entries) hash ix
