-- ===== src/Chain/Index.antt =====
-- `BlockIndex`: include/amarian/chain/block_index.hpp and src/chain/block_index.cpp. An entry is named by
-- the hash that it is stored under: a pointer to an entry is that hash, or the entry as it stands.
use amarian_amr.Base.{
  ℕ, zero, suc, ◌+◌, ◌-◌, ◌^◌, Bool, true, false, not, ◌&&◌, Option, none, some, List, [], ◌∷◌, ltb,
  if◌then◌else◌, ◌==◌, nat_eq, list_eq,
}
use amarian_amr.Base.Int.{ℤ, pos, ltb_ℤ, leb_ℤ, ◌+ℤ◌, ◌-ℤ◌, ◌*ℤ◌}
use amarian_amr.Base.Result.{Result, ok, err, ◌>>=◌, ◌>>◌, reject_if}
use amarian_amr.Base.Table.{find, insert}
use amarian_amr.Crypto.{Backend}
use amarian_amr.Primitives.Hash.{Hash256}
use amarian_amr.Primitives.Block.{BlockHeader}
use amarian_amr.Primitives.Digests.{header_hash}
use amarian_amr.Consensus.Params.{ChainParams, median_time_span}
use amarian_amr.Consensus.Asert.{asert_next_bits_for}
use amarian_amr.Consensus.Work.{Work, add, of_compact_target, more_work}
use amarian_amr.Consensus.Validation.{Verdict, ValidationError}
use amarian_amr.Consensus.Validation.Header.{
  HeaderContext, check_block_header, contextual_check_block_header, median_time_past,
}

pub data BlockValidity : Type 0 where
  header_only body full : BlockValidity

pub data BlockFailure : Type 0 where
  no_failure itself ancestor : BlockFailure

pub record Entry : Type 0 where
  pub header : BlockHeader
  pub hash : Hash256
  pub height : ℕ
  pub total_work : Work
  pub parent : Option Hash256
  pub validity : BlockValidity
  pub failure : BlockFailure
  pub sequence : ℕ

pub data IndexError : Type 0 where
  unknown_predecessor predecessor_invalid already_ruled_out : IndexError

-- `std::variant<consensus::ValidationError, IndexError>`.
pub data HeaderError : Type 0 where
  rule_broken : ValidationError → HeaderError
  not_placed : IndexError → HeaderError

-- `children` is the multimap from a hash to the entries whose header names it.
pub record BlockIndex : Type 0 where
  pub entries : List (Hash256 × Entry)
  pub children : List (Hash256 × Hash256)
  pub genesis : Hash256
  pub best_header : Option Hash256
  pub next_sequence : ℕ

abbrev pub is_unfailed : BlockFailure → Bool
is_unfailed no_failure = true
is_unfailed itself = false
is_unfailed ancestor = false

abbrev pub is_eligible : Entry → Bool
is_eligible e = is_unfailed e.failure

unfoldable pub is_better_tip : Entry → Entry → Bool
is_better_tip candidate incumbent =
    if not (is_eligible candidate)
    then false
    else if not (is_eligible incumbent)
    then true
    else if not (candidate.total_work == incumbent.total_work)
    then more_work candidate.total_work incumbent.total_work
    else ltb candidate.sequence incumbent.sequence

abbrev pub find_or_none : BlockIndex → Option Hash256 → Option Entry
find_or_none ix none = none
find_or_none ix (some h) = find h ix.entries

abbrev pub parent_of : BlockIndex → Option Entry → Option Entry
parent_of ix none = none
parent_of ix (some e) = find_or_none ix e.parent

-- The walk down to a height. Each round goes to a lower height, so that the entry's own is enough fuel.
unfoldable pub walk_down : BlockIndex → ℕ → ℕ → Option Entry → Option Entry
walk_down ix zero wanted e = e
walk_down ix (suc fuel) wanted none = none
walk_down ix (suc fuel) wanted (some e) =
    let rest = walk_down ix fuel wanted (parent_of ix (some e)) in
    if ltb wanted e.height then rest else some e

-- `Ancestor`.
unfoldable pub ancestor_at : BlockIndex → Entry → ℕ → Option Entry
unfolding walk_down
ancestor_at ix e wanted =
    if ltb e.height wanted then none else walk_down ix e.height wanted (some e)

-- The timestamps from an entry back, newest first.
unfoldable pub timestamps_back : BlockIndex → ℕ → Option Entry → List ℤ
timestamps_back ix zero e = []
timestamps_back ix (suc room) none = []
timestamps_back ix (suc room) (some e) =
    e.header.timestamp ∷ timestamps_back ix room (parent_of ix (some e))

abbrev pub newest_last : List ℤ → List ℤ → List ℤ
newest_last [] acc = acc
newest_last (t ∷ ts) acc = newest_last ts (t ∷ acc)

unfoldable pub median_time_past_at : BlockIndex → Entry → ℤ
unfolding timestamps_back median_time_past
median_time_past_at ix e =
    median_time_past (newest_last (timestamps_back ix median_time_span (some e)) [])

unfoldable pub next_target_bits : Entry → ChainParams → ℕ
unfolding asert_next_bits_for
next_target_bits parent params =
    if params.trivial_difficulty
    then params.pow_limit_bits
    else asert_next_bits_for params parent.height parent.header.timestamp

abbrev pub i64_max : ℤ
i64_max = pos (2 ^ 63 - 1)

-- Whether more than two target intervals lie between the two.
abbrev pub gap_is_large : ℤ → ℤ → ℤ → Bool
gap_is_large spacing parent_time candidate_time =
    ltb_ℤ (pos 0) spacing
    && (leb_ℤ parent_time (i64_max -ℤ pos 2 *ℤ spacing)
        && ltb_ℤ (parent_time +ℤ pos 2 *ℤ spacing) candidate_time)

unfoldable pub next_target_bits_at : Entry → ℤ → ChainParams → ℕ
unfolding next_target_bits ◌+ℤ◌ ◌-ℤ◌ ◌*ℤ◌
next_target_bits_at parent candidate_time params =
    if params.trivial_difficulty
    then params.pow_limit_bits
    else if params.allow_min_difficulty_blocks
        && gap_is_large params.target_block_seconds parent.header.timestamp candidate_time
    then params.pow_limit_bits
    else next_target_bits parent params

abbrev pub value_or : Option ℤ → ℤ → ℤ
value_or none t = t
value_or (some u) t = u

unfoldable pub header_context_for : BlockIndex → Entry → ℤ → ChainParams → Option ℤ → HeaderContext
unfolding median_time_past_at next_target_bits_at
header_context_for ix parent now params candidate_time = record {
  prev_hash = parent.hash;
  prev_height = parent.height;
  median_time_past = median_time_past_at ix parent;
  expected_bits = next_target_bits_at parent (value_or candidate_time now) params;
  now = now;
}

abbrev pub rule : Verdict → Result HeaderError (Unit {0})
rule (ok u) = ok u
rule (err e) = err (rule_broken e)

abbrev pub known_parent : Option Entry → Result HeaderError Entry
known_parent none = err (not_placed unknown_predecessor)
known_parent (some e) = ok e

-- The constructor, over the header of the genesis block.
unfoldable pub from_genesis : Backend → BlockHeader → BlockIndex
unfolding of_compact_target
from_genesis b header =
    let hash = header_hash b header in
    let entry : Entry = record {
      header = header;
      hash = hash;
      height = header.height;
      total_work = of_compact_target header.target_bits;
      parent = none;
      validity = full;
      failure = no_failure;
      sequence = 0;
    } in
    record {
      entries = (hash, entry) ∷ [];
      children = [];
      genesis = hash;
      best_header = some hash;
      next_sequence = 1;
    }

-- The best of an entry and the best so far.
abbrev pub better_of : Entry → Option Entry → Option Hash256
better_of candidate none = some candidate.hash
better_of candidate (some best) =
    if is_better_tip candidate best then some candidate.hash else some best.hash

module _ (b : Backend) where
  -- The checks of `AddHeader` on a header that is not known yet, with the entry that it extends.
  unfoldable pub check_new_header :
      BlockHeader → ℤ → ChainParams → BlockIndex → Result HeaderError Entry
  check_new_header header now params ix = do
    rule (check_block_header b header params)
    parent ← known_parent (find header.prev_block ix.entries)
    reject_if (not (is_eligible parent)) (not_placed predecessor_invalid)
    rule (
        contextual_check_block_header header
          (header_context_for ix parent now params (some header.timestamp)) params)
    ok parent

  unfoldable pub new_entry : BlockHeader → Entry → ℕ → Entry
  unfolding add of_compact_target
  new_entry header parent sequence = record {
    header = header;
    hash = header_hash b header;
    height = header.height;
    total_work = add parent.total_work (of_compact_target header.target_bits);
    parent = some parent.hash;
    validity = header_only;
    failure = no_failure;
    sequence = sequence;
  }

  unfoldable pub insert_entry : Entry → BlockIndex → BlockIndex
  unfolding insert is_better_tip
  insert_entry e ix = record ix {
    entries = insert e.hash e ix.entries;
    children = (e.header.prev_block, e.hash) ∷ ix.children;
    best_header = better_of e (find_or_none ix ix.best_header);
    next_sequence = ix.next_sequence + 1;
  }

  abbrev pub add_checked :
      Result HeaderError Entry → BlockHeader → BlockIndex → Result HeaderError Entry × BlockIndex
  add_checked (err e) header ix = (err e, ix)
  add_checked (ok parent) header ix =
      let entry = new_entry header parent ix.next_sequence in (ok entry, insert_entry entry ix)

  abbrev pub add_found :
      Option Entry
      → BlockHeader
      → ℤ
      → ChainParams
      → BlockIndex
      → Result HeaderError Entry × BlockIndex
  add_found (some existing) header now params ix = (ok existing, ix)
  add_found none header now params ix =
      add_checked (check_new_header header now params ix) header ix

  unfoldable pub add_header :
      BlockHeader → ℤ → ChainParams → BlockIndex → Result HeaderError Entry × BlockIndex
  unfolding check_new_header new_entry insert_entry find
  add_header header now params ix =
      add_found (find (header_hash b header) ix.entries) header now params ix
