-- ===== src/Consensus/Validation/Header.antt =====
-- The checks of a header: `CheckBlockHeader`, `MedianTimePast`, `ContextualCheckBlockHeader`.
use amarian_amr.Base.{
  ℕ, ◌+◌, ◌-◌, ◌/◌, ◌^◌, Bool, true, not, ◌||◌, Option, some, none, List, [], ◌∷◌, length, drop,
  get_or, if◌then◌else◌, ◌==◌, nat_eq, list_eq,
}
use amarian_amr.Base.Int.{ℤ, pos, negsuc, ltb_ℤ, leb_ℤ}
use amarian_amr.Base.Result.{ok, err, ◌>>=◌, ◌>>◌, reject_if}
use amarian_amr.Crypto.{Backend}
use amarian_amr.Primitives.Amount.{checked_add}
use amarian_amr.Primitives.Hash.{Hash256}
use amarian_amr.Primitives.OutPoint.{outpoint_eq}
use amarian_amr.Primitives.Block.{BlockHeader}
use amarian_amr.Primitives.Digests.{header_hash}
use amarian_amr.Consensus.Params.{ChainParams, max_future_block_seconds, median_time_span}
use amarian_amr.Consensus.Target.{Target, compact_to_target, exceeds, hash_meets_target}
use amarian_amr.Consensus.Validation.{
  Verdict, Computed, header_target_malformed, header_target_below_floor, header_insufficient_work,
  header_wrong_height, header_wrong_prev_block, header_unexpected_target, header_timestamp_too_old,
  header_timestamp_too_far_ahead,
}

-- `HeaderContext`.
pub record HeaderContext : Type 0 where
  pub prev_hash : Hash256
  pub prev_height : ℕ
  pub median_time_past : ℤ
  pub expected_bits : ℕ
  pub now : ℤ

abbrev pub decode_target : ℕ → Computed Target
decode_target bits = or_malformed (compact_to_target bits)
  where
    or_malformed : Option Target → Computed Target
    or_malformed none = err header_target_malformed
    or_malformed (some target) = ok target

module _ (b : Backend) where
  unfoldable pub check_block_header : BlockHeader → ChainParams → Verdict
  check_block_header header params = do
    target ← decode_target header.target_bits
    floor ← decode_target params.pow_limit_bits
    reject_if (exceeds target floor) header_target_below_floor
    reject_if (not (hash_meets_target (header_hash b header) target)) header_insufficient_work

-- A sorted insertion; `std::nth_element` puts at the middle what sorting would put there.
unfoldable pub insert_sorted : ℤ → List ℤ → List ℤ
insert_sorted t [] = t ∷ []
insert_sorted t (u ∷ us) = if leb_ℤ t u then t ∷ u ∷ us else u ∷ insert_sorted t us

unfoldable pub sort : List ℤ → List ℤ
sort [] = []
sort (t ∷ ts) = insert_sorted t (sort ts)

-- The last of the timestamps, as many as the span or all of them.
abbrev pub last_window : List ℤ → List ℤ
last_window timestamps = drop (length timestamps - median_time_span) timestamps

-- The smallest `int64_t` where there is no timestamp.
abbrev pub i64_min : ℤ
i64_min = negsuc (2 ^ 63 - 1)

unfoldable pub median_time_past : List ℤ → ℤ
median_time_past timestamps =
    let window = last_window timestamps in get_or (sort window) (length window / 2) i64_min

abbrev pub past_ceiling : ℤ → Option ℤ → Bool
past_ceiling timestamp none = true
past_ceiling timestamp (some ceiling) = ltb_ℤ ceiling timestamp

unfoldable pub contextual_check_block_header : BlockHeader → HeaderContext → ChainParams → Verdict
contextual_check_block_header header context params = do
  reject_if (not (header.prev_block == context.prev_hash)) header_wrong_prev_block
  reject_if (context.prev_height == 0xffff_ffff || not (header.height == context.prev_height + 1))
      header_wrong_height
  reject_if (not (header.target_bits == context.expected_bits)) header_unexpected_target
  reject_if (leb_ℤ header.timestamp context.median_time_past) header_timestamp_too_old
  reject_if (past_ceiling header.timestamp (checked_add context.now (pos max_future_block_seconds)))
      header_timestamp_too_far_ahead
