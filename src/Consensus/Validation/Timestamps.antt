-- ===== src/Consensus/Validation/Timestamps.antt =====
-- The header rules that need the predecessor.
use amarian_amr.Base.{
  ℕ, ◌+◌, not, ◌||◌, ◌≡◌, ◌≢◌, ◌↔◌, refl, true, false, arith, list_beq_iff, ◌==◌, nat_eq, list_eq,
}
use amarian_amr.Base.Int.{ℤ, pos, ◌+ℤ◌, ◌≤ℤ◌, ◌<ℤ◌, leb_ℤ}
use amarian_amr.Base.Result.{ok, reject_if-eq_ok, reject_if-eq_tt}
use amarian_amr.Primitives.Amount.{checked_add, in_i64}
use amarian_amr.Primitives.Block.{BlockHeader}
use amarian_amr.Consensus.Params.{ChainParams, max_future_block_seconds}
use amarian_amr.Consensus.Validation.{
  header_wrong_prev_block, header_wrong_height, header_unexpected_target, header_timestamp_too_old,
  header_timestamp_too_far_ahead,
}
use amarian_amr.Consensus.Validation.Header.{
  HeaderContext, past_ceiling, contextual_check_block_header,
}

-- The header extends the predecessor, claims the work that is expected, and its time lies behind the
-- median and at most the allowance ahead of the clock, which must leave room for that allowance.
pub record Extends (header : BlockHeader) (context : HeaderContext) : Type 0 where
  pub prev : header.prev_block ≡ context.prev_hash
  pub not_last : context.prev_height ≢ 0xffff_ffff
  pub height : header.height ≡ context.prev_height + 1
  pub target : header.target_bits ≡ context.expected_bits
  pub after_median : context.median_time_past <ℤ header.timestamp
  pub not_ahead : header.timestamp ≤ℤ context.now +ℤ pos max_future_block_seconds
  pub no_overflow : in_i64 (context.now +ℤ pos max_future_block_seconds) ≡ true

within_ceiling :
    (timestamp now : ℤ) (allowance : ℕ)
    → past_ceiling timestamp (checked_add now (pos allowance)) ≡ false
    → (timestamp ≤ℤ now +ℤ pos allowance) × (in_i64 (now +ℤ pos allowance) ≡ true)
unfolding checked_add
within_ceiling timestamp now allowance h = (ground arith, ground arith)

within_ceiling-back :
    (timestamp now : ℤ) (allowance : ℕ)
    → timestamp ≤ℤ now +ℤ pos allowance
    → in_i64 (now +ℤ pos allowance) ≡ true
    → past_ceiling timestamp (checked_add now (pos allowance)) ≡ false
unfolding checked_add
within_ceiling-back timestamp now allowance h k = ground arith

accepted-Extends :
    (header : BlockHeader) (context : HeaderContext) (params : ChainParams)
    → contextual_check_block_header header context params ≡ ok tt
    → Extends header context
unfolding contextual_check_block_header
accepted-Extends header context params h =
    let a =
      reject_if-eq_ok (not (header.prev_block == context.prev_hash)) header_wrong_prev_block _ h in
    let b =
      reject_if-eq_ok
        (context.prev_height == 0xffff_ffff || not (header.height == context.prev_height + 1))
        header_wrong_height _ a.1 in
    let c =
      reject_if-eq_ok (not (header.target_bits == context.expected_bits)) header_unexpected_target _
        b.1 in
    let d =
      reject_if-eq_ok (leb_ℤ header.timestamp context.median_time_past) header_timestamp_too_old _
        c.1 in
    let e =
      reject_if-eq_tt
        (past_ceiling header.timestamp (checked_add context.now (pos max_future_block_seconds)))
        header_timestamp_too_far_ahead d.1 in
    let f = within_ceiling header.timestamp context.now max_future_block_seconds e in
    record {
      prev = ground (arith, a.0, list_beq_iff header.prev_block context.prev_hash);
      not_last = λ q. ground (arith, b.0, q);
      height = ground (arith, b.0);
      target = ground (arith, c.0);
      after_median = ground (arith, d.0);
      not_ahead = f.0;
      no_overflow = f.1;
    }

Extends-accepted :
    (header : BlockHeader) (context : HeaderContext) (params : ChainParams)
    → Extends header context
    → contextual_check_block_header header context params ≡ ok tt
unfolding contextual_check_block_header
Extends-accepted header context params e = rw (first, second, third, fourth, fifth) refl
  where
    first : not (header.prev_block == context.prev_hash) ≡ false
    first = ground (arith, e.prev, list_beq_iff header.prev_block context.prev_hash)

    second :
        (context.prev_height == 0xffff_ffff || not (header.height == context.prev_height + 1))
        ≡ false
    second = ground (arith, e.not_last, e.height)

    third : not (header.target_bits == context.expected_bits) ≡ false
    third = ground (arith, e.target)

    fourth : leb_ℤ header.timestamp context.median_time_past ≡ false
    fourth = ground (arith, e.after_median)

    fifth :
        past_ceiling header.timestamp (checked_add context.now (pos max_future_block_seconds))
        ≡ false
    fifth =
        within_ceiling-back header.timestamp context.now max_future_block_seconds e.not_ahead
          e.no_overflow

-- The contextual check accepts exactly the headers that extend their context: linked to the
-- predecessor, one higher than it and it not of the last height, with the expected target, later than
-- the median time, and at most an hour ahead of a clock that leaves an `int64_t` room for that hour.
pub contextual_check_block_header_iff :
    (header : BlockHeader) (context : HeaderContext) (params : ChainParams)
    → (contextual_check_block_header header context params ≡ ok tt) ↔ Extends header context
contextual_check_block_header_iff header context params =
    (accepted-Extends header context params, Extends-accepted header context params)
