-- ===== src/Consensus/Validation.antt =====
-- The consensus rules of src/consensus/validation.cpp: `ValidationError`, with a constructor for each
-- rule, and the checks in the child modules. A verdict is `ok` or the rule that refused.
pub mod Structure
pub mod Spend
pub mod Fee
pub mod Threshold
pub mod Distinct
pub mod Maturity
pub mod Accepted
pub mod AcceptedBlock
pub mod Timestamps
pub mod Header
pub mod Blocks
use amarian_amr.Base.Result.{Result}

pub data ValidationError : Type 0 where
  header_target_malformed header_target_below_floor header_insufficient_work : ValidationError
  header_wrong_height header_wrong_prev_block header_unexpected_target : ValidationError
  header_timestamp_too_old header_timestamp_too_far_ahead : ValidationError
  tx_no_inputs tx_no_outputs tx_duplicate_input tx_null_outpoint : ValidationError
  tx_amount_out_of_range tx_output_sum_out_of_range tx_weight_too_large : ValidationError
  tx_too_many_inputs tx_too_many_outputs tx_witness_count_mismatch : ValidationError
  tx_coinbase_has_witnesses tx_coinbase_data_too_large : ValidationError
  tx_coinbase_data_on_non_coinbase : ValidationError
  condition_version_reserved condition_no_keys condition_too_many_keys : ValidationError
  condition_keys_not_strictly_ordered condition_key_scheme_reserved : ValidationError
  condition_threshold_zero condition_threshold_above_key_count : ValidationError
  witness_signature_count_mismatch witness_signature_scheme_reserved : ValidationError
  condition_key_wrong_size witness_signature_wrong_size : ValidationError
  tx_coinbase_authorises_nothing tx_spent_output_count_mismatch : ValidationError
  tx_spends_unspendable_output tx_condition_does_not_match_lock : ValidationError
  tx_signature_does_not_verify tx_input_sum_out_of_range tx_outputs_exceed_inputs : ValidationError
  tx_input_missing_or_spent tx_coinbase_not_mature tx_creates_existing_outpoint : ValidationError
  block_no_transactions block_too_many_transactions block_first_tx_not_coinbase : ValidationError
  block_multiple_coinbases block_weight_too_large block_merkle_root_mismatch : ValidationError
  block_coinbase_wrong_height block_duplicate_spend block_coinbase_pays_too_much : ValidationError
  block_fees_out_of_range : ValidationError

abbrev pub Computed {ℓ} : Type ℓ → Type ℓ
Computed A = Result ValidationError A

abbrev pub Verdict : Type 0
Verdict = Computed (Unit {0})
