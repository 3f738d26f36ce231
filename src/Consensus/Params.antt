-- ===== src/Consensus/Params.antt =====
-- The chain parameters: include/amarian/consensus/params.hpp. The network's name is left out.
use amarian_amr.Base.{ℕ, ◌*◌, ◌/◌, Bool, true, false, [], ◌∷◌}
use amarian_amr.Base.Int.{ℤ, pos}
use amarian_amr.Primitives.Hash.{Hash256}
use amarian_amr.Primitives.Transaction
use amarian_amr.Primitives.Transaction.{TxLimits}
use amarian_amr.Primitives.Block.{BlockLimits}
use amarian_amr.Consensus.Issuance.{IssuanceParams, mainnet_issuance}

pub data Network : Type 0 where
  mainnet testnet regtest : Network

abbrev pub max_block_weight : ℕ
max_block_weight = 2_000_000

abbrev pub target_block_seconds : ℕ
target_block_seconds = 300

abbrev pub coinbase_maturity : ℕ
coinbase_maturity = 200

abbrev pub max_future_block_seconds : ℕ
max_future_block_seconds = 3_600

abbrev pub median_time_span : ℕ
median_time_span = 11

abbrev pub max_spend_condition_keys : ℕ
max_spend_condition_keys = 16

abbrev pub max_lock_program_bytes : ℕ
max_lock_program_bytes = 128

abbrev pub max_public_key_bytes : ℕ
max_public_key_bytes = 4_096

abbrev pub max_signature_bytes : ℕ
max_signature_bytes = 8_192

abbrev pub max_coinbase_data_bytes : ℕ
max_coinbase_data_bytes = 100

-- How many structures of a minimal size the block weight could hold.
abbrev pub weight_bounded_count : ℕ → ℕ
weight_bounded_count min_base_bytes =
    max_block_weight / (Transaction.witness_scale_factor * min_base_bytes)

abbrev pub consensus_tx_limits : TxLimits
consensus_tx_limits = record {
  max_inputs = weight_bounded_count Transaction.input_serialized_size;
  max_outputs = weight_bounded_count Transaction.output_min_serialized_size;
  max_witnesses = weight_bounded_count Transaction.input_serialized_size;
  max_lock_program_size = max_lock_program_bytes;
  witness = record {
    max_keys = max_spend_condition_keys;
    max_key_size = max_public_key_bytes;
    max_signatures = max_spend_condition_keys;
    max_signature_size = max_signature_bytes;
  };
  max_coinbase_data_size = max_coinbase_data_bytes;
}

abbrev pub consensus_block_limits : BlockLimits
consensus_block_limits = record {
  max_transactions = weight_bounded_count Transaction.min_serialized_size;
  tx = consensus_tx_limits;
}

pub record ChainParams : Type 0 where
  pub network : Network
  pub chain_id : Hash256
  pub default_p2p_port : ℕ
  pub default_rpc_port : ℕ
  pub pow_limit_bits : ℕ
  pub genesis_bits : ℕ
  pub genesis_timestamp : ℤ
  pub genesis_nonce : ℕ
  pub genesis_hash : Hash256
  pub target_block_seconds : ℤ
  pub asert_half_life_seconds : ℤ
  pub coinbase_maturity : ℕ
  pub max_block_weight : ℕ
  pub block_limits : BlockLimits
  pub issuance : IssuanceParams
  pub allow_min_difficulty_blocks : Bool
  pub trivial_difficulty : Bool

abbrev pub mainnet_chain_id : Hash256
mainnet_chain_id =
    0x4c ∷ 0x6c ∷ 0x27 ∷ 0xec ∷ 0x0a ∷ 0xa1 ∷ 0xb5 ∷ 0x9e ∷ 0x12 ∷ 0x5e ∷ 0x4b ∷ 0x9d ∷ 0xae ∷ 0x51
    ∷ 0x55 ∷ 0x99 ∷ 0x30 ∷ 0xef ∷ 0xde ∷ 0xc0 ∷ 0x1a ∷ 0xd1 ∷ 0xa6 ∷ 0xe0 ∷ 0x35 ∷ 0x0f ∷ 0x66
    ∷ 0x76 ∷ 0x9d ∷ 0x6a ∷ 0x8b ∷ 0xb9 ∷ []

abbrev pub mainnet_genesis_hash : Hash256
mainnet_genesis_hash =
    0x2f ∷ 0x66 ∷ 0x76 ∷ 0xb3 ∷ 0x1a ∷ 0xfe ∷ 0x1f ∷ 0x1f ∷ 0x56 ∷ 0xaf ∷ 0x82 ∷ 0xf5 ∷ 0x43 ∷ 0xc2
    ∷ 0x6b ∷ 0xf0 ∷ 0x62 ∷ 0xf5 ∷ 0xd2 ∷ 0x94 ∷ 0xbe ∷ 0x25 ∷ 0x6e ∷ 0xf3 ∷ 0x49 ∷ 0xd6 ∷ 0x72
    ∷ 0x18 ∷ 0x00 ∷ 0x00 ∷ 0x00 ∷ 0x00 ∷ []

abbrev pub mainnet_params : ChainParams
mainnet_params = record {
  network = mainnet;
  chain_id = mainnet_chain_id;
  default_p2p_port = 12500;
  default_rpc_port = 12501;
  pow_limit_bits = 0x1d00ffff;
  genesis_bits = 0x1d00ffff;
  genesis_timestamp = pos 1_788_598_800;
  genesis_nonce = 570_575_708;
  genesis_hash = mainnet_genesis_hash;
  target_block_seconds = pos target_block_seconds;
  asert_half_life_seconds = pos 172800;
  coinbase_maturity = 200;
  max_block_weight = max_block_weight;
  block_limits = consensus_block_limits;
  issuance = mainnet_issuance;
  allow_min_difficulty_blocks = false;
  trivial_difficulty = false;
}

abbrev pub testnet_chain_id : Hash256
testnet_chain_id =
    0xe2 ∷ 0x9a ∷ 0x85 ∷ 0xd4 ∷ 0x36 ∷ 0x91 ∷ 0x6c ∷ 0xf8 ∷ 0x6e ∷ 0x92 ∷ 0x07 ∷ 0x4f ∷ 0x76 ∷ 0xf3
    ∷ 0x0b ∷ 0x4a ∷ 0x7d ∷ 0x7f ∷ 0xaa ∷ 0x5b ∷ 0x07 ∷ 0x4c ∷ 0xba ∷ 0xde ∷ 0xb5 ∷ 0x9d ∷ 0xa8
    ∷ 0x28 ∷ 0xa5 ∷ 0xf4 ∷ 0x67 ∷ 0xfe ∷ []

abbrev pub testnet_genesis_hash : Hash256
testnet_genesis_hash =
    0xc0 ∷ 0x76 ∷ 0x28 ∷ 0x33 ∷ 0xd5 ∷ 0xc2 ∷ 0x45 ∷ 0x50 ∷ 0x40 ∷ 0x06 ∷ 0xf8 ∷ 0x76 ∷ 0xe4 ∷ 0x93
    ∷ 0x33 ∷ 0x1e ∷ 0x93 ∷ 0x23 ∷ 0x2e ∷ 0xbb ∷ 0x05 ∷ 0xc9 ∷ 0x36 ∷ 0x25 ∷ 0x18 ∷ 0xc1 ∷ 0xc5
    ∷ 0x37 ∷ 0x00 ∷ 0x00 ∷ 0x00 ∷ 0x00 ∷ []

abbrev pub testnet_params : ChainParams
testnet_params = record {
  network = testnet;
  chain_id = testnet_chain_id;
  default_p2p_port = 12510;
  default_rpc_port = 12511;
  pow_limit_bits = 0x1d00ffff;
  genesis_bits = 0x1d00ffff;
  genesis_timestamp = pos 1_788_598_800;
  genesis_nonce = 2_119_016_593;
  genesis_hash = testnet_genesis_hash;
  target_block_seconds = pos target_block_seconds;
  asert_half_life_seconds = pos 3600;
  coinbase_maturity = 200;
  max_block_weight = max_block_weight;
  block_limits = consensus_block_limits;
  issuance = record { era_blocks = 1_050; initial_reward = pos 100_000_000_000 };
  allow_min_difficulty_blocks = true;
  trivial_difficulty = false;
}

abbrev pub regtest_chain_id : Hash256
regtest_chain_id =
    0x75 ∷ 0xb9 ∷ 0xd4 ∷ 0xc0 ∷ 0x43 ∷ 0xf1 ∷ 0xdd ∷ 0x98 ∷ 0x8b ∷ 0x02 ∷ 0x03 ∷ 0x5a ∷ 0x28 ∷ 0xc6
    ∷ 0xa2 ∷ 0x26 ∷ 0x74 ∷ 0x1c ∷ 0x9f ∷ 0x91 ∷ 0xef ∷ 0xc3 ∷ 0x5b ∷ 0xd3 ∷ 0xcd ∷ 0xe7 ∷ 0x65
    ∷ 0x53 ∷ 0xe0 ∷ 0x1f ∷ 0xa5 ∷ 0xcc ∷ []

abbrev pub regtest_genesis_hash : Hash256
regtest_genesis_hash =
    0x67 ∷ 0xa9 ∷ 0xbd ∷ 0x37 ∷ 0x62 ∷ 0xba ∷ 0x7a ∷ 0x70 ∷ 0x1c ∷ 0x3f ∷ 0x2c ∷ 0x88 ∷ 0x2e ∷ 0xcf
    ∷ 0x3a ∷ 0xca ∷ 0xfb ∷ 0x1e ∷ 0x4c ∷ 0xa4 ∷ 0xf7 ∷ 0x63 ∷ 0x9a ∷ 0xfd ∷ 0x96 ∷ 0xc1 ∷ 0x61
    ∷ 0xa7 ∷ 0x2f ∷ 0x8d ∷ 0x24 ∷ 0x02 ∷ []

abbrev pub regtest_params : ChainParams
regtest_params = record {
  network = regtest;
  chain_id = regtest_chain_id;
  default_p2p_port = 12520;
  default_rpc_port = 12521;
  pow_limit_bits = 0x207fffff;
  genesis_bits = 0x207fffff;
  genesis_timestamp = pos 1_788_598_800;
  genesis_nonce = 3;
  genesis_hash = regtest_genesis_hash;
  target_block_seconds = pos target_block_seconds;
  asert_half_life_seconds = pos 3600;
  coinbase_maturity = 20;
  max_block_weight = max_block_weight;
  block_limits = consensus_block_limits;
  issuance = record { era_blocks = 105; initial_reward = pos 100_000_000_000 };
  allow_min_difficulty_blocks = true;
  trivial_difficulty = true;
}

-- `ParamsFor`.
abbrev pub params_for : Network → ChainParams
params_for mainnet = mainnet_params
params_for testnet = testnet_params
params_for regtest = regtest_params
