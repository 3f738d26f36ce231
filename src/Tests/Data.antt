-- ===== src/Tests/Data.antt =====
-- A small chain: a toy hash that sums bytes, one coin, and a block that spends it.
use amarian_amr.Base.{◌≡◌, ltb, ◌&&◌, arith}
use amarian_amr.Base.Bytes.{AllBytes}
use amarian_amr.Base.{
  ℕ, ◌+◌, ◌%◌, refl, Bool, true, false, Option, none, some, List, [], ◌∷◌, replicate, if◌then◌else◌,
  ◌==◌, nat_eq, list_eq, is_some,
}
use amarian_amr.Base.Int.{pos}
use amarian_amr.Crypto.{Backend}
use amarian_amr.Primitives.OutPoint.{OutPoint, outpoint_eq}
use amarian_amr.Primitives.Lock.{Lock}
use amarian_amr.Primitives.SpendCondition.{SpendCondition, PublicKey, Signature}
use amarian_amr.Primitives.Witness.{Witness}
use amarian_amr.Primitives.Transaction.{Transaction, TxOutput}
use amarian_amr.Primitives.Coin.{Coin}
use amarian_amr.Primitives.Block.{Block}
use amarian_amr.Primitives.Digests.{spend_condition_commitment}
use amarian_amr.Utxo.Coins.{CoinsCache, as_view}

abbrev pub sum_bytes : List ℕ → ℕ
sum_bytes [] = 0
sum_bytes (x ∷ xs) = x + sum_bytes xs

-- Any key verifies the signatures that begin with its own first byte.
abbrev pub same_head : List ℕ → List ℕ → Bool
same_head (a ∷ as') (b ∷ bs) = a == b
same_head as' bs = false

abbrev pub toy : Backend
toy = record {
  sha256 = λ bytes. (sum_bytes bytes % 251) ∷ replicate 31 0;
  schnorr_parse = λ key. true;
  schnorr_verify = λ key signature message. same_head key signature;
  openssl_ready = λ scheme. false;
  openssl_key = λ scheme key. false;
  openssl_verify = λ scheme key signature message. false;
}

abbrev pub key_of : ℕ → PublicKey
key_of n = record { scheme = 1; bytes = replicate 32 n }

abbrev pub signature_of : ℕ → Signature
signature_of n = record { scheme = 1; bytes = replicate 64 n }

-- Two of three keys.
abbrev pub condition : SpendCondition
condition = record { version = 1; threshold = 2; keys = key_of 1 ∷ key_of 2 ∷ key_of 3 ∷ [] }

abbrev pub witness : Witness
witness = record { condition = condition; signatures = signature_of 1 ∷ signature_of 3 ∷ [] }

abbrev pub anyone : Lock
anyone = record { version = 2; program = [] }

abbrev pub output_of : ℕ → TxOutput
output_of n = record { amount = pos n; lock = anyone }

abbrev pub old_outpoint : OutPoint
old_outpoint = record { txid = replicate 32 9; index = 0 }

-- Locked to the condition.
abbrev pub locked : Lock
locked = record { version = 1; program = spend_condition_commitment toy condition }

abbrev pub old_coin : Coin
old_coin = record {
  output = record { amount = pos 500; lock = locked };
  height = 1;
  is_coinbase = true;
}

abbrev pub spend : Transaction
spend = record {
  version = 1;
  inputs = record { outpoint = old_outpoint; sequence = 0 } ∷ [];
  outputs = output_of 300 ∷ output_of 150 ∷ [];
  locktime = 0;
  witnesses = witness ∷ [];
  coinbase_data = [];
}

abbrev pub coinbase : Transaction
coinbase = record {
  version = 1;
  inputs =
      record { outpoint = record { txid = replicate 32 0; index = 0xffff_ffff }; sequence = 40 }
      ∷ [];
  outputs = output_of 1000 ∷ [];
  locktime = 0;
  witnesses = [];
  coinbase_data = 7 ∷ [];
}

abbrev pub block : Block
block = record {
  header = record {
    version = 1;
    height = 40;
    prev_block = replicate 32 5;
    merkle_root = replicate 32 6;
    timestamp = pos 1_800_000_000;
    target_bits = 0x207fffff;
    nonce = 3;
  };
  transactions = coinbase ∷ spend ∷ [];
}

-- A base that holds the one coin.
abbrev pub held : OutPoint → Option Coin
held o = if o == old_outpoint then some old_coin else none

abbrev pub start : CoinsCache
start = record {
  base = record { get = held; have = λ o. is_some (held o); have-get = λ o. refl };
  entries = [];
}

-- A cache over `start` with one coin more and one coin spent.
abbrev pub dirty : CoinsCache
dirty = record {
  base = as_view start;
  entries =
      (old_outpoint, none) ∷ (record { txid = replicate 32 8; index = 1 }, some old_coin) ∷ [];
}

-- A test that bytes are bytes.
abbrev pub all_bytes : List ℕ → Bool
all_bytes [] = true
all_bytes (x ∷ xs) = ltb x 256 && all_bytes xs

pub all_bytes-AllBytes : (xs : List ℕ) → all_bytes xs ≡ true → AllBytes xs
all_bytes-AllBytes [] h = tt
all_bytes-AllBytes (x ∷ xs) h = (ground arith, all_bytes-AllBytes xs (ground arith))
