-- ===== src/Lib.antt =====
-- Amarian: the consensus core of a proof-of-work chain with threshold spend conditions.
--
-- The program's parts and where they are modelled:
--   Wire          the canonical codec (include/amarian/util/serialize.hpp, src/util/serialize.cpp).
--                 A `Writer` is the bytes it appends; a `Reader` is the bytes not yet consumed and the
--                 sticky `ok`. `IsCodec` is what each pair Serialize/Deserialize owes.
--   Hex           src/util/hex.cpp, on lists of character codes.
--   Primitives    the structures of include/amarian/primitives and src/primitives with their encodings,
--                 one module for each header; Digests has the identifiers, the signature digests
--                 (src/primitives/sighash.cpp) and the Merkle root (src/primitives/merkle.cpp).
--   Crypto        src/crypto/hash.cpp and src/crypto/signature.cpp. SHA-256, libsecp256k1 and OpenSSL are
--                 not part of the repository: they are the fields of `Backend`, and every definition
--                 that hashes or verifies takes one. The theorems on signature hashes assume that a hash
--                 has 32 bytes, and Digests/Binding says what a signature is bound to unless two of
--                 the messages collide; no other theorem assumes anything of them.
--   Consensus     Issuance (include/amarian/consensus/issuance.hpp), Params (params.hpp), Target
--                 (src/consensus/target.cpp), SchemeLifecycle (src/consensus/scheme_lifecycle.cpp)
--                 and Validation (src/consensus/validation.cpp), whose children
--                 are Structure (a value alone), Spend (inputs against coins), Header and Blocks. The
--                 other children prove: Fee, Threshold, Distinct, Maturity, Accepted,
--                 AcceptedBlock and Timestamps.
--                 Wide and Asert are src/consensus/asert.cpp (a `Wide` is five words, low first), Work is
--                 src/consensus/work.cpp; Asert/Exact, Asert/Quotient, Asert/Exponent and Work/Exact
--                 prove what they compute.
--   Chain         src/chain/block_index.cpp: Index is the tree of headers and AddHeader, Marks is
--                 RecordValidity and RecordFailure, Switch is PlanChainSwitch. A pointer to an entry is
--                 the hash under which the index holds it. Linked is the tree, Best the choice of
--                 the best header, Failure the walk that marks descendants, Sound the invariant
--                 and Sound/Reach the calls as a step relation; Switch/Paths, Retreat, Meet and
--                 Fork are about the loops of PlanChainSwitch. Store is src/chain/block_store.cpp, State
--                 and Activate are src/chain/chain_state.cpp: a step takes a state to an answer and a
--                 state, so that what an error leaves changed is there. The sink that makes a state
--                 durable (`ChainSink`) is an interface with the law that committing a tip that the sink
--                 takes changes none of the coins that the cache shows. Nothing is known of the cache
--                 after a tip that it refuses, and the theorems on State end there. State/Replay says what the active chain and the
--                 coins owe to each other, State/Kept, Connect, Disconnect, Accept,
--                 Revert and Activate/Kept prove it.
--   Utxo          Coins (src/utxo/coins.cpp): the cache of changes as an association list over a view;
--                 Coins/Laws refines it to a function from outpoints to coins. Connect and Undo are
--                 src/utxo/connect.cpp; Ledger is the interface `Store` between the two, so that the
--                 loops of ConnectBlock and DisconnectBlock run on the cache and on the plain set alike.
--   Tests         a small chain on which the definitions run and the theorems are applied.
--
-- How they interact: ConnectBlock opens a cache over the caller's (`over`), spends and adds
-- through it, asks CheckTransactionInputs for each fee and CheckCoinbaseAmount for the supply
-- rule, and flushes. An error is a value of `ValidationError` or `DisconnectError` and leaves the
-- caller's cache alone. AddHeader asks CheckBlockHeader and ContextualCheckBlockHeader, the latter
-- with the target bits of ASERT, and adds the work of the header to that of its parent.
-- ActivateBestChain asks the index for its best header and for a plan, and runs ConnectBlock and
-- DisconnectBlock along it on the caller's cache; a block that breaks a rule goes to
-- RecordFailure.
--
-- Integers: ℕ is the native one. `int64_t` is ℤ with the range written out where the code checks it
-- (`in_i64`, `is_valid_amount`); the issuance schedule checks nothing, and a result that does not
-- fit, which C++ leaves undefined, wraps around here (`wrap_i64`); the casts to `uint32_t` and
-- `uint64_t` are written out. The fields of the structures are not bounded by their types: the
-- theorems on encodings take the bounds as hypotheses (`Fits`) or conclude them.
--
-- Fuel: `era_count_loop` and `total_loop` run while the reward is positive, and a round lowers it,
-- so that the reward plus one is enough, which the theorems on the schedule include. `merkle_fold`
-- has the number of leaves, `walk_subtree` the number of entries and one more, the walks of an
-- index the height that they start from. The passes of ActivateBestChain have a fuel that is an
-- argument: the theorems hold for any. Every other loop is structural.
--
-- `std::unordered_set` is the list of its elements, `std::unordered_map` an association list,
-- `std::nth_element` the same place of the sorted window. The texts of `Describe` and of log lines are
-- left out.
--
-- Not modelled: genesis blocks, a bound for the passes of ActivateBestChain, src/storage, the
-- memory pool, block assembly, src/net, src/rpc, src/wallet, src/explorer and the programs, which
-- are built on this core or are input and output.
pub mod Base
pub mod Hex
pub mod Wire
pub mod Primitives
pub mod Crypto
pub mod Consensus
pub mod Utxo
pub mod Chain
pub mod Tests
