-- ===== src/Crypto.antt =====
-- Hashing and the registry of signature schemes: src/crypto/hash.cpp and src/crypto/signature.cpp.
-- SHA-256, libsecp256k1 and the signatures of OpenSSL are libraries: they are the fields of `Backend`.
use Prim.Native.Char.{code}
use Prim.Native.String.{String}
use amarian_amr.Base.{
  ℕ, Bool, not, ◌||◌, Option, none, some, List, [], ◌∷◌, ◌++◌, ◌==◌, nat_eq, if◌then◌else◌, length,
}
use amarian_amr.Primitives.Hash.{Hash256}

-- What the libraries answer. `schnorr_parse` is `secp256k1_xonly_pubkey_parse`, `openssl_ready` says
-- that the algorithm was fetched, and `openssl_key` that a key and its context could be made.
pub record Backend : Type 0 where
  pub sha256 : List ℕ → Hash256
  pub schnorr_parse : List ℕ → Bool
  pub schnorr_verify : List ℕ → List ℕ → Hash256 → Bool
  pub openssl_ready : ℕ → Bool
  pub openssl_key : ℕ → List ℕ → Bool
  pub openssl_verify : ℕ → List ℕ → List ℕ → Hash256 → Bool

-- The bytes of an ASCII tag.
abbrev pub codes : String → List ℕ
codes String.[] = []
codes (String.◌∷◌ c s) = code c ∷ codes s

abbrev pub scheme_schnorr_secp256k1 : ℕ
scheme_schnorr_secp256k1 = 1

abbrev pub scheme_ml_dsa_44 : ℕ
scheme_ml_dsa_44 = 2

abbrev pub scheme_slh_dsa_sha2_128s : ℕ
scheme_slh_dsa_sha2_128s = 3

pub record SchemeSpec : Type 0 where
  pub id : ℕ
  pub public_key_bytes : ℕ
  pub signature_bytes : ℕ

abbrev pub schemes : List SchemeSpec
schemes =
    record { id = scheme_schnorr_secp256k1; public_key_bytes = 32; signature_bytes = 64 }
    ∷ record { id = scheme_ml_dsa_44; public_key_bytes = 1312; signature_bytes = 2420 }
    ∷ record { id = scheme_slh_dsa_sha2_128s; public_key_bytes = 32; signature_bytes = 7856 }
    ∷ []

unfoldable pub find_in : List SchemeSpec → ℕ → Option SchemeSpec
find_in [] id = none
find_in (s ∷ rest) id = if s.id == id then some s else find_in rest id

-- `FindScheme`.
unfoldable pub find_scheme : ℕ → Option SchemeSpec
unfolding find_in
find_scheme id = find_in schemes id

pub data VerifyResult : Type 0 where
  valid invalid reserved unknown_scheme malformed : VerifyResult

module _ (b : Backend) where
  unfoldable pub sha256 : List ℕ → Hash256
  sha256 bytes = b.sha256 bytes

  unfoldable pub double_sha256 : List ℕ → Hash256
  unfolding sha256
  double_sha256 bytes = sha256 (sha256 bytes)

  unfoldable pub tagged_hash : String → List ℕ → Hash256
  unfolding sha256
  tagged_hash tag message =
      let tag_hash = sha256 (codes tag) in sha256 ((tag_hash ++ tag_hash) ++ message)

  unfoldable pub verify_schnorr : List ℕ → List ℕ → Hash256 → VerifyResult
  verify_schnorr public_key signature message =
      if not (b.schnorr_parse public_key)
      then malformed
      else if b.schnorr_verify public_key signature message
      then valid
      else invalid

  -- The schemes with an OpenSSL name.
  unfoldable pub has_openssl_name : ℕ → Bool
  has_openssl_name scheme = scheme == scheme_ml_dsa_44 || scheme == scheme_slh_dsa_sha2_128s

  unfoldable pub verify_with_openssl : ℕ → List ℕ → List ℕ → Hash256 → VerifyResult
  unfolding has_openssl_name
  verify_with_openssl scheme public_key signature message =
      if not (has_openssl_name scheme) || not (b.openssl_ready scheme)
      then malformed
      else if not (b.openssl_key scheme public_key)
      then malformed
      else if b.openssl_verify scheme public_key signature message
      then valid
      else invalid

  unfoldable pub verify_sized : SchemeSpec → ℕ → List ℕ → List ℕ → Hash256 → VerifyResult
  unfolding verify_schnorr verify_with_openssl
  verify_sized spec scheme public_key signature message =
      if not (length public_key == spec.public_key_bytes)
        || not (length signature == spec.signature_bytes)
      then malformed
      else if scheme == scheme_schnorr_secp256k1
      then verify_schnorr public_key signature message
      else if scheme == scheme_ml_dsa_44 || scheme == scheme_slh_dsa_sha2_128s
      then verify_with_openssl scheme public_key signature message
      else malformed

  unfoldable pub verify_found : Option SchemeSpec → ℕ → List ℕ → List ℕ → Hash256 → VerifyResult
  unfolding verify_sized
  verify_found none scheme public_key signature message = unknown_scheme
  verify_found (some spec) scheme public_key signature message =
      verify_sized spec scheme public_key signature message

  unfoldable pub verify : ℕ → List ℕ → List ℕ → Hash256 → VerifyResult
  unfolding verify_found
  verify scheme public_key signature message =
      if scheme == 0
      then reserved
      else verify_found (find_scheme scheme) scheme public_key signature message
