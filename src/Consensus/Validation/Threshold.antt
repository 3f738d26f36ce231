-- ===== src/Consensus/Validation/Threshold.antt =====
-- `SatisfiesThreshold` against a description that does not say in which order keys are tried.
use amarian_amr.Base.{
  ℕ, ◌≡◌, ◌↔◌, ◌⊎◌, inl, inr, refl, subst, true, false, Option, none, some, List, [], ◌∷◌, All,
  arith, ◌==◌, nat_eq, nat_beq_iff, Bool-cases,
}
use amarian_amr.Base.Result.{ok, >>=-eq_ok}
use amarian_amr.Crypto.{
  SchemeSpec, Backend, VerifyResult, valid, invalid, reserved, unknown_scheme, malformed, verify,
  verify_found, verify_sized, verify_schnorr, verify_with_openssl, find_scheme,
}
use amarian_amr.Primitives.Hash.{Hash256}
use amarian_amr.Primitives.SpendCondition.{PublicKey, Signature, scheme_reserved}
use amarian_amr.Primitives.Witness.{Witness}
use amarian_amr.Consensus.Validation.{Computed}
use amarian_amr.Consensus.Validation.Spend.{
  settle, match_signature, match_signatures, satisfies_threshold,
}

verify_found-answers :
    (b : Backend) (spec : Option SchemeSpec) (scheme : ℕ) (key signature : List ℕ)
    (message : Hash256)
    → verify_found b spec scheme key signature message ≡ reserved
    → ⊥
unfolding verify_found verify_sized verify_schnorr verify_with_openssl
verify_found-answers b none scheme key signature message h = cc
verify_found-answers b (some spec) scheme key signature message h = ground arith

-- Only scheme 0 is reserved.
verify-reserved :
    (b : Backend) (scheme : ℕ) (key signature : List ℕ) (message : Hash256)
    → (scheme == scheme_reserved) ≡ false
    → verify b scheme key signature message ≡ reserved
    → ⊥
unfolding verify
verify-reserved b scheme key signature message h k =
    verify_found-answers b (find_scheme scheme) scheme key signature message (rw h at k)

module _ (b : Backend) (message : Hash256) where
  -- The key answers the signature: it verifies it, or the scheme is one that this node does not know.
  abbrev pub Answers : PublicKey → Signature → Type 0
  Answers key signature =
      (key.scheme ≡ signature.scheme)
      × ((verify b signature.scheme key.bytes signature.bytes message ≡ valid)
          ⊎ (verify b signature.scheme key.bytes signature.bytes message ≡ unknown_scheme))

  -- Each signature is answered by a key of its own, and the keys stand in the signatures' order.
  unfoldable pub AnsweredInOrder : List PublicKey → List Signature → Type 0
  AnsweredInOrder keys [] = Unit {0}
  AnsweredInOrder [] (s ∷ ss) = ⊥
  AnsweredInOrder (k ∷ ks) (s ∷ ss) =
      (Answers k s × AnsweredInOrder ks ss) ⊎ AnsweredInOrder ks (s ∷ ss)

  -- How the walk goes on behind one key.
  data Step (k : PublicKey) (s : Signature) (ks : List PublicKey) (next : Computed (List PublicKey))
      : Computed (List PublicKey) → Type 0 where
    taken : Answers k s → Step k s ks next (ok ks)
    passed : (Answers k s → ⊥) → Step k s ks next next

  step :
      (k : PublicKey) (s : Signature) (ks : List PublicKey)
      → (s.scheme == scheme_reserved) ≡ false
      → Step k s ks (match_signature b ks s message) (match_signature b (k ∷ ks) s message)
  unfolding match_signature
  step k s ks h = elim (Bool-cases (k.scheme == s.scheme)) [
    | inr q ↦ rw q (passed (λ a. absurd (ground (arith, a.0))))
    | inl q ↦ rw q (settled (same q) (verify b s.scheme k.bytes s.bytes message) refl)
  ]
    where
      same : (k.scheme == s.scheme) ≡ true → k.scheme ≡ s.scheme
      same q = (nat_beq_iff k.scheme s.scheme).0 q

      settled :
          k.scheme ≡ s.scheme
          → (r : VerifyResult) → verify b s.scheme k.bytes s.bytes message ≡ r
          → Step k s ks
              (match_signature b ks s message)
              (settle r ks (match_signature b ks s message))
      settled q valid v = taken (q, inl v)
      settled q unknown_scheme v = taken (q, inr v)
      settled q invalid v = passed (λ a. elim a.1 [ inl w ↦ cc (v, w) | inr w ↦ cc (v, w) ])
      settled q malformed v = passed (λ a. elim a.1 [ inl w ↦ cc (v, w) | inr w ↦ cc (v, w) ])
      settled q reserved v = absurd (verify-reserved b s.scheme k.bytes s.bytes message h v)

  AnsweredInOrder-tail :
      (ks : List PublicKey) (s : Signature) (ss : List Signature)
      → AnsweredInOrder ks (s ∷ ss)
      → AnsweredInOrder ks ss
  unfolding AnsweredInOrder
  AnsweredInOrder-tail [] s ss h = absurd h
  AnsweredInOrder-tail (k ∷ ks) s [] h = tt
  AnsweredInOrder-tail (k ∷ ks) s (r ∷ rs) (inl p) = inr p.1
  AnsweredInOrder-tail (k ∷ ks) s (r ∷ rs) (inr m) = inr (AnsweredInOrder-tail ks s (r ∷ rs) m)

  module _ (s : Signature) (ss : List Signature) where
    nothing_left : (left : List PublicKey) → match_signature b [] s message ≡ ok left → ⊥
    unfolding match_signature
    nothing_left left q = cc (q)

    match_signature_sound :
        (ks left : List PublicKey)
        → (s.scheme == scheme_reserved) ≡ false
        → match_signature b ks s message ≡ ok left
        → AnsweredInOrder left ss
        → AnsweredInOrder ks (s ∷ ss)
    unfolding AnsweredInOrder
    match_signature_sound [] left h q m = absurd (nothing_left left q)
    match_signature_sound (k ∷ ks) left h q m =
        by_step (λ e. match_signature_sound ks left h e m) (match_signature b (k ∷ ks) s message)
          (step k s ks h) q
      where
        by_step :
            (match_signature b ks s message ≡ ok left → AnsweredInOrder ks (s ∷ ss))
            → (r : Computed (List PublicKey)) → Step k s ks (match_signature b ks s message) r
            → r ≡ ok left
            → AnsweredInOrder (k ∷ ks) (s ∷ ss)
        by_step ih r (taken a) e =
            let same : left ≡ ks = cc (e) in inl (a, subst (λ z. AnsweredInOrder z ss) same m)
        by_step ih r (passed n) e = inr (ih e)

    match_signature_complete :
        (ks : List PublicKey)
        → (s.scheme == scheme_reserved) ≡ false
        → AnsweredInOrder ks (s ∷ ss)
        → (left : List PublicKey) × (match_signature b ks s message ≡ ok left)
          × AnsweredInOrder left ss
    unfolding AnsweredInOrder
    match_signature_complete [] h m = absurd m
    match_signature_complete (k ∷ ks) h m =
        by_step (λ d. match_signature_complete ks h d) (match_signature b (k ∷ ks) s message)
          (step k s ks h) m
      where
        by_step :
            (AnsweredInOrder ks (s ∷ ss)
              → (left : List PublicKey) × (match_signature b ks s message ≡ ok left)
                × AnsweredInOrder left ss)
            → (r : Computed (List PublicKey)) → Step k s ks (match_signature b ks s message) r
            → (Answers k s × AnsweredInOrder ks ss) ⊎ AnsweredInOrder ks (s ∷ ss)
            → (left : List PublicKey) × (r ≡ ok left) × AnsweredInOrder left ss
        by_step ih r (taken a) (inl p) = (ks, refl, p.1)
        by_step ih r (taken a) (inr m) = (ks, refl, AnsweredInOrder-tail ks s ss m)
        by_step ih r (passed n) (inl p) = absurd (n p.0)
        by_step ih r (passed n) (inr m) = ih m

  -- No signature under the reserved scheme, as `CheckWitness` has it.
  abbrev pub NoneReserved : List Signature → Type 0
  NoneReserved ss = All (λ (s : Signature). (s.scheme == scheme_reserved) ≡ false) ss

  match_signatures_sound :
      (ss : List Signature) (ks : List PublicKey)
      → NoneReserved ss
      → match_signatures b ks ss message ≡ ok tt
      → AnsweredInOrder ks ss
  unfolding match_signatures
  match_signatures_sound [] ks n h = unfold AnsweredInOrder in tt
  match_signatures_sound (s ∷ ss) ks n h =
      let q =
        >>=-eq_ok (match_signature b ks s message) (λ left. match_signatures b left ss message) h in
      match_signature_sound s ss ks q.0 n.0 q.1 (match_signatures_sound ss q.0 n.1 q.2)

  match_signatures_complete :
      (ss : List Signature) (ks : List PublicKey)
      → NoneReserved ss
      → AnsweredInOrder ks ss
      → match_signatures b ks ss message ≡ ok tt
  unfolding match_signatures
  match_signatures_complete [] ks n h = refl
  match_signatures_complete (s ∷ ss) ks n h =
      let q = match_signature_complete s ss ks n.0 h in
      rw q.1 (match_signatures_complete ss q.0 n.1 q.2)

  -- When no signature of the witness is under scheme 0, `satisfies_threshold` accepts exactly when each
  -- signature is answered by a key of its own, keys and signatures in the same order: the walk that
  -- takes the first key that fits misses no such choice of keys, and accepts nothing else.
  pub satisfies_threshold_iff :
      (witness : Witness)
      → NoneReserved witness.signatures
      → (satisfies_threshold b witness message ≡ ok tt)
        ↔ AnsweredInOrder witness.condition.keys witness.signatures
  unfolding satisfies_threshold
  satisfies_threshold_iff witness n = (
    match_signatures_sound witness.signatures witness.condition.keys n,
    match_signatures_complete witness.signatures witness.condition.keys n,
  )
