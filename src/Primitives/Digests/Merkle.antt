-- ===== src/Primitives/Digests/Merkle.antt =====
-- The loop of `ComputeMerkleRoot` ends.
use amarian_amr.Base.{
  ℕ, zero, suc, ◌≤◌, not, ◌≡◌, refl, ◌∙◌, Option, none, some, List, [], ◌∷◌, map, arith, length,
  is_some, ◌==◌, nat_eq,
}
use amarian_amr.Crypto.{Backend, tagged_hash}
use amarian_amr.Primitives.Hash.{Hash256}
use amarian_amr.Primitives.Digests.{
  merkle_branch, merkle_level, merkle_fold, finish_root, compute_merkle_root, merkle_leaf_tag,
}

module _ (b : Backend) where
  length-merkle_level : (level : List Hash256) → length (merkle_level b level) ≤ length level
  unfolding merkle_level
  length-merkle_level [] = omega arith
  length-merkle_level (x ∷ []) = omega arith
  length-merkle_level (x ∷ y ∷ rest) = omega (arith, length-merkle_level rest)

  -- As many rounds as there are nodes are enough for a tree that has any.
  merkle_fold-ends :
      (fuel : ℕ) (level : List Hash256)
      → length level ≤ fuel
      → is_some (merkle_fold b fuel level) ≡ not (length level == 0)
  unfolding merkle_fold merkle_level
  merkle_fold-ends fuel [] h = refl
  merkle_fold-ends fuel (x ∷ []) h = refl
  merkle_fold-ends zero (x ∷ y ∷ rest) h = absurd (omega arith)
  merkle_fold-ends (suc fuel) (x ∷ y ∷ rest) h =
      merkle_fold-ends fuel (merkle_branch b x y ∷ merkle_level b rest)
        (omega (arith, length-merkle_level rest))
      ∙ ground arith

  length-map : (f : Hash256 → Hash256) (xs : List Hash256) → length (map f xs) ≡ length xs
  length-map f [] = refl
  length-map f (x ∷ xs) = omega (arith, length-map f xs)

  finish_root-some : (n : ℕ) (top : Option Hash256) → is_some (finish_root b n top) ≡ is_some top
  finish_root-some n none = refl
  finish_root-some n (some top) = refl

  -- Every list of identifiers but the empty one has a Merkle root: the loop ends with one node within
  -- as many rounds as there are identifiers.
  pub compute_merkle_root-total :
      (wtxids : List Hash256) → is_some (compute_merkle_root b wtxids) ≡ not (length wtxids == 0)
  unfolding compute_merkle_root
  compute_merkle_root-total wtxids =
      let leaves = map (tagged_hash b merkle_leaf_tag) wtxids in
      let same = length-map (tagged_hash b merkle_leaf_tag) wtxids in
      ground (
        arith,
        finish_root-some (length wtxids) (merkle_fold b (length wtxids) leaves),
        merkle_fold-ends (length wtxids) leaves (omega (arith, same)),
        same,
      )
