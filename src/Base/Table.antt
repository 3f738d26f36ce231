-- ===== src/Base/Table.antt =====
-- A hash map with unique keys, as an association list.

use mathlib.Core.Path.{◌≡◌, refl}
use mathlib.Core.Option.{Option, none, some}
use mathlib.Core.List.{List, [], ◌∷◌}
use native.Mathlib.Omega.{arith}
use amarian_amr.Base.Tests.{Eq, ◌==◌, if◌then◌else◌}

module _ {ℓ κ} {K : Type ℓ} {V : Type κ} ⦃e : Eq K⦄ where
  unfoldable pub find : K → List (K × V) → Option V
  find k [] = none
  find k ((j, v) ∷ t) = if j == k then some v else find k t

  unfoldable pub insert : K → V → List (K × V) → List (K × V)
  insert k v [] = (k, v) ∷ []
  insert k v ((j, w) ∷ t) = if j == k then (k, v) ∷ t else (j, w) ∷ insert k v t

  unfoldable pub erase : K → List (K × V) → List (K × V)
  erase k [] = []
  erase k ((j, w) ∷ t) = if j == k then erase k t else (j, w) ∷ erase k t

  pub find-insert :
      (k j : K) (v : V) (t : List (K × V))
      → find j (insert k v t) ≡ (if k == j then some v else find j t)
  unfolding find insert
  find-insert k j v [] = refl
  find-insert k j v ((i, w) ∷ t) =
      ground (arith, e.same_iff k j, e.same_iff i k, e.same_iff i j, find-insert k j v t)

  pub find-erase :
      (k j : K) (t : List (K × V)) → find j (erase k t) ≡ (if k == j then none else find j t)
  unfolding find erase
  find-erase k j [] = ground arith
  find-erase k j ((i, w) ∷ t) =
      ground (arith, e.same_iff k j, e.same_iff i k, e.same_iff i j, find-erase k j t)

  -- No key stands twice.
  abbrev pub Distinct : List (K × V) → Type κ
  Distinct [] = Unit
  Distinct ((k, v) ∷ t) = (find k t ≡ none) × Distinct t

  pub insert-Distinct : (k : K) (v : V) (t : List (K × V)) → Distinct t → Distinct (insert k v t)
  unfolding insert find
  insert-Distinct k v [] d = (refl, tt)
  insert-Distinct k v ((j, w) ∷ t) d =
      ground (arith, e.same_iff j k, e.same_iff k j, find-insert k j v t, insert-Distinct k v t d.1)

  pub erase-Distinct : (k : K) (t : List (K × V)) → Distinct t → Distinct (erase k t)
  unfolding erase find
  erase-Distinct k [] d = tt
  erase-Distinct k ((j, w) ∷ t) d =
      ground (arith, e.same_iff k j, find-erase k j t, erase-Distinct k t d.1)
