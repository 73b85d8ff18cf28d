-- ===== src/Prelude/Assoc.antt =====
-- A map with numeric keys as an association list: `DashMap<u64, _>`. A write replaces what the key
-- held, so `size` counts keys.
use Prim.Native.Nat.{ℕ, ◌+◌, ◌≤◌, ◌<◌}
use mathlib.Core.List.{List, [], ◌∷◌}
use mathlib.Core.Option.{Option, none, some}
use mathlib.Core.Path.{◌≡◌}
use native.Mathlib.Omega.{arith}
use play_cpp_sdk.Prelude.Tests.{◌==◌, if◌then◌else◌}
use play_cpp_sdk.Prelude.Lists.{length}

module _ {ℓ} {V : Type ℓ} where
  unfoldable pub lookup : ℕ → List (ℕ × V) → Option V
  lookup k [] = none
  lookup k ((j, v) ∷ m) = if j == k then some v else lookup k m

  unfoldable pub erase : ℕ → List (ℕ × V) → List (ℕ × V)
  erase k [] = []
  erase k ((j, v) ∷ m) = if j == k then erase k m else (j, v) ∷ erase k m

  unfoldable pub insert : ℕ → V → List (ℕ × V) → List (ℕ × V)
  unfolding erase
  insert k v m = (k, v) ∷ erase k m

  pub lookup-erase :
      (k j : ℕ) (m : List (ℕ × V)) → lookup k (erase j m) ≡ (if j == k then none else lookup k m)
  unfolding lookup erase
  lookup-erase k j [] = ground arith
  lookup-erase k j ((i, v) ∷ m) = ground (arith, lookup-erase k j m)

  pub lookup-insert :
      (k j : ℕ) (v : V) (m : List (ℕ × V))
      → lookup k (insert j v m) ≡ (if j == k then some v else lookup k m)
  unfolding insert lookup
  lookup-insert k j v m = ground (arith, lookup-erase k j m)

  pub length-erase : (k : ℕ) (m : List (ℕ × V)) → length (erase k m) ≤ length m
  unfolding erase
  length-erase k [] = omega arith
  length-erase k ((j, v) ∷ m) = ground (arith, length-erase k m)

  pub length-erase_found :
      (k : ℕ) (m : List (ℕ × V)) (v : V) → lookup k m ≡ some v → length (erase k m) < length m
  unfolding lookup erase
  length-erase_found k [] v h = cc
  length-erase_found k ((j, w) ∷ m) v h = ground (arith, length-erase k m, length-erase_found k m v)

  pub length-insert : (k : ℕ) (v : V) (m : List (ℕ × V)) → length (insert k v m) ≤ length m + 1
  unfolding insert
  length-insert k v m = omega (arith, length-erase k m)
