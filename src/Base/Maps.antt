-- ===== src/Base/Maps.antt =====
-- Maps keyed by texts, as association lists: the operations of a Go map and how they read.
use Prim.Native.Nat.{suc, ◌≤◌, ◌<◌}
use Prim.Native.String.{String}
use mathlib.Core.Path.{◌≡◌, refl}
use mathlib.Core.Option.{Option, none, some}
use mathlib.Core.List.{List, [], ◌∷◌}
use native.Mathlib.Omega.{arith}
use text.Mathlib.TextEquality.{eq_iff}
use proxy_core.Base.Tests.{if◌then◌else◌, str_eq}
use proxy_core.Base.Lists.{length}

module _ {ℓ} {V : Type ℓ} where
  unfoldable pub lookup : String → List (String × V) → Option V
  lookup k [] = none
  lookup k ((j, v) ∷ m) = let rest = lookup k m in if str_eq j k then some v else rest

  unfoldable pub erase : String → List (String × V) → List (String × V)
  erase k [] = []
  erase k ((j, v) ∷ m) = let rest = erase k m in if str_eq j k then rest else (j, v) ∷ rest

  unfoldable pub insert : String → V → List (String × V) → List (String × V)
  insert k v m = (k, v) ∷ erase k m

  pub lookup-erase :
      (k j : String) (m : List (String × V))
      → lookup j (erase k m) ≡ (if str_eq k j then none else lookup j m)
  unfolding lookup erase
  lookup-erase k j [] = ground arith
  lookup-erase k j ((i, w) ∷ m) =
      ground (arith, eq_iff k j, eq_iff i k, eq_iff i j, lookup-erase k j m)

  pub lookup-insert :
      (k j : String) (v : V) (m : List (String × V))
      → lookup j (insert k v m) ≡ (if str_eq k j then some v else lookup j m)
  unfolding lookup insert
  lookup-insert k j v m = ground (arith, lookup-erase k j m)

  pub length-erase-le : (k : String) (m : List (String × V)) → length (erase k m) ≤ length m
  unfolding erase
  length-erase-le k [] = omega arith
  length-erase-le k ((j, w) ∷ m) = ground (arith, length-erase-le k m)

  -- A key that is there leaves a shorter map.
  pub length-erase-lt :
      (k : String) (m : List (String × V)) {v : V}
      → lookup k m ≡ some v
      → length (erase k m) < length m
  unfolding lookup erase
  length-erase-lt k [] h = absurd (ground arith)
  length-erase-lt k ((j, w) ∷ m) {v} h =
      ground (arith, length-erase-le k m, length-erase-lt k m {v = v})

  length-erase-absent :
      (k : String) (m : List (String × V)) → lookup k m ≡ none → length (erase k m) ≡ length m
  unfolding lookup erase
  length-erase-absent k [] h = refl
  length-erase-absent k ((j, w) ∷ m) h = ground (arith, length-erase-absent k m)

  -- No key stands twice.
  abbrev pub Distinct : List (String × V) → Type ℓ
  Distinct [] = Unit
  Distinct ((k, v) ∷ m) = (lookup k m ≡ none) × Distinct m

  pub length-erase :
      (k : String) (m : List (String × V)) {v : V}
      → Distinct m
      → lookup k m ≡ some v
      → suc (length (erase k m)) ≡ length m
  unfolding lookup erase
  length-erase k [] d h = absurd (ground arith)
  length-erase k ((j, w) ∷ m) {v} (d, ds) h =
      ground (arith, eq_iff j k, length-erase-absent k m, length-erase k m {v = v} ds)

  pub erase-Distinct : (k : String) (m : List (String × V)) → Distinct m → Distinct (erase k m)
  unfolding erase
  erase-Distinct k [] d = tt
  erase-Distinct k ((j, w) ∷ m) (d, ds) =
      ground (arith, lookup-erase k j m, eq_iff k j, eq_iff j k, erase-Distinct k m ds)

  pub insert-Distinct :
      (k : String) (v : V) (m : List (String × V)) → Distinct m → Distinct (insert k v m)
  unfolding insert
  insert-Distinct k v m d = (ground (arith, lookup-erase k k m, eq_iff k k), erase-Distinct k m d)
