-- ===== src/Base/Dict.antt =====
-- Go's `map[string]V` as an association list; the order of the list stands for the order in which
-- a `range` loop meets the entries.
use Prim.Native.Nat.{◌+◌, ◌≤◌}
use Prim.Native.String.{String}
use mathlib.Core.Path.{◌≡◌, refl}
use mathlib.Core.Option.{Option, none, some}
use mathlib.Core.Option
use mathlib.Core.List.{List, [], ◌∷◌}
use native.Mathlib.Omega.{arith}
use text.Mathlib.Text.{◌==◌ as str_eq}
use text.Mathlib.TextEquality.{eq_iff}
use radar_node.Base.Tests.{if◌then◌else◌}
use radar_node.Base.Lists.{length}

module _ {ℓ} {V : Type ℓ} where
  -- `m[key]`, with whether the key is there.
  unfoldable pub lookup : String → List (String × V) → Option V
  lookup key [] = none
  lookup key (entry ∷ rest) = if str_eq entry.0 key then some entry.1 else lookup key rest

  -- `if p, ok := m[key]; ok { *p = f(*p) }`.
  unfoldable pub modify : String → (V → V) → List (String × V) → List (String × V)
  modify key f [] = []
  modify key f (entry ∷ rest) =
      if str_eq entry.0 key then (entry.0, f entry.1) ∷ rest else entry ∷ modify key f rest

  -- `m[key] = value`.
  unfoldable pub insert : String → V → List (String × V) → List (String × V)
  insert key value [] = (key, value) ∷ []
  insert key value (entry ∷ rest) =
      if str_eq entry.0 key then (key, value) ∷ rest else entry ∷ insert key value rest

  -- `delete(m, key)`.
  unfoldable pub erase : String → List (String × V) → List (String × V)
  erase key [] = []
  erase key (entry ∷ rest) = if str_eq entry.0 key then rest else entry ∷ erase key rest

  pub lookup-modify :
      (key other : String) (f : V → V) (m : List (String × V))
      → lookup other (modify key f m)
        ≡ (if str_eq key other then Option.map f (lookup other m) else lookup other m)
  unfolding lookup modify
  lookup-modify key other f [] = ground arith
  lookup-modify key other f (entry ∷ rest) = ground (
    arith,
    lookup-modify key other f rest,
    eq_iff entry.0 other,
    eq_iff entry.0 key,
    eq_iff key other,
  )

  pub lookup-insert :
      (key other : String) (value : V) (m : List (String × V))
      → lookup other (insert key value m)
        ≡ (if str_eq key other then some value else lookup other m)
  unfolding lookup insert
  lookup-insert key other value [] = refl
  lookup-insert key other value (entry ∷ rest) = ground (
    arith,
    lookup-insert key other value rest,
    eq_iff entry.0 other,
    eq_iff entry.0 key,
    eq_iff key other,
  )

  pub length-insert-le :
      (key : String) (value : V) (m : List (String × V))
      → length (insert key value m) ≤ length m + 1
  unfolding insert
  length-insert-le key value [] = omega arith
  length-insert-le key value (entry ∷ rest) = ground (arith, length-insert-le key value rest)

  pub length-modify :
      (key : String) (f : V → V) (m : List (String × V)) → length (modify key f m) ≡ length m
  unfolding modify
  length-modify key f [] = refl
  length-modify key f (entry ∷ rest) = ground (arith, length-modify key f rest)
