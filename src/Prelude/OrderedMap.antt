-- ===== src/Prelude/OrderedMap.antt =====
-- `BTreeMap` with keys that are numbers: the list of its pairs in the order of the keys.
use Prim.Native.Nat.{ℕ, ◌≤◌, ◌<◌}
use mathlib.Core.Path.{◌≡◌, refl}
use mathlib.Core.Option.{Option, none, some}
use mathlib.Core.List.{List, [], ◌∷◌}
use native.Mathlib.Omega.{arith}
use towboot_rust.Prelude.Tests.{ltb, ◌==◌, if◌then◌else◌}

abbrev pub OrderedMap {ℓ} : Type ℓ → Type ℓ
OrderedMap V = List (ℕ × V)

module _ {ℓ} {V : Type ℓ} where
  unfoldable pub lookup : ℕ → OrderedMap V → Option V
  lookup k [] = none
  lookup k ((j, v) ∷ m) = if k == j then some v else lookup k m

  unfoldable pub insert : ℕ → V → OrderedMap V → OrderedMap V
  insert k v [] = (k, v) ∷ []
  insert k v ((j, u) ∷ m) =
      let rest = insert k v m in
      if ltb k j then (k, v) ∷ (j, u) ∷ m else if k == j then (k, v) ∷ m else (j, u) ∷ rest

  -- What `BTreeMap::insert` returns: the value that it replaces.
  unfoldable pub replaced : ℕ → OrderedMap V → Option V
  replaced k [] = none
  replaced k ((j, u) ∷ m) =
      let rest = replaced k m in if ltb k j then none else if k == j then some u else rest

  -- The values, in the order of the keys.
  abbrev pub values : OrderedMap V → List V
  values [] = []
  values ((_, u) ∷ m) = u ∷ values m

  unfoldable pub erase : ℕ → OrderedMap V → OrderedMap V
  erase k [] = []
  erase k ((j, u) ∷ m) = let rest = erase k m in if k == j then m else (j, u) ∷ rest

  -- The keys ascend.
  abbrev pub Above : ℕ → OrderedMap V → Type 0
  Above k [] = Unit
  Above k ((j, _) ∷ m) = (k < j) × Above k m

  abbrev pub IsOrdered : OrderedMap V → Type 0
  IsOrdered [] = Unit
  IsOrdered ((j, _) ∷ m) = Above j m × IsOrdered m

  pub lookup-insert :
      (j k : ℕ) (v : V) (m : OrderedMap V)
      → lookup j (insert k v m) ≡ (if j == k then some v else lookup j m)
  unfolding lookup insert
  lookup-insert j k v [] = refl
  lookup-insert j k v ((i, u) ∷ m) = ground (arith, lookup-insert j k v m)

  Above-insert : (i k : ℕ) (v : V) (m : OrderedMap V) → i < k → Above i m → Above i (insert k v m)
  unfolding insert
  Above-insert i k v [] h a = (h, tt)
  Above-insert i k v ((j, u) ∷ m) h (b, a) = ground (arith, Above-insert i k v m h a)

  Above-weaken : (i j : ℕ) (m : OrderedMap V) → i ≤ j → Above j m → Above i m
  Above-weaken i j [] h a = tt
  Above-weaken i j ((k, u) ∷ m) h (b, a) = (omega arith, Above-weaken i j m h a)

  pub insert-IsOrdered : (k : ℕ) (v : V) (m : OrderedMap V) → IsOrdered m → IsOrdered (insert k v m)
  unfolding insert
  insert-IsOrdered k v [] h = (tt, tt)
  insert-IsOrdered k v ((j, u) ∷ m) (a, o) =
      ground (arith, insert-IsOrdered k v m o, Above-insert j k v m, Above-weaken k j m)

  lookup-Above : (k j : ℕ) (m : OrderedMap V) → k ≤ j → Above j m → lookup k m ≡ none
  unfolding lookup
  lookup-Above k j [] h a = refl
  lookup-Above k j ((i, u) ∷ m) h (b, a) = ground (arith, lookup-Above k j m h a)

  pub lookup-erase :
      (j k : ℕ) (m : OrderedMap V)
      → IsOrdered m
      → lookup j (erase k m) ≡ (if j == k then none else lookup j m)
  unfolding lookup erase
  lookup-erase j k [] h = ground arith
  lookup-erase j k ((i, u) ∷ m) (a, o) = ground (arith, lookup-erase j k m o, lookup-Above j i m)

  Above-erase : (i k : ℕ) (m : OrderedMap V) → Above i m → Above i (erase k m)
  unfolding erase
  Above-erase i k [] a = tt
  Above-erase i k ((j, u) ∷ m) (b, a) = ground (arith, Above-erase i k m a)

  pub erase-IsOrdered : (k : ℕ) (m : OrderedMap V) → IsOrdered m → IsOrdered (erase k m)
  unfolding erase
  erase-IsOrdered k [] h = tt
  erase-IsOrdered k ((j, u) ∷ m) (a, o) = ground (arith, erase-IsOrdered k m o, Above-erase j k m a)
