-- ===== src/Base/Maps.antt =====
-- Go's maps as association lists. The order of the entries stands for the order in which a `range`
-- over the map happens to run; a nil map and an empty one are told apart where the code does so.
use mathlib.Core.Path.{◌≡◌}
use mathlib.Core.Logic.{ite}
use mathlib.Core.List.{List, [], ◌∷◌, map}
use mathlib.Core.Option.{Option, none, some}
use native.Mathlib.Omega.{arith}

abbrev pub Map {ℓ} : Type ℓ → Type ℓ → Type ℓ
Map K V = List (K × V)

abbrev pub values {ℓ} : {K V : Type ℓ} → Map K V → List V
values = map (λ e. e.1)

module _ {ℓ} {K V : Type ℓ} (d : Discrete K) where
  unfoldable pub lookup : K → Map K V → Option V
  lookup k [] = none
  lookup k ((j, v) ∷ m) = ite (d j k) (some v) (lookup k m)

  -- `delete(m, k)`
  unfoldable pub erase : K → Map K V → Map K V
  erase k [] = []
  erase k ((j, v) ∷ m) = ite (d j k) (erase k m) ((j, v) ∷ erase k m)

  -- `m[k] = v`
  unfoldable pub insert : K → V → Map K V → Map K V
  unfolding erase
  insert k v m = (k, v) ∷ erase k m

  pub lookup-erase : (k j : K) (m : Map K V) → lookup j (erase k m) ≡ ite (d k j) none (lookup j m)
  unfolding lookup erase
  lookup-erase k j [] = ground arith
  lookup-erase k j ((i, v) ∷ m) = ground (arith, lookup-erase k j m)

  pub lookup-insert :
      (k j : K) (v : V) (m : Map K V) → lookup j (insert k v m) ≡ ite (d k j) (some v) (lookup j m)
  unfolding lookup insert
  lookup-insert k j v m = ground (arith, lookup-erase k j m)

  -- No key stands twice.
  abbrev pub IsFunctional : Map K V → Type ℓ
  IsFunctional [] = Unit
  IsFunctional ((k, v) ∷ m) = (lookup k m ≡ none) × IsFunctional m

  pub erase-IsFunctional : (k : K) (m : Map K V) → IsFunctional m → IsFunctional (erase k m)
  unfolding erase
  erase-IsFunctional k [] h = tt
  erase-IsFunctional k ((j, v) ∷ m) h =
      ground (arith, erase-IsFunctional k m h.1, lookup-erase k j m)

  pub insert-IsFunctional :
      (k : K) (v : V) (m : Map K V) → IsFunctional m → IsFunctional (insert k v m)
  unfolding insert
  insert-IsFunctional k v m h = ground (arith, erase-IsFunctional k m h, lookup-erase k k m)
