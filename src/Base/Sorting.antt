-- ===== src/Base/Sorting.antt =====
-- slices.SortFunc, and what a sorted sequence with distinct keys allows. The library sorts by another
-- algorithm; where the keys are distinct, the sorted order leaves one result.
pub mod Strict
pub mod Members
use Prim.Native.Nat.{Ordering}
use mathlib.Core.Path.{◌≡◌}
use mathlib.Core.Bool.{Bool, true, false}
use mathlib.Core.List.{List, [], ◌∷◌}
use ana.Base.Tests.{if◌then◌else◌}

abbrev pub is_gt : Ordering → Bool
is_gt Ordering.gt = true
is_gt _ = false

-- What a comparison function has to satisfy.
pub record IsOrder {ℓ} {K : Type ℓ} (cmp : K → K → Ordering) : Type ℓ where
  pub cmp_self : (k : K) → cmp k k ≡ Ordering.eq
  pub eq_of_cmp : (j k : K) → cmp j k ≡ Ordering.eq → j ≡ k
  pub cmp_flip : (j k : K) → cmp j k ≡ Ordering.gt → cmp k j ≡ Ordering.lt
  pub cmp_flip_lt : (j k : K) → cmp j k ≡ Ordering.lt → cmp k j ≡ Ordering.gt
  pub cmp_trans :
      (i j k : K) → cmp i j ≡ Ordering.lt → cmp j k ≡ Ordering.lt → cmp i k ≡ Ordering.lt

-- `for _, x := range xs { if !keep(x) { continue }; out = append(out, x) }`
unfoldable pub select {ℓ} : {A : Type ℓ} → (A → Bool) → List A → List A
select keep [] = []
select keep (x ∷ xs) = let rest = select keep xs in if keep x then x ∷ rest else rest

-- Insertion sort by the key of each element.
module _ {ℓ} {A K : Type ℓ} (key : A → K) (cmp : K → K → Ordering) where
  unfoldable pub insert_sorted : A → List A → List A
  insert_sorted x [] = x ∷ []
  insert_sorted x (y ∷ ys) =
      if is_gt (cmp (key x) (key y)) then y ∷ insert_sorted x ys else x ∷ y ∷ ys

  unfoldable pub sort : List A → List A
  unfolding insert_sorted
  sort [] = []
  sort (x ∷ xs) = insert_sorted x (sort xs)
