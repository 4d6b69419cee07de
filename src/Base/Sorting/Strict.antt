-- ===== src/Base/Sorting/Strict.antt =====
-- Sequences that rise strictly by their keys: filtering before and after sorting is the same, and what
-- follows the key of an element is a suffix.
use Prim.Native.Nat.{ℕ, zero, suc, Ordering}
use mathlib.Core.Path.{◌≡◌, refl, ap}
use mathlib.Core.Logic.{◌≢◌, inl, inr}
use mathlib.Core.Bool.{Bool, true, false}
use mathlib.Core.List.{List, [], ◌∷◌, map}
use native.Mathlib.Omega.{arith}
use ana.Base.Tests.{if◌then◌else◌, Bool-cases}
use ana.Base.Lists.{All, take, drop}
use ana.Base.Sorting.{is_gt, IsOrder, select, insert_sorted, sort}

pub All-select {ℓ κ} :
    {A : Type ℓ} (P : A → Type κ) (keep : A → Bool) (xs : List A)
    → All P xs
    → All P (select keep xs)
unfolding select
All-select P keep [] h = tt
All-select P keep (x ∷ xs) h = elim (Bool-cases (keep x)) [
  | inl e ↦ rw e (h.0, All-select P keep xs h.1)
  | inr e ↦ rw e (All-select P keep xs h.1)
]

pub All-imp {ℓ κ} :
    {A : Type ℓ} {P Q : A → Type κ} → ((a : A) → P a → Q a) → (xs : List A) → All P xs → All Q xs
All-imp f [] h = tt
All-imp f (x ∷ xs) h = (f x h.0, All-imp f xs h.1)

-- The last element of `x ∷ xs`.
unfoldable pub last_of {ℓ} : {A : Type ℓ} → A → List A → A
last_of x [] = x
last_of x (y ∷ ys) = last_of y ys

pub All-last_of {ℓ κ} :
    {A : Type ℓ} (P : A → Type κ) (n : ℕ) (x : A) (xs : List A)
    → All P (x ∷ xs)
    → P (last_of x (take n xs))
unfolding last_of
All-last_of P zero x xs h = h.0
All-last_of P (suc n) x [] h = h.0
All-last_of P (suc n) x (y ∷ ys) h = All-last_of P n y ys h.1

pub select-All {ℓ} :
    {A : Type ℓ} (keep : A → Bool) (xs : List A) → All (λ x. keep x ≡ true) xs → select keep xs ≡ xs
unfolding select
select-All keep [] h = refl
select-All keep (x ∷ xs) h = rw (h.0) (ap (◌∷◌ x) (select-All keep xs h.1))

pub select-select {ℓ} :
    {A : Type ℓ} (p q both : A → Bool) (xs : List A)
    → ((x : A) → both x ≡ (if p x then q x else false))
    → select both xs ≡ select q (select p xs)
unfolding select
select-select p q both [] h = refl
select-select p q both (x ∷ xs) h = ground (arith, h x, select-select p q both xs h)

pub select-map {ℓ} :
    {A B : Type ℓ} (f : A → B) (p : B → Bool) (q : A → Bool) (xs : List A)
    → ((x : A) → p (f x) ≡ q x)
    → select p (map f xs) ≡ map f (select q xs)
unfolding select
select-map f p q [] h = refl
select-map f p q (x ∷ xs) h = ground (arith, h x, select-map f p q xs h)

module _ {ℓ} {A K : Type ℓ} (key : A → K) (cmp : K → K → Ordering) where
  -- The key of the element is greater.
  abbrev pub is_after : K → A → Bool
  is_after k x = is_gt (cmp (key x) k)

  abbrev pub AllAfter : K → List A → Type 0
  AllAfter k = All (λ y. cmp k (key y) ≡ Ordering.lt)

  abbrev pub StrictlySorted : List A → Type 0
  StrictlySorted [] = Unit
  StrictlySorted (x ∷ xs) = AllAfter (key x) xs × StrictlySorted xs

  abbrev pub AllNe : K → List A → Type 0
  AllNe k = All (λ y. cmp k (key y) ≢ Ordering.eq)

  abbrev pub HasDistinctKeys : List A → Type 0
  HasDistinctKeys [] = Unit
  HasDistinctKeys (x ∷ xs) = AllNe (key x) xs × HasDistinctKeys xs

  pub select-HasDistinctKeys :
      (keep : A → Bool) (xs : List A) → HasDistinctKeys xs → HasDistinctKeys (select keep xs)
  unfolding select
  select-HasDistinctKeys keep [] h = tt
  select-HasDistinctKeys keep (x ∷ xs) h = elim (Bool-cases (keep x)) [
    | inl e ↦ rw e (All-select _ keep xs h.0, select-HasDistinctKeys keep xs h.1)
    | inr e ↦ rw e (select-HasDistinctKeys keep xs h.1)
  ]

module _ {ℓ} {A K : Type ℓ} (key : A → K) (cmp : K → K → Ordering) (o : IsOrder cmp) where
  AllAfter-trans :
      (j k : K) (ys : List A)
      → cmp j k ≡ Ordering.lt
      → AllAfter key cmp k ys
      → AllAfter key cmp j ys
  AllAfter-trans j k [] e h = tt
  AllAfter-trans j k (y ∷ ys) e h = (o.cmp_trans j k (key y) e h.0, AllAfter-trans j k ys e h.1)

  All-insert_sorted {κ} :
      (P : A → Type κ) (x : A) (ys : List A) → P x → All P ys → All P (insert_sorted key cmp x ys)
  unfolding insert_sorted
  All-insert_sorted P x [] p h = (p, tt)
  All-insert_sorted P x (y ∷ ys) p h = elim (Bool-cases (is_gt (cmp (key x) (key y)))) [
    | inl e ↦ rw e (h.0, All-insert_sorted P x ys p h.1)
    | inr e ↦ rw e (p, h)
  ]

  pub All-sort {κ} : (P : A → Type κ) (xs : List A) → All P xs → All P (sort key cmp xs)
  unfolding sort
  All-sort P [] h = tt
  All-sort P (x ∷ xs) h = All-insert_sorted P x (sort key cmp xs) h.0 (All-sort P xs h.1)

  insert_sorted-StrictlySorted :
      (x : A) (ys : List A)
      → AllNe key cmp (key x) ys
      → StrictlySorted key cmp ys
      → StrictlySorted key cmp (insert_sorted key cmp x ys)
  unfolding insert_sorted
  insert_sorted-StrictlySorted x [] n s = (tt, tt)
  insert_sorted-StrictlySorted x (y ∷ ys) n s = elim (Bool-cases (is_gt (cmp (key x) (key y)))) [
    | inl e ↦ rw e (
      All-insert_sorted (λ z. cmp (key y) (key z) ≡ Ordering.lt) x ys
          (o.cmp_flip (key x) (key y) (ground arith)) s.0,
      insert_sorted-StrictlySorted x ys n.1 s.1,
    )
    | inr e ↦
        let less : cmp (key x) (key y) ≡ Ordering.lt = ground arith in
        rw e ((less, AllAfter-trans (key x) (key y) ys less s.0), s)
  ]

  pub sort-StrictlySorted :
      (xs : List A) → HasDistinctKeys key cmp xs → StrictlySorted key cmp (sort key cmp xs)
  unfolding sort
  sort-StrictlySorted [] h = tt
  sort-StrictlySorted (x ∷ xs) h =
      insert_sorted-StrictlySorted x (sort key cmp xs) (All-sort _ xs h.0)
        (sort-StrictlySorted xs h.1)

  insert_first :
      (x : A) (ys : List A) → AllAfter key cmp (key x) ys → insert_sorted key cmp x ys ≡ x ∷ ys
  unfolding insert_sorted
  insert_first x [] h = refl
  insert_first x (y ∷ ys) h = rw (h.0)

  select-insert_sorted :
      (keep : A → Bool) (x : A) (ys : List A)
      → AllNe key cmp (key x) ys
      → StrictlySorted key cmp ys
      → select keep (insert_sorted key cmp x ys)
        ≡ (if keep x then insert_sorted key cmp x (select keep ys) else select keep ys)
  unfolding insert_sorted select
  select-insert_sorted keep x [] n s = ground arith
  select-insert_sorted keep x (y ∷ ys) n s = elim (Bool-cases (is_gt (cmp (key x) (key y)))) [
    | inl e ↦ ground (arith, select-insert_sorted keep x ys n.1 s.1)
    | inr e ↦
        let less : cmp (key x) (key y) ≡ Ordering.lt = ground arith in
        let first = All-select _ keep ys (AllAfter-trans (key x) (key y) ys less s.0) in
        ground (arith, insert_first x (select keep ys) first)
  ]

  -- Filtering a sorted sequence is sorting the filtered one.
  pub select-sort :
      (keep : A → Bool) (xs : List A)
      → HasDistinctKeys key cmp xs
      → select keep (sort key cmp xs) ≡ sort key cmp (select keep xs)
  unfolding sort select
  select-sort keep [] h = refl
  select-sort keep (x ∷ xs) h = ground (
    arith,
    select-insert_sorted keep x (sort key cmp xs) (All-sort _ xs h.0) (sort-StrictlySorted xs h.1),
    select-sort keep xs h.1,
  )

  is_after_self : (x : A) → is_after key cmp (key x) x ≡ false
  is_after_self x = rw (o.cmp_self (key x))

  is_after_of_lt : (k : K) (y : A) → cmp k (key y) ≡ Ordering.lt → is_after key cmp k y ≡ true
  is_after_of_lt k y e = rw (o.cmp_flip_lt k (key y) e)

  -- What follows the last of the first elements is the rest.
  pub select_after_last :
      (n : ℕ) (x : A) (xs : List A)
      → StrictlySorted key cmp (x ∷ xs)
      → select (is_after key cmp (key (last_of x (take n xs)))) (x ∷ xs) ≡ drop n xs
  unfolding select last_of
  select_after_last zero x xs s =
      rw (is_after_self x)
        (select-All (is_after key cmp (key x)) xs (All-imp (is_after_of_lt (key x)) xs s.0))
  select_after_last (suc n) x [] s = rw (is_after_self x)
  select_after_last (suc n) x (y ∷ ys) s =
      let less = All-last_of (λ z. cmp (key x) (key z) ≡ Ordering.lt) n y ys s.0 in
      rw less (select_after_last n y ys s.1)
