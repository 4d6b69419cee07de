-- ===== src/Base/Sorting/Members.antt =====
-- The members of filtered, mapped and sorted sequences, and the uniqueness of the sorted one.
use Prim.Native.Nat.{Ordering}
use mathlib.Core.Path.{◌≡◌, refl, sym, ap, subst, ◌∙◌}
use mathlib.Core.Logic.{inl, inr}
use mathlib.Core.Bool.{Bool, true}
use mathlib.Core.List.{List, [], ◌∷◌, map, Memᴰ}
use ana.Base.Tests.{Bool-cases}
use ana.Base.Lists.{All}
use ana.Base.Sorting.{is_gt, IsOrder, select, insert_sorted, sort}
use ana.Base.Sorting.Strict.{StrictlySorted, AllAfter}

module _ {ℓ} {A : Type ℓ} where
  pub All-at {κ} : (P : A → Type κ) {a : A} (xs : List A) → Memᴰ a xs → All P xs → P a
  All-at P [] m h = elim m [ ]
  All-at P (x ∷ xs) (Memᴰ.head e) h = subst P (sym e) h.0
  All-at P (x ∷ xs) (Memᴰ.tail m) h = All-at P xs m h.1

  pub mem-select :
      (keep : A → Bool) (a : A) (xs : List A) → keep a ≡ true → Memᴰ a xs → Memᴰ a (select keep xs)
  unfolding select
  mem-select keep a [] k m = elim m [ ]
  mem-select keep a (x ∷ xs) k (Memᴰ.head e) = rw (ap keep (sym e) ∙ k) (Memᴰ.head e)
  mem-select keep a (x ∷ xs) k (Memᴰ.tail m) = elim (Bool-cases (keep x)) [
    | inl e ↦ rw e (Memᴰ.tail (mem-select keep a xs k m))
    | inr e ↦ rw e (mem-select keep a xs k m)
  ]

  pub select-holds : (keep : A → Bool) (xs : List A) → All (λ x. keep x ≡ true) (select keep xs)
  unfolding select
  select-holds keep [] = tt
  select-holds keep (x ∷ xs) = elim (Bool-cases (keep x)) [
    | inl e ↦ rw e (e, select-holds keep xs)
    | inr e ↦ rw e (select-holds keep xs)
  ]

pub mem-map {ℓ} :
    {A B : Type ℓ} (f : A → B) (a : A) (xs : List A) → Memᴰ a xs → Memᴰ (f a) (map f xs)
mem-map f a [] m = elim m [ ]
mem-map f a (x ∷ xs) (Memᴰ.head e) = Memᴰ.head (ap f e)
mem-map f a (x ∷ xs) (Memᴰ.tail m) = Memᴰ.tail (mem-map f a xs m)

module _ {ℓ} {A K : Type ℓ} (key : A → K) (cmp : K → K → Ordering) where
  mem-insert_sorted_self : (x : A) (ys : List A) → Memᴰ x (insert_sorted key cmp x ys)
  unfolding insert_sorted
  mem-insert_sorted_self x [] = Memᴰ.head refl
  mem-insert_sorted_self x (y ∷ ys) = elim (Bool-cases (is_gt (cmp (key x) (key y)))) [
    | inl e ↦ rw e (Memᴰ.tail (mem-insert_sorted_self x ys))
    | inr e ↦ rw e (Memᴰ.head refl)
  ]

  mem-insert_sorted : (a x : A) (ys : List A) → Memᴰ a ys → Memᴰ a (insert_sorted key cmp x ys)
  unfolding insert_sorted
  mem-insert_sorted a x [] m = elim m [ ]
  mem-insert_sorted a x (y ∷ ys) (Memᴰ.head p) = elim (Bool-cases (is_gt (cmp (key x) (key y)))) [
    | inl e ↦ rw e (Memᴰ.head p)
    | inr e ↦ rw e (Memᴰ.tail (Memᴰ.head p))
  ]
  mem-insert_sorted a x (y ∷ ys) (Memᴰ.tail m) = elim (Bool-cases (is_gt (cmp (key x) (key y)))) [
    | inl e ↦ rw e (Memᴰ.tail (mem-insert_sorted a x ys m))
    | inr e ↦ rw e (Memᴰ.tail (Memᴰ.tail m))
  ]

  pub mem-sort : (a : A) (xs : List A) → Memᴰ a xs → Memᴰ a (sort key cmp xs)
  unfolding sort
  mem-sort a [] m = elim m [ ]
  mem-sort a (x ∷ xs) (Memᴰ.head e) =
      subst (λ z. Memᴰ z (insert_sorted key cmp x (sort key cmp xs))) (sym e)
        (mem-insert_sorted_self x (sort key cmp xs))
  mem-sort a (x ∷ xs) (Memᴰ.tail m) = mem-insert_sorted a x (sort key cmp xs) (mem-sort a xs m)

module _ {ℓ} {A K : Type ℓ} (key : A → K) (cmp : K → K → Ordering) (o : IsOrder cmp) where
  not_after_self : (k : K) → cmp k k ≡ Ordering.lt → ⊥
  not_after_self k e = cc (o.cmp_self k)

  heads_eq :
      (x y : A) (xs ys : List A)
      → AllAfter key cmp (key x) xs
      → AllAfter key cmp (key y) ys
      → Memᴰ x (y ∷ ys)
      → Memᴰ y (x ∷ xs)
      → x ≡ y
  heads_eq x y xs ys p q (Memᴰ.head e) n = e
  heads_eq x y xs ys p q (Memᴰ.tail m) (Memᴰ.head e) = sym e
  heads_eq x y xs ys p q (Memᴰ.tail m) (Memᴰ.tail n) =
      let y_x = All-at (λ z. cmp (key y) (key z) ≡ Ordering.lt) ys m q in
      let x_y = All-at (λ z. cmp (key x) (key z) ≡ Ordering.lt) xs n p in
      absurd (not_after_self (key x) (o.cmp_trans (key x) (key y) (key x) x_y y_x))

  mem_tail :
      (x y z : A) (xs ys : List A)
      → x ≡ y
      → AllAfter key cmp (key x) xs
      → Memᴰ z xs
      → Memᴰ z (y ∷ ys)
      → Memᴰ z ys
  mem_tail x y z xs ys e p m (Memᴰ.head f) =
      let x_z = All-at (λ w. cmp (key x) (key w) ≡ Ordering.lt) xs m p in
      absurd
        (not_after_self (key x) (subst (λ w. cmp (key x) (key w) ≡ Ordering.lt) (f ∙ sym e) x_z))
  mem_tail x y z xs ys e p m (Memᴰ.tail n) = n

  -- Two strictly sorted sequences with the same members are the same.
  pub sorted_unique :
      (xs ys : List A)
      → StrictlySorted key cmp xs
      → StrictlySorted key cmp ys
      → ((z : A) → Memᴰ z xs → Memᴰ z ys)
      → ((z : A) → Memᴰ z ys → Memᴰ z xs)
      → xs ≡ ys
  sorted_unique [] [] s t f g = refl
  sorted_unique [] (y ∷ ys) s t f g = absurd (elim (g y (Memᴰ.head refl)) [ ])
  sorted_unique (x ∷ xs) [] s t f g = absurd (elim (f x (Memᴰ.head refl)) [ ])
  sorted_unique (x ∷ xs) (y ∷ ys) s t f g =
      let e = heads_eq x y xs ys s.0 t.0 (f x (Memᴰ.head refl)) (g y (Memᴰ.head refl)) in
      let rest =
        sorted_unique xs ys s.1 t.1 (λ z m. mem_tail x y z xs ys e s.0 m (f z (Memᴰ.tail m)))
          (λ z m. mem_tail y x z ys xs (sym e) t.0 m (g z (Memᴰ.tail m))) in
      cc (e, rest)
