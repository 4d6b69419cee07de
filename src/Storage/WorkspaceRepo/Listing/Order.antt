-- ===== src/Storage/WorkspaceRepo/Listing/Order.antt =====
-- pkg/storage/memory/workspace_repo.go: `compareNamespaceAlias` is a total order on the alias keys.
use ana.Base.{
  ◌≡◌, arith, Ordering, compare_text_self, eq_of_compare_text, compare_text_flip,
  compare_text_flip_lt, compare_text_trans,
}
use ana.Base.Sorting.{IsOrder}
use ana.Storage.WorkspaceRepo.{AliasKey}
use ana.Storage.WorkspaceRepo.Listing.{compare_namespace_alias}

compare_self : (k : AliasKey) → compare_namespace_alias k k ≡ Ordering.eq
unfolding compare_namespace_alias
compare_self (n, a) = ground (arith, compare_text_self n, compare_text_self a)

eq_of_compare : (j k : AliasKey) → compare_namespace_alias j k ≡ Ordering.eq → j ≡ k
unfolding compare_namespace_alias
eq_of_compare (m, a) (n, b) h = ground (arith, eq_of_compare_text m n, eq_of_compare_text a b)

compare_flip :
    (j k : AliasKey)
    → compare_namespace_alias j k ≡ Ordering.gt
    → compare_namespace_alias k j ≡ Ordering.lt
unfolding compare_namespace_alias
compare_flip (m, a) (n, b) h = ground (
  arith,
  compare_text_flip m n,
  compare_text_flip a b,
  eq_of_compare_text m n,
  compare_text_self m,
)

compare_flip_lt :
    (j k : AliasKey)
    → compare_namespace_alias j k ≡ Ordering.lt
    → compare_namespace_alias k j ≡ Ordering.gt
unfolding compare_namespace_alias
compare_flip_lt (m, a) (n, b) h = ground (
  arith,
  compare_text_flip_lt m n,
  compare_text_flip_lt a b,
  eq_of_compare_text m n,
  compare_text_self m,
)

compare_trans :
    (i j k : AliasKey)
    → compare_namespace_alias i j ≡ Ordering.lt
    → compare_namespace_alias j k ≡ Ordering.lt
    → compare_namespace_alias i k ≡ Ordering.lt
unfolding compare_namespace_alias
compare_trans (l, a) (m, b) (n, c) h k = ground (
  arith,
  compare_text_trans l m n,
  compare_text_trans a b c,
  eq_of_compare_text l m,
  eq_of_compare_text m n,
)

-- By the namespaces first and the aliases then, keys are totally ordered: a key equals itself, keys that
-- compare equal are the same, swapping two keys swaps "before" and "after", and "before" is transitive.
pub compare_namespace_alias-IsOrder : IsOrder compare_namespace_alias
compare_namespace_alias-IsOrder = record {
  cmp_self = compare_self;
  eq_of_cmp = eq_of_compare;
  cmp_flip = compare_flip;
  cmp_flip_lt = compare_flip_lt;
  cmp_trans = compare_trans;
}
