-- ===== src/Plugin/Metadata.antt =====
-- pkg/manager/plugin/manifest.go: the bounds of plugin.metadata (validateMetadataBounded,
-- walkMetadata, validateMetadataValueBounded, validateScalar). A key is a sequence of code points
-- here. `is_scalar` tells the opaque values of a scalar type from those of another, as a TOML date.
pub mod Bounds
pub mod Depth
use Prim.Native.Nat.{suc, ◌+◌, ◌-◌}
use ana.Base.{
  ℕ, ◌≡◌, ◌≤◌, Bool, true, false, [], ◌∷◌, Text, ◌==◌, if◌then◌else◌, Result, ok, err, ◌>>=◌, arith,
  refl, inl, inr, Bool-cases, ltb, ap,
}
use ana.Registry.{trim_space}
use ana.Plugin.Clone.{
  too_deep, deep_clone_any_depth, clone_values_depth, clone_map_any_depth, clone_fields_depth,
}
use ana.Workspace.Value.{
  Value, null, opaque, text, nil_list, list, object, Values, nil, cons, Object, nil_map, made,
  Fields, end, field, deep_clone_any, clone_values, clone_map_any, clone_fields,
}

pub data MetadataError : Type 0 where
  too_nested : MetadataError
  empty_key : MetadataError
  too_many_nodes : MetadataError
  unsupported_type : MetadataError
  non_scalar : MetadataError

abbrev pub max_metadata_walk_nodes : ℕ
max_metadata_walk_nodes = 4096

-- `strings.TrimSpace(key) == ""`
unfoldable pub is_blank : Text → Bool
is_blank k = elim (trim_space k) [ [] ↦ true | c ∷ s ↦ false ]

module _ (is_scalar : ℕ → Bool) where
  unfoldable pub is_scalar_value : Value → Bool
  is_scalar_value null = true
  is_scalar_value (text s) = true
  is_scalar_value (opaque n) = is_scalar n
  is_scalar_value _ = false

  -- The items of an array; the result is what is left of the budget.
  unfoldable pub check_items : Values → ℕ → Result MetadataError ℕ
  unfolding is_scalar_value
  check_items nil budget = ok budget
  check_items (cons x xs) budget =
      let rest = check_items xs (budget - 1) in
      if budget == 0 then err too_many_nodes else if is_scalar_value x then rest else err non_scalar

  unfoldable mutual
    unfolding check_items is_blank

    -- `walkMetadata`
    pub walk_metadata : Object → ℕ → ℕ → Result MetadataError ℕ
    walk_metadata nil_map depth budget = if too_deep depth then err too_nested else ok budget
    walk_metadata (made fs) depth budget =
        let rest = walk_fields fs depth budget in if too_deep depth then err too_nested else rest

    pub walk_fields : Fields → ℕ → ℕ → Result MetadataError ℕ
    walk_fields end depth budget = ok budget
    walk_fields (field k v fs) depth budget =
        let rest = validate_value v depth (budget - 1) >>= λ left. walk_fields fs depth left in
        if is_blank k then err empty_key else if budget == 0 then err too_many_nodes else rest

    -- `validateMetadataValueBounded`
    pub validate_value : Value → ℕ → ℕ → Result MetadataError ℕ
    validate_value null depth budget = ok budget
    validate_value (text s) depth budget = ok budget
    validate_value (opaque n) depth budget = if is_scalar n then ok budget else err unsupported_type
    validate_value nil_list depth budget = ok budget
    validate_value (list xs) depth budget = check_items xs budget
    validate_value (object o) depth budget = walk_metadata o (suc depth) budget

  unfoldable pub validate_metadata_bounded : Object → Result MetadataError ℕ
  unfolding walk_metadata
  validate_metadata_bounded o = walk_metadata o 0 max_metadata_walk_nodes

abbrev pub larger : ℕ → ℕ → ℕ
larger a b = if ltb a b then b else a

-- How many maps and lists stand around the innermost value, and how many values there are.
unfoldable mutual
  pub value_nesting : Value → ℕ
  value_nesting (list xs) = suc (values_nesting xs)
  value_nesting (object o) = nesting o
  value_nesting null = 0
  value_nesting (text s) = 0
  value_nesting (opaque n) = 0
  value_nesting nil_list = 0

  pub values_nesting : Values → ℕ
  values_nesting nil = 0
  values_nesting (cons x xs) = larger (value_nesting x) (values_nesting xs)

  pub nesting : Object → ℕ
  nesting nil_map = 0
  nesting (made fs) = suc (fields_nesting fs)

  pub fields_nesting : Fields → ℕ
  fields_nesting end = 0
  fields_nesting (field k v fs) = larger (value_nesting v) (fields_nesting fs)

unfoldable pub items_size : Values → ℕ
items_size nil = 0
items_size (cons x xs) = suc (items_size xs)

unfoldable mutual
  unfolding items_size

  pub value_size : Value → ℕ
  value_size (list xs) = items_size xs
  value_size (object o) = metadata_size o
  value_size null = 0
  value_size (text s) = 0
  value_size (opaque n) = 0
  value_size nil_list = 0

  pub metadata_size : Object → ℕ
  metadata_size nil_map = 0
  metadata_size (made fs) = fields_size fs

  pub fields_size : Fields → ℕ
  fields_size end = 0
  fields_size (field k v fs) = suc (value_size v + fields_size fs)
