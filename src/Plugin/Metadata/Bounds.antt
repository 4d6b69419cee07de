-- ===== src/Plugin/Metadata/Bounds.antt =====
-- pkg/manager/plugin/manifest.go: what metadata that validateMetadataBounded accepts look like.
use Prim.Native.Nat.{suc, ◌+◌, ◌-◌}
use ana.Base.{ℕ, ◌≡◌, ◌≤◌, Bool, true, Result, ok, err, ◌>>=◌, arith, refl}
use ana.Workspace.Value.{
  Value, null, opaque, text, nil_list, list, object, Values, nil, cons, Object, nil_map, made,
  Fields, end, field,
}
use ana.Plugin.Metadata.{
  MetadataError, max_metadata_walk_nodes, is_scalar_value, check_items, walk_metadata, walk_fields,
  validate_value, validate_metadata_bounded, value_nesting, values_nesting, nesting, fields_nesting,
  items_size, value_size, metadata_size, fields_size,
}

module _ (is_scalar : ℕ → Bool) where
  scalar_nesting : (x : Value) → is_scalar_value is_scalar x ≡ true → value_nesting x ≡ 0
  unfolding is_scalar_value value_nesting
  scalar_nesting null e = refl
  scalar_nesting (opaque n) e = refl
  scalar_nesting (text s) e = refl
  scalar_nesting nil_list e = refl
  scalar_nesting (list xs) e = cc
  scalar_nesting (object o) e = cc

  check_items_lem :
      (xs : Values) (b c : ℕ)
      → check_items is_scalar xs b ≡ ok c
      → (values_nesting xs ≡ 0) × (c + items_size xs ≡ b)
  unfolding check_items value_nesting items_size
  check_items_lem nil b c e = ground arith
  check_items_lem (cons x xs) b c e = ground (arith, check_items_lem xs (b - 1) c, scalar_nesting x)

  bind_ok :
      {A B : Type 0} (r : Result MetadataError A) (f : A → Result MetadataError B) (c : B)
      → r >>= f ≡ ok c
      → (a : A) × (r ≡ ok a) × (f a ≡ ok c)
  bind_ok (ok a) f c e = (a, refl, e)
  bind_ok (err x) f c e = cc

  mutual
    unfolding walk_metadata value_nesting value_size

    walk_metadata_lem :
        (o : Object) (d b c : ℕ)
        → walk_metadata is_scalar o d b ≡ ok c
        → (d + nesting o ≤ 34) × (c + metadata_size o ≡ b)
    walk_metadata_lem nil_map d b c e = ground arith
    walk_metadata_lem (made fs) d b c e = ground (arith, walk_fields_lem fs d b c)

    walk_fields_lem :
        (fs : Fields) (d b c : ℕ)
        → walk_fields is_scalar fs d b ≡ ok c
        → d ≤ 32
        → (d + fields_nesting fs ≤ 33) × (c + fields_size fs ≡ b)
    walk_fields_lem end d b c e h = ground arith
    walk_fields_lem (field k v fs) d b c e h =
        let inner = validate_value is_scalar v d (b - 1) in
        let (left, first, rest) =
          bind_ok inner (λ left. walk_fields is_scalar fs d left) c (ground arith) in
        let one = validate_value_lem v d (b - 1) left first h in
        let two = walk_fields_lem fs d left c rest h in (ground arith, ground arith)

    validate_value_lem :
        (v : Value) (d b c : ℕ)
        → validate_value is_scalar v d b ≡ ok c
        → d ≤ 32
        → (d + value_nesting v ≤ 33) × (c + value_size v ≡ b)
    validate_value_lem null d b c e h = ground arith
    validate_value_lem (text s) d b c e h = ground arith
    validate_value_lem (opaque n) d b c e h = ground arith
    validate_value_lem nil_list d b c e h = ground arith
    validate_value_lem (list xs) d b c e h = ground (arith, check_items_lem xs b c)
    validate_value_lem (object o) d b c e h = ground (arith, walk_metadata_lem o (suc d) b c)

-- Metadata that validation accepts nest at most 34 deep, counting maps and arrays, and have at most
-- 4096 nodes; what is left of the budget is exactly what the nodes have not used.
pub validate_metadata_bounded_lem :
    (is_scalar : ℕ → Bool) (o : Object) (left : ℕ)
    → validate_metadata_bounded is_scalar o ≡ ok left
    → (nesting o ≤ 34) × (left + metadata_size o ≡ max_metadata_walk_nodes)
unfolding validate_metadata_bounded
validate_metadata_bounded_lem is_scalar o left e =
    let (shallow, size) = walk_metadata_lem is_scalar o 0 max_metadata_walk_nodes left e in
    (omega (arith, shallow), size)
