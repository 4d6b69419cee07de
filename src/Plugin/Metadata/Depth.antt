-- ===== src/Plugin/Metadata/Depth.antt =====
-- pkg/manager/plugin/clone.go and pkg/storage/memory/plugin_repo.go: how deep a copy goes.
use Prim.Native.Nat.{suc, ◌+◌}
use ana.Base.{ℕ, ◌≡◌, ◌≤◌, refl, false, arith}
use ana.Plugin.Clone.{
  too_deep, deep_clone_any_depth, clone_values_depth, clone_map_any_depth, clone_fields_depth,
}
use ana.Workspace.Value.{
  Value, null, opaque, text, nil_list, list, object, Values, nil, cons, Object, nil_map, made,
  Fields, end, field, deep_clone_any, clone_values, clone_map_any, clone_fields,
}
use ana.Plugin.Metadata.{larger, value_nesting, values_nesting, nesting, fields_nesting}

larger_le : (d a b n : ℕ) → d + larger a b ≤ n → (d + a ≤ n) × (d + b ≤ n)
larger_le d a b n h = (ground arith, ground arith)

shallow_enough : (d k : ℕ) → suc d + k ≤ 32 → too_deep d ≡ false
shallow_enough d k h = ground arith

mutual
  unfolding deep_clone_any_depth deep_clone_any value_nesting

  deep_clone_any_full :
      (v : Value) (d : ℕ) → d + value_nesting v ≤ 32 → deep_clone_any_depth v d ≡ deep_clone_any v
  deep_clone_any_full null d h = refl
  deep_clone_any_full (opaque n) d h = ground arith
  deep_clone_any_full (text s) d h = ground arith
  deep_clone_any_full nil_list d h = ground arith
  deep_clone_any_full (list xs) d h = ground (arith, clone_values_full xs (suc d))
  deep_clone_any_full (object o) d h = ground (arith, clone_map_any_full o d)

  clone_values_full :
      (xs : Values) (d : ℕ) → d + values_nesting xs ≤ 32 → clone_values_depth xs d ≡ clone_values xs
  clone_values_full nil d h = refl
  clone_values_full (cons x xs) d h =
      let (one, two) = larger_le d (value_nesting x) (values_nesting xs) 32 h in
      cc (deep_clone_any_full x d one, clone_values_full xs d two)

  clone_map_any_full :
      (o : Object) (d : ℕ) → d + nesting o ≤ 32 → clone_map_any_depth o d ≡ clone_map_any o
  clone_map_any_full nil_map d h = refl
  clone_map_any_full (made end) d h = refl
  clone_map_any_full (made (field k v fs)) d h =
      let h' : suc d + larger (value_nesting v) (fields_nesting fs) ≤ 32 = omega (arith, h) in
      let (one, two) = larger_le (suc d) (value_nesting v) (fields_nesting fs) 32 h' in
      let same = deep_clone_any_full v (suc d) one in
      let rest = clone_fields_full fs (suc d) two in let shallow = shallow_enough d _ h' in cc

  clone_fields_full :
      (fs : Fields) (d : ℕ) → d + fields_nesting fs ≤ 32 → clone_fields_depth fs d ≡ clone_fields fs
  clone_fields_full end d h = refl
  clone_fields_full (field k v fs) d h =
      let (one, two) = larger_le d (value_nesting v) (fields_nesting fs) 32 h in
      cc (deep_clone_any_full v d one, clone_fields_full fs d two)

-- The copy of a repository, which stops at a depth, and the copy of the manager, which does not,
-- are the same for metadata in which maps and arrays nest at most 32 deep.
pub clone_map_any_depth-full :
    (o : Object) → nesting o ≤ 32 → clone_map_any_depth o 0 ≡ clone_map_any o
clone_map_any_depth-full o h = clone_map_any_full o 0 (omega (arith, h))
