-- ===== src/Plugin/Clone.antt =====
-- pkg/manager/plugin/clone.go, and the same functions in pkg/storage/memory/plugin_repo.go and
-- pkg/manager/types.go: copies of manifests. What is nested more than 32 deep comes back nil.
use ana.Base.{ℕ, suc, ◌≡◌, refl, Bool, none, some, [], ◌∷◌, arith, ltb, if◌then◌else◌}
use ana.Workspace.Value.{
  Value, null, opaque, text, nil_list, list, object, Values, nil, cons, Object, nil_map, made,
  Fields, end, field,
}
use ana.Plugin.{Section, Manifest, Plugin}

-- `depth > maxMetadataNestingDepth`
abbrev pub too_deep : ℕ → Bool
too_deep depth = ltb 32 depth

unfoldable mutual
  -- `deepCloneAnyDepth`
  pub deep_clone_any_depth : Value → ℕ → Value
  deep_clone_any_depth null depth = null
  deep_clone_any_depth (opaque n) depth = if too_deep depth then null else opaque n
  deep_clone_any_depth (text s) depth = if too_deep depth then null else text s
  deep_clone_any_depth nil_list depth = if too_deep depth then null else list nil
  deep_clone_any_depth (list xs) depth =
      let out = clone_values_depth xs (suc depth) in if too_deep depth then null else list out
  deep_clone_any_depth (object o) depth =
      let out = clone_map_any_depth o depth in if too_deep depth then null else object out

  pub clone_values_depth : Values → ℕ → Values
  clone_values_depth nil depth = nil
  clone_values_depth (cons x xs) depth =
      cons (deep_clone_any_depth x depth) (clone_values_depth xs depth)

  -- `cloneMapAnyDepth`
  pub clone_map_any_depth : Object → ℕ → Object
  clone_map_any_depth nil_map depth = nil_map
  clone_map_any_depth (made end) depth = nil_map
  clone_map_any_depth (made (field k v fs)) depth =
      let out = field k (deep_clone_any_depth v (suc depth)) (clone_fields_depth fs (suc depth)) in
      if too_deep depth then nil_map else made out

  pub clone_fields_depth : Fields → ℕ → Fields
  clone_fields_depth end depth = end
  clone_fields_depth (field k v fs) depth =
      field k (deep_clone_any_depth v depth) (clone_fields_depth fs depth)

-- `len(in) == 0` gives nil; the entries are values
unfoldable pub clone_manifest_entries : Section → Section
clone_manifest_entries none = none
clone_manifest_entries (some []) = none
clone_manifest_entries (some (e ∷ es)) = some (e ∷ es)

unfoldable pub clone_manifest : Manifest → Manifest
clone_manifest m = record m {
  plugin = record m.plugin { metadata = clone_map_any_depth m.plugin.metadata 0 };
  skills = clone_manifest_entries m.skills;
  rules = clone_manifest_entries m.rules;
  hooks = clone_manifest_entries m.hooks;
  subagents = clone_manifest_entries m.subagents;
  mcps = clone_manifest_entries m.mcps;
}

unfoldable pub clone_plugin : Plugin → Plugin
clone_plugin p = record p { manifest = clone_manifest p.manifest }

mutual
  unfolding deep_clone_any_depth

  deep_clone_any_depth_twice :
      (v : Value) (n : ℕ)
      → deep_clone_any_depth (deep_clone_any_depth v n) n ≡ deep_clone_any_depth v n
  deep_clone_any_depth_twice null n = refl
  deep_clone_any_depth_twice (opaque x) n = ground arith
  deep_clone_any_depth_twice (text s) n = ground arith
  deep_clone_any_depth_twice nil_list n = ground arith
  deep_clone_any_depth_twice (list xs) n = ground (arith, clone_values_depth_twice xs (suc n))
  deep_clone_any_depth_twice (object o) n = ground (arith, clone_map_any_depth_twice o n)

  clone_values_depth_twice :
      (xs : Values) (n : ℕ)
      → clone_values_depth (clone_values_depth xs n) n ≡ clone_values_depth xs n
  clone_values_depth_twice nil n = refl
  clone_values_depth_twice (cons x xs) n =
      cc (deep_clone_any_depth_twice x n, clone_values_depth_twice xs n)

  clone_map_any_depth_twice :
      (o : Object) (n : ℕ)
      → clone_map_any_depth (clone_map_any_depth o n) n ≡ clone_map_any_depth o n
  clone_map_any_depth_twice nil_map n = refl
  clone_map_any_depth_twice (made end) n = refl
  clone_map_any_depth_twice (made (field k v fs)) n =
      ground (arith, deep_clone_any_depth_twice v (suc n), clone_fields_depth_twice fs (suc n))

  clone_fields_depth_twice :
      (fs : Fields) (n : ℕ)
      → clone_fields_depth (clone_fields_depth fs n) n ≡ clone_fields_depth fs n
  clone_fields_depth_twice end n = refl
  clone_fields_depth_twice (field k v fs) n =
      cc (deep_clone_any_depth_twice v n, clone_fields_depth_twice fs n)

clone_manifest_entries_idem :
    (s : Section) → clone_manifest_entries (clone_manifest_entries s) ≡ clone_manifest_entries s
unfolding clone_manifest_entries
clone_manifest_entries_idem none = refl
clone_manifest_entries_idem (some []) = refl
clone_manifest_entries_idem (some (e ∷ es)) = refl

pub clone_manifest_idem : (m : Manifest) → clone_manifest (clone_manifest m) ≡ clone_manifest m
unfolding clone_manifest
clone_manifest_idem m = ground (
  arith,
  clone_map_any_depth_twice m.plugin.metadata 0,
  clone_manifest_entries_idem m.skills,
  clone_manifest_entries_idem m.rules,
  clone_manifest_entries_idem m.hooks,
  clone_manifest_entries_idem m.subagents,
  clone_manifest_entries_idem m.mcps,
)

-- A copy of a copy is the copy.
pub clone_plugin_idem : (p : Plugin) → clone_plugin (clone_plugin p) ≡ clone_plugin p
unfolding clone_plugin
clone_plugin_idem p = ground (arith, clone_manifest_idem p.manifest)
