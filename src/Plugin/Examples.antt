-- ===== src/Plugin/Examples.antt =====
-- The theorems on metadata at small tables, and a table that loses its value in a copy.
use ana.Base.{ℕ, zero, suc, ◌≡◌, ◌≤◌, refl, Bool, true, codes, ok, arith, ◌+◌}
use ana.Workspace.Value.{
  Value, null, text, list, nil, cons, object, Object, made, field, end, clone_map_any,
}
use ana.Registry.{trim_space}
use ana.Plugin.Clone.{clone_map_any_depth}
use ana.Plugin.Metadata.{
  validate_metadata_bounded, walk_metadata, nesting, metadata_size, max_metadata_walk_nodes,
}
use ana.Plugin.Metadata.Bounds.{validate_metadata_bounded_lem}
use ana.Plugin.Metadata.Depth.{clone_map_any_depth-full}

abbrev all_scalars : ℕ → Bool
all_scalars n = true

-- A value under as many maps as the number says, and one more.
abbrev nested : ℕ → Value → Object
nested zero v = made (field (codes "k") v end)
nested (suc n) v = made (field (codes "k") (object (nested n v)) end)

abbrev tags : Object
tags = nested 1 (list (cons (text (codes "v")) nil))

tags_accepted : validate_metadata_bounded all_scalars tags ≡ ok 4093
unfolding validate_metadata_bounded walk_metadata trim_space
tags_accepted = refl

validate_metadata_bounded_lem_example :
    (nesting tags ≤ 34) × (4093 + metadata_size tags ≡ max_metadata_walk_nodes)
validate_metadata_bounded_lem_example =
    validate_metadata_bounded_lem all_scalars tags 4093 tags_accepted

clone_map_any_depth-full_example : clone_map_any_depth tags 0 ≡ clone_map_any tags
clone_map_any_depth-full_example = clone_map_any_depth-full tags (unfold nesting in omega arith)

-- Validation accepts a text under 33 maps.
deep_accepted : validate_metadata_bounded all_scalars (nested 32 (text (codes "v"))) ≡ ok 4063
unfolding validate_metadata_bounded walk_metadata trim_space
deep_accepted = refl

-- The copy has nil in place of the text.
deep_lost : clone_map_any_depth (nested 32 (text (codes "v"))) 0 ≡ nested 32 null
unfolding clone_map_any_depth
deep_lost = refl
