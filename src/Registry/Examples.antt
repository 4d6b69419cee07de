-- ===== src/Registry/Examples.antt =====
-- The registry's theorems at small configurations and a short history.
use ana.Base.{
  ℕ, zero, suc, ◌≡◌, refl, true, false, none, some, List, [], ◌∷◌, codes, arith, ◌⊎◌, lookup,
  insert, erase, Text-discrete,
}
use ana.Registry.{
  RuntimeConfig, Workspace, chat_api, new_memory, register, update, validate_workspace, find_row,
  find_id, set_enabled,
}
use ana.Registry.Agreement.{Agrees}
use ana.Registry.Calls.{Call, registers, updates, sets_enabled, run, run_new-Agrees}
use ana.Registry.Config.{
  scalar, pointer, slice, held, shared, pointer_copy, scalar_copy, copies, no_copies, nil, cons,
  Heap, first_values, is_member, has_runtime_config_cycle, clone_runtime_config, clone_contents,
  visit, detect,
}
use ana.Registry.Config.Finite.{Finite, pointer_ends, cons_ends, held_ends, nil_ends, scalar_ends}
use ana.Registry.Config.Search.{AllWhole, pointer_whole, cons_whole, nil_whole, scalar_whole}
use ana.Registry.Config.Fuel.{
  IsWithin, AllWithin, pointer_within, cons_within, nil_within, scalar_within,
  has_runtime_config_cycle_lem,
}
use ana.Registry.Config.Cloning.{EndsWith, IsCloneOf, clone_runtime_config_ends}

-- A map at 0 that holds a number and twice the same pointer, to a number.
abbrev common : Heap
common zero = cons (scalar 3) (cons (pointer 1) (cons (pointer 1) nil))
common (suc zero) = cons (scalar 4) nil
common _ = nil

common_whole : (k : ℕ) → AllWhole common (common k)
common_whole zero =
    cons_whole scalar_whole (cons_whole pointer_whole (cons_whole pointer_whole nil_whole))
common_whole (suc zero) = cons_whole scalar_whole nil_whole
common_whole (suc (suc k)) = nil_whole

common_within : (k : ℕ) → AllWithin (0 ∷ 1 ∷ []) (common k)
unfolding is_member
common_within zero =
    cons_within scalar_within
      (cons_within (pointer_within refl) (cons_within (pointer_within refl) nil_within))
common_within (suc zero) = cons_within scalar_within nil_within
common_within (suc (suc k)) = nil_within

common_ends : Finite common (pointer 0)
common_ends = pointer_ends (
    cons_ends scalar_ends (
      cons_ends (pointer_ends (cons_ends scalar_ends nil_ends))
        (cons_ends (pointer_ends (cons_ends scalar_ends nil_ends)) nil_ends)))

IsWithin-keys : IsWithin (0 ∷ 1 ∷ []) (pointer 0)
unfolding is_member
IsWithin-keys = pointer_within refl

has_runtime_config_cycle_lem_example :
    (Finite common (pointer 0) × (has_runtime_config_cycle 2 common (pointer 0) ≡ some false))
    ⊎ ((¬ Finite common (pointer 0)) × (has_runtime_config_cycle 2 common (pointer 0) ≡ some true))
has_runtime_config_cycle_lem_example =
    has_runtime_config_cycle_lem (0 ∷ 1 ∷ []) 2 common (pointer 0) common_within IsWithin-keys
      common_whole pointer_whole (omega arith)

-- A map at 0 whose only key is a pointer and its value the same pointer: the copy shares the key.
abbrev keyed : Heap
keyed zero = cons (held (pointer 1)) (cons (pointer 1) nil)
keyed (suc zero) = cons (scalar 4) nil
keyed _ = nil

four_ends : Finite keyed (pointer 1)
four_ends = pointer_ends (cons_ends scalar_ends nil_ends)

keyed_ends : Finite keyed (pointer 0)
keyed_ends = pointer_ends (cons_ends (held_ends four_ends) (cons_ends four_ends nil_ends))

keyed_copy :
    clone_runtime_config 2 keyed (pointer 0)
    ≡ some (
        pointer_copy (
          copies
            (shared (pointer 1))
            (copies (pointer_copy (copies (scalar_copy 4) no_copies)) no_copies)))
unfolding clone_runtime_config clone_contents
keyed_copy = refl

clone_runtime_config_ends_example :
    EndsWith
      (λ fuel. clone_runtime_config fuel keyed (pointer 0))
      (λ c. IsCloneOf keyed c (pointer 0))
clone_runtime_config_ends_example = clone_runtime_config_ends keyed (pointer 0) keyed_ends

-- A map that holds a slice of one element, and one of two of the same array, whose second is the map.
abbrev overlapping : Heap
overlapping zero = cons (slice 1 1) (cons (slice 1 2) nil)
overlapping (suc zero) = cons (scalar 3) (cons (pointer 0) nil)
overlapping _ = nil

-- The search takes both slices for one reference, and misses the cycle.
missed_cycle : has_runtime_config_cycle 2 overlapping (pointer 0) ≡ some false
unfolding has_runtime_config_cycle visit is_member detect first_values
missed_cycle = refl

-- The copy then does not end.
endless_copy : clone_runtime_config 20 overlapping (pointer 0) ≡ none
unfolding clone_runtime_config clone_contents first_values
endless_copy = refl

abbrev workspace : Workspace RuntimeConfig
workspace = record {
  workspace_id = codes " w1 ";
  alias = codes "planner";
  runtime_type = codes "claude";
  runtime_kind = chat_api;
  description = [];
  enabled = true;
  is_default_entry = true;
  runtime_config = (common, pointer 0);
}

abbrev calls : List Call
calls =
    registers workspace (some 7)
    ∷ registers (record workspace { workspace_id = codes "w2"; alias = codes "coder" }) (some 8)
    ∷ sets_enabled false (codes "w1")
    ∷ updates (record workspace { is_default_entry = false })
    ∷ []

run_new-Agrees_example : Agrees (run 2 new_memory calls)
run_new-Agrees_example = run_new-Agrees 2 calls

-- The second registration takes the default over.
default_test : (run 2 new_memory calls).default_id ≡ codes "w2"
unfolding run register update set_enabled validate_workspace has_runtime_config_cycle visit
    is_member detect clone_runtime_config clone_contents find_row find_id lookup insert erase
    Text-discrete
default_test = refl
