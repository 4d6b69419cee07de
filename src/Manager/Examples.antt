-- ===== src/Manager/Examples.antt =====
-- The theorems on plugins at concrete requests, and runs of the manager and of the repository. A
-- package here is the text of its name and its first byte its version; the hash of a text is itself.
use mathlib.Core.Option
use ana.Base.{
  ℕ_discrete, lookup, insert, erase, Text-discrete, ℕ, ◌≡◌, refl, false, none, some, List, [], ◌∷◌,
  Text, codes, Result, ok, err, after,
}
use ana.Workspace.Value.{nil_map, clone_map_any}
use ana.Plugin.Clone.{clone_plugin, clone_manifest, clone_manifest_entries, clone_map_any_depth}
use ana.Plugin.{Plugin, Manifest, name_conflict, plugin_not_found}
use ana.Storage.PluginRepo.{
  PluginRepository, delete_plugin, new_plugin_repository, find_plugin, insert_plugin, update_plugin,
  check_id, is_other, find_plugin_id, NameKey-discrete, get_plugin_by_name,
}
use ana.Storage.PluginRepo.Contract.{
  PluginCall, deletes, inserts, updates, failed, call, run_calls, SpecStep, view, written,
}
use ana.Storage.PluginRepo.Steps.{run_new-Refines}
use ana.Storage.PluginStorage.{
  PluginStorage, find_blob, put, put_blob, get_blob, new_plugin_storage,
}
use ana.Manager.{
  new_manager, CreatePluginRequest, Moment, bytes, create_plugin, begin_op, check_request,
  read_plugin_body, existing_of, store_draft, add_plugin, overwrite_plugin, record_insert,
  record_update, restore_plugin_blob, plugin_from_row, clone_plugin_value, copy_manifest,
}
use ana.Manager.Validation.{
  ManagerError, of_store, unopened, invalid_namespace, validate_namespace, matches_namespace,
  all_namespace_chars, normalize_namespace, validate_description,
}
use ana.Manager.Rollback.{
  ManagerCall, creates, removes, begins_stop, ends_stop, serve, serve_all, serve_new-HasPackages,
  create_plugin_undone,
}
use ana.Manager.Packages.{HasPackages}
use ana.Manager.Undoing.{RolledBack}

abbrev manifest_of : Text → Manifest
manifest_of name = record {
  schema_version = 1;
  plugin = record { name = name; description = []; metadata = nil_map };
  skills = none;
  rules = none;
  hooks = none;
  subagents = none;
  mcps = none;
}

abbrev open_named : Text → Result ManagerError Manifest
open_named [] = err unopened
open_named (version ∷ name) = ok (manifest_of name)

abbrev same_text : Text → Text
same_text body = body

abbrev lint : ℕ → CreatePluginRequest
lint version = record {
  namespace = [];
  name = [];
  description = [];
  content = bytes (version ∷ codes "lint");
}

abbrev at_id : ℕ → Moment
at_id n = record { is_cancelled = false; new_id = n ∷ []; created = n; updated = n; meanwhile = [] }

abbrev history : List ManagerCall
history =
    creates (lint 1) (at_id 1)
    ∷ creates (lint 2) (at_id 2)
    ∷ removes (9 ∷ [])
    ∷ begins_stop
    ∷ ends_stop
    ∷ []

-- The second creation overwrites the first: the row keeps its id.
overwritten :
    find_blob
      (1 ∷ [])
      (serve_all open_named same_text new_manager
        (creates (lint 1) (at_id 1) ∷ creates (lint 2) (at_id 2) ∷ [])).storage
    ≡ some (record {
      body = 2 ∷ codes "lint";
      object = record { size = 5; content_hash = 2 ∷ codes "lint" };
    })
unfolding serve_all serve create_plugin begin_op check_request validate_namespace matches_namespace
    all_namespace_chars normalize_namespace validate_description read_plugin_body existing_of
    store_draft add_plugin overwrite_plugin record_insert record_update plugin_from_row
    clone_plugin_value copy_manifest get_plugin_by_name find_plugin find_plugin_id insert_plugin
    update_plugin check_id is_other put get_blob find_blob lookup insert erase Text-discrete
    NameKey-discrete clone_plugin clone_manifest clone_manifest_entries clone_map_any_depth
    clone_map_any ℕ_discrete run_calls
overwritten = refl

second_is_fresh :
    find_blob
      (2 ∷ [])
      (serve_all open_named same_text new_manager (creates (lint 1) (at_id 1) ∷ [])).storage
    ≡ none
unfolding serve_all serve create_plugin begin_op check_request validate_namespace matches_namespace
    all_namespace_chars normalize_namespace validate_description read_plugin_body existing_of
    store_draft add_plugin overwrite_plugin record_insert record_update plugin_from_row
    clone_plugin_value copy_manifest get_plugin_by_name find_plugin find_plugin_id insert_plugin
    update_plugin check_id is_other put get_blob find_blob lookup insert erase Text-discrete
    NameKey-discrete clone_plugin clone_manifest clone_manifest_entries clone_map_any_depth
    clone_map_any ℕ_discrete run_calls
second_is_fresh = refl

serve_new-HasPackages_example :
    HasPackages same_text (serve_all open_named same_text new_manager history)
serve_new-HasPackages_example = serve_new-HasPackages open_named same_text history (
  (unfold find_blob lookup in refl, refl),
  ((unfold serve_all in second_is_fresh, refl), (tt, (tt, (tt, tt)))),
)

bad_namespace :
    (create_plugin open_named same_text new_manager
      (record (lint 1) { namespace = codes "No" })
      (at_id 1)).1
    ≡ err invalid_namespace
unfolding create_plugin begin_op check_request validate_namespace matches_namespace
    all_namespace_chars normalize_namespace
bad_namespace = refl

-- One plugin, and an overwrite of it whose row is deleted by another call before it is written.
abbrev one_created : List ManagerCall
one_created = creates (lint 1) (at_id 1) ∷ []

abbrev overtaken : Moment
overtaken = record (at_id 2) { meanwhile = deletes (1 ∷ []) ∷ [] }

row_gone :
    (create_plugin open_named same_text
      (serve_all open_named same_text new_manager one_created)
      (lint 2)
      overtaken).1
    ≡ err (of_store plugin_not_found)
unfolding serve_all serve create_plugin begin_op check_request validate_namespace matches_namespace
    all_namespace_chars normalize_namespace validate_description read_plugin_body existing_of
    store_draft add_plugin overwrite_plugin record_insert record_update plugin_from_row
    clone_plugin_value copy_manifest get_plugin_by_name find_plugin find_plugin_id insert_plugin
    update_plugin check_id is_other put get_blob find_blob lookup insert erase Text-discrete
    NameKey-discrete clone_plugin clone_manifest clone_manifest_entries clone_map_any_depth
    clone_map_any ℕ_discrete run_calls call written restore_plugin_blob delete_plugin
row_gone = refl

-- The package of the overwrite is in the store when the row turns out to be gone.
create_plugin_undone_example :
    RolledBack overtaken
      (serve_all open_named same_text new_manager one_created)
      (create_plugin open_named same_text
        (serve_all open_named same_text new_manager one_created)
        (lint 2)
        overtaken).0
create_plugin_undone_example =
    create_plugin_undone open_named same_text
      (serve_all open_named same_text new_manager one_created) (lint 2) overtaken
      (of_store plugin_not_found)
      (serve_new-HasPackages open_named same_text one_created
        ((unfold find_blob lookup in refl, refl), tt))
      second_is_fresh row_gone

abbrev plugin_row : ℕ → Text → ℕ → Text → Plugin
plugin_row id name created hash = record {
  id = id ∷ [];
  namespace = codes "default";
  name = name;
  description = [];
  manifest = manifest_of name;
  content_hash = hash;
  size = 1;
  created_at = created;
  updated_at = created;
}

abbrev two_plugins : List PluginCall
two_plugins = inserts (plugin_row 1 (codes "a") 5 []) ∷ inserts (plugin_row 2 (codes "b") 6 []) ∷ []

-- A row may not take the name of another.
renamed :
    (call (run_calls new_plugin_repository two_plugins) (updates (plugin_row 2 (codes "a") 7 []))).1
    ≡ failed name_conflict
unfolding call run_calls insert_plugin update_plugin check_id is_other find_plugin find_plugin_id
    lookup insert erase Text-discrete NameKey-discrete clone_plugin clone_manifest
    clone_manifest_entries clone_map_any_depth ℕ_discrete written
renamed = refl

run_new-Refines_example :
    SpecStep
      (view (run_calls new_plugin_repository two_plugins))
      (view
        (call
          (run_calls new_plugin_repository two_plugins)
          (updates (plugin_row 2 (codes "a") 7 []))).0)
      (updates (plugin_row 2 (codes "a") 7 []))
      (call
        (run_calls new_plugin_repository two_plugins)
        (updates (plugin_row 2 (codes "a") 7 []))).1
run_new-Refines_example = run_new-Refines two_plugins (updates (plugin_row 2 (codes "a") 7 []))

-- Two overwrites of one plugin at the same time, both between their checks and their write of the
-- row: the package is the second one's and the row the first one's.
abbrev before_overwrites : PluginRepository
before_overwrites =
    after new_plugin_repository
      (insert_plugin new_plugin_repository (plugin_row 1 (codes "a") 5 []))

abbrev after_both_rows : PluginRepository
after_both_rows =
    let s =
      after before_overwrites
        (update_plugin before_overwrites (plugin_row 1 (codes "a") 5 (codes "B"))) in
    after s (update_plugin s (plugin_row 1 (codes "a") 5 (codes "A")))

abbrev after_both_packages : PluginStorage
after_both_packages =
    let s = put_blob same_text new_plugin_storage (1 ∷ []) (codes "A") in
    put_blob same_text s (1 ∷ []) (codes "B")

crossed_overwrites :
    (Option.map (λ p. p.content_hash) (find_plugin (1 ∷ []) after_both_rows) ≡ some (codes "A"))
    × (Option.map (λ b. b.object.content_hash) (find_blob (1 ∷ []) after_both_packages)
        ≡ some (codes "B"))
unfolding insert_plugin update_plugin check_id is_other find_plugin find_plugin_id lookup insert
    erase Text-discrete NameKey-discrete clone_plugin clone_manifest clone_manifest_entries
    clone_map_any_depth ℕ_discrete find_blob
crossed_overwrites = (refl, refl)
