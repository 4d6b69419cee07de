-- ===== src/Manager.antt =====
-- pkg/manager/manager.go and pkg/manager/types.go: the plugins of the manager. Opening a package
-- (OpenZipReader, with the zip and TOML libraries) and SHA-256 are parameters.
pub mod Validation
pub mod Packages
pub mod Keeping
pub mod Undoing
pub mod Rollback
pub mod Workspaces
mod Examples
mod Requests
use ana.Storage.PluginRepo.Listing.{PluginListOptions, list_plugins}
use ana.Base.{
  List, map, ◌&&◌, not, ℕ, ite, Bool, true, false, ◌||◌, Option, none, some, [], ◌∷◌, Text, ne_text,
  length, ltb, Result, ok, err, ◌>>=◌, ◌>>◌, reject_if, if◌then◌else◌,
}
use ana.Plugin.{
  Plugin, Manifest, StoredObject, PluginError, plugin_not_found, corrupt_archive, unsupported,
}
use ana.Workspace.Value.{clone_map_any}
use ana.Plugin.Clone.{clone_manifest_entries}
use ana.Storage.PluginRepo.{
  PluginRepository, new_plugin_repository, insert_plugin, update_plugin, get_plugin,
  get_plugin_by_name, delete_plugin, close_plugins,
}
use ana.Storage.PluginRepo.Contract.{PluginCall, run_calls}
use ana.Storage.PluginStorage.{
  PluginStorage, new_plugin_storage, put, get_blob, delete_blob, presign_url, close_blobs,
}
use ana.Manager.Validation.{
  ManagerError, of_store, joined, shutdown, cancelled, nil_content, name_mismatch,
  unsupported_download_url, in_progress, invalid_namespace, matches_namespace, normalize_namespace,
  validate_namespace, validate_description,
}

-- The fields of `managerFacade` that the plugins need.
pub record Manager : Type 0 where
  pub plugins : PluginRepository
  pub storage : PluginStorage
  pub stop_in_progress : Bool
  pub shut_down : Bool

abbrev pub new_manager : Manager
new_manager = record {
  plugins = new_plugin_repository;
  storage = new_plugin_storage;
  stop_in_progress = false;
  shut_down = false;
}

-- `req.Content`: what reading it to the end gives.
pub data Content : Type 0 where
  no_content : Content
  unreadable : ManagerError → Content
  bytes : Text → Content

pub record CreatePluginRequest : Type 0 where
  pub namespace : Text
  pub name : Text
  pub description : Text
  pub content : Content

-- What a call of `CreatePlugin` takes from its context, the id generator and the clock, and the calls
-- of the plugin repository that other operations make after it wrote the package and before it
-- writes the row: no lock of the manager is held there.
pub record Moment : Type 0 where
  pub is_cancelled : Bool
  pub new_id : Text
  pub created : ℕ
  pub updated : ℕ
  pub meanwhile : List PluginCall

abbrev pub plugin_upload_limit : ℕ
plugin_upload_limit = 67108864

unfoldable pub begin_op : Manager → Result ManagerError Unit
begin_op m = reject_if (m.shut_down || m.stop_in_progress) shutdown

unfoldable pub read_plugin_body : Content → Result ManagerError Text
read_plugin_body no_content = err nil_content
read_plugin_body (unreadable e) = err e
read_plugin_body (bytes body) = do
  reject_if (ltb plugin_upload_limit (length body)) (of_store corrupt_archive)
  ok body

abbrev pub of_repo : {A : Type 0} → Result PluginError A → Result ManagerError A
of_repo (ok a) = ok a
of_repo (err e) = err (of_store e)

-- What is known of a package once the request is checked.
pub record Draft : Type 0 where
  pub namespace : Text
  pub name : Text
  pub description : Text
  pub manifest : Manifest
  pub body : Text

abbrev pub or_else : Text → Text → Text
or_else [] other = other
or_else (c ∷ s) other = c ∷ s

-- `cloneManifest` of pkg/manager/types.go: its copy of the metadata has no limit of depth
unfoldable pub copy_manifest : Manifest → Manifest
copy_manifest m = record m {
  plugin = record m.plugin { metadata = clone_map_any m.plugin.metadata };
  skills = clone_manifest_entries m.skills;
  rules = clone_manifest_entries m.rules;
  hooks = clone_manifest_entries m.hooks;
  subagents = clone_manifest_entries m.subagents;
  mcps = clone_manifest_entries m.mcps;
}

unfoldable pub clone_plugin_value : Plugin → Plugin
unfolding copy_manifest
clone_plugin_value p = record p { manifest = copy_manifest p.manifest }

unfoldable pub plugin_from_row : Plugin → Plugin
unfolding clone_plugin_value
plugin_from_row row = clone_plugin_value (record row { manifest = copy_manifest row.manifest })

unfoldable pub check_request :
    (Text → Result ManagerError Manifest) → CreatePluginRequest → Moment → Result ManagerError Draft
unfolding read_plugin_body
check_request open_package req t = do
  reject_if t.is_cancelled cancelled
  let namespace = normalize_namespace req.namespace
  validate_namespace namespace
  body ← read_plugin_body req.content
  manifest ← open_package body
  let name = or_else req.name manifest.plugin.name
  reject_if (ne_text name manifest.plugin.name) name_mismatch
  let description = or_else req.description manifest.plugin.description
  validate_description description
  ok (record {
    namespace = namespace;
    name = name;
    description = description;
    manifest = manifest;
    body = body;
  })

-- `overwrite` is whether there is a row; ErrPluginNotFound is no error here.
unfoldable pub existing_of : Result PluginError Plugin → Result ManagerError (Option Plugin)
existing_of (ok p) = ok (some p)
existing_of (err plugin_not_found) = ok none
existing_of (err e) = err (of_store e)

abbrev pub row_of : Draft → Text → ℕ → ℕ → StoredObject → Plugin
row_of d id created_at updated_at stored = record {
  id = id;
  namespace = d.namespace;
  name = d.name;
  description = d.description;
  manifest = copy_manifest d.manifest;
  content_hash = stored.content_hash;
  size = stored.size;
  created_at = created_at;
  updated_at = updated_at;
}

abbrev pub with_storage : Manager → PluginStorage → Manager
with_storage m s = record m { storage = s }

abbrev pub with_plugins : Manager → PluginRepository → Manager
with_plugins m r = record m { plugins = r }

-- The manager after the calls of others.
abbrev pub amid : Manager → Moment → Manager
amid m t = with_plugins m (run_calls m.plugins t.meanwhile)

-- A new package is deleted again; the error of that is only logged.
unfoldable pub clean_up : Manager → Text → PluginError → Manager × Result ManagerError Plugin
clean_up m id e = elim (delete_blob m.storage id) [
  | ok s ↦ (with_storage m s, err (of_store e))
  | err delete_error ↦ (m, err (of_store e))
]

unfoldable pub record_insert : Manager → Plugin → Manager × Result ManagerError Plugin
unfolding clean_up plugin_from_row
record_insert m row = elim (insert_plugin m.plugins row) [
  | ok r ↦ (with_plugins m r, ok (plugin_from_row row))
  | err e ↦ clean_up m row.id e
]

module _ (hash : Text → Text) where
  -- `restorePluginBlob`, and the error of the call whose write failed with `e`
  unfoldable pub restore_plugin_blob :
      Manager → Text → Text → PluginError → Manager × Result ManagerError Plugin
  restore_plugin_blob m id old_body e = elim (put hash m.storage id old_body) [
    | ok stored ↦ (with_storage m stored.0, err (of_store e))
    | err rollback_error ↦ (m, err (joined (of_store e) (of_store rollback_error)))
  ]

  unfoldable pub record_update : Manager → Plugin → Text → Manager × Result ManagerError Plugin
  unfolding restore_plugin_blob plugin_from_row
  record_update m row old_body = elim (update_plugin m.plugins row) [
    | ok r ↦ (with_plugins m r, ok (plugin_from_row row))
    | err e ↦ restore_plugin_blob m row.id old_body e
  ]

  -- A package whose name has a row: the old package is kept for the rollback.
  unfoldable pub overwrite_plugin :
      Manager → Draft → Plugin → Moment → Manager × Result ManagerError Plugin
  unfolding record_update
  overwrite_plugin m d existing t = elim (get_blob m.storage existing.id) [
    | err e ↦ (m, err (of_store e))
    | ok old ↦ elim (put hash m.storage existing.id d.body) [
      | err e ↦ (m, err (of_store e))
      | ok stored ↦
          record_update (amid (with_storage m stored.0) t)
            (row_of d existing.id existing.created_at t.updated stored.1) old.0
    ]
  ]

  unfoldable pub add_plugin : Manager → Draft → Moment → Manager × Result ManagerError Plugin
  unfolding record_insert
  add_plugin m d t = elim (put hash m.storage t.new_id d.body) [
    | err e ↦ (m, err (of_store e))
    | ok stored ↦
        record_insert (amid (with_storage m stored.0) t)
          (row_of d t.new_id t.created t.updated stored.1)
  ]

  unfoldable pub store_draft :
      Manager
      → Draft
      → Moment
      → Result ManagerError (Option Plugin)
      → Manager × Result ManagerError Plugin
  unfolding overwrite_plugin add_plugin
  store_draft m d t (err e) = (m, err e)
  store_draft m d t (ok (some existing)) = overwrite_plugin m d existing t
  store_draft m d t (ok none) = add_plugin m d t

module _ (open_package : Text → Result ManagerError Manifest) (hash : Text → Text) where
  unfoldable pub create_plugin :
      Manager → CreatePluginRequest → Moment → Manager × Result ManagerError Plugin
  unfolding check_request store_draft existing_of
  create_plugin m req t = elim (begin_op m >> check_request open_package req t) [
    | err e ↦ (m, err e)
    | ok d ↦ store_draft hash m d t (existing_of (get_plugin_by_name m.plugins d.namespace d.name))
  ]

-- The deletion of the package after that of the row: its error is only logged.
unfoldable pub drop_package : Manager → Text → Manager
drop_package m id = elim (delete_blob m.storage id) [ ok s ↦ record m { storage = s } | err e ↦ m ]

unfoldable pub remove_row : Manager → Plugin → Manager × Result ManagerError Unit
unfolding drop_package
remove_row m row = elim (delete_plugin m.plugins row.id) [
  | err e ↦ (m, err (of_store e))
  | ok r ↦ (drop_package (record m { plugins = r }) row.id, ok tt)
]

unfoldable pub delete_plugin_by_id : Manager → Text → Manager × Result ManagerError Unit
unfolding remove_row
delete_plugin_by_id m id = elim (begin_op m >> of_repo (get_plugin m.plugins id)) [
  | err e ↦ (m, err e)
  | ok row ↦ remove_row m row
]

-- `GetPlugin` and `GetPluginByName`
unfoldable pub get_plugin_by_id : Manager → Text → Result ManagerError Plugin
unfolding plugin_from_row
get_plugin_by_id m id = do
  begin_op m
  row ← of_repo (get_plugin m.plugins id)
  ok (plugin_from_row row)

unfoldable pub get_plugin_named : Manager → Text → Text → Result ManagerError Plugin
unfolding plugin_from_row normalize_namespace
get_plugin_named m namespace name = do
  begin_op m
  validate_namespace (normalize_namespace namespace)
  row ← of_repo (get_plugin_by_name m.plugins (normalize_namespace namespace) name)
  ok (plugin_from_row row)

unfoldable pub list_manager_plugins :
    Manager → PluginListOptions → Result ManagerError (List Plugin × Text)
unfolding plugin_from_row list_plugins
list_manager_plugins m opts = do
  begin_op m
  reject_if (ne_text opts.namespace [] && not (matches_namespace opts.namespace)) invalid_namespace
  page ← of_repo (list_plugins m.plugins opts)
  ok (map plugin_from_row page.0, page.1)

unfoldable pub url_error : PluginError → ManagerError
url_error unsupported = unsupported_download_url
url_error e = of_store e

unfoldable pub of_presign : Result PluginError Text → Result ManagerError Text
unfolding url_error
of_presign (ok url) = ok url
of_presign (err e) = err (url_error e)

unfoldable pub get_plugin_download_url : Manager → Text → Result ManagerError Text
unfolding of_presign
get_plugin_download_url m id = do
  begin_op m
  row ← of_repo (get_plugin m.plugins id)
  of_presign (presign_url m.storage id)

-- The first and the last critical section of `Stop`; the calls that began before end in between.
unfoldable pub stop_begin : Manager → Result ManagerError Manager
stop_begin m =
    if m.shut_down
    then ok m
    else if m.stop_in_progress
    then err in_progress
    else ok (record m { stop_in_progress = true })

unfoldable pub stop_end : Manager → Manager
stop_end m = record m {
  plugins = close_plugins m.plugins;
  storage = close_blobs m.storage;
  shut_down = true;
}
