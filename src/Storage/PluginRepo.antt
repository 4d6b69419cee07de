-- ===== src/Storage/PluginRepo.antt =====
-- pkg/storage/memory/plugin_repo.go: the in-memory plugin repository. Each method holds the mutex
-- from its first line to its last, so a method is one step of the state.
pub mod Listing
pub mod Invariant
pub mod Contract
pub mod Steps
use ana.Base.{
  ℕ, ite, Bool, true, false, not, ◌&&◌, Option, none, some, [], ◌∷◌, Text, Text-discrete, ne_text,
  Map, lookup, insert, erase, Result, ok, err, ◌>>=◌, ◌>>◌, reject_if, or_fail, ℕ_discrete,
}
use ana.Workspace.Value.{nil_map}
use ana.Plugin.{
  Plugin, PluginError, plugin_not_found, name_conflict, id_conflict, id_and_name_conflict,
  storage_closed,
}
use ana.Plugin.Clone.{clone_plugin}
use ana.Storage.WorkspaceRepo.{is_some}

-- `pluginNameIndexKey`: a namespace and a name
abbrev pub NameKey : Type 0
NameKey = Text × Text

unfoldable pub NameKey-discrete : Discrete NameKey
unfolding Text-discrete
NameKey-discrete = hlevel Text-discrete

pub record PluginRepository : Type 0 where
  pub by_id : Map Text Plugin
  pub id_by_name_key : Map NameKey Text
  pub closed : Bool

abbrev pub new_plugin_repository : PluginRepository
new_plugin_repository = record { by_id = []; id_by_name_key = []; closed = false }

abbrev pub plugin_name_key : Plugin → NameKey
plugin_name_key p = (p.namespace, p.name)

unfoldable pub find_plugin : Text → PluginRepository → Option Plugin
find_plugin id r = lookup Text-discrete id r.by_id

unfoldable pub find_plugin_id : NameKey → PluginRepository → Option Text
find_plugin_id key r = lookup NameKey-discrete key r.id_by_name_key

-- The error of an `Insert` whose id is taken.
unfoldable pub taken_error : Plugin → Plugin → PluginError
taken_error existing p =
    ite (NameKey-discrete (plugin_name_key existing) (plugin_name_key p)) id_and_name_conflict
      id_conflict

unfoldable pub check_id : Option Plugin → Plugin → Result PluginError Unit
unfolding taken_error
check_id none p = ok tt
check_id (some existing) p = err (taken_error existing p)

abbrev pub put_plugin : PluginRepository → Plugin → PluginRepository
put_plugin r p = record r {
  by_id = insert Text-discrete p.id (clone_plugin p) r.by_id;
  id_by_name_key = insert NameKey-discrete (plugin_name_key p) p.id r.id_by_name_key;
}

unfoldable pub insert_plugin : PluginRepository → Plugin → Result PluginError PluginRepository
unfolding check_id
insert_plugin r p = do
  reject_if r.closed storage_closed
  check_id (find_plugin p.id r) p
  reject_if (is_some (find_plugin_id (plugin_name_key p) r)) name_conflict
  ok (put_plugin r p)

-- `exists && otherID != p.ID`
unfoldable pub is_other : Option Text → Text → Bool
is_other none id = false
is_other (some other_id) id = ne_text other_id id

abbrev pub drop_name : PluginRepository → Plugin → PluginRepository
drop_name r existing = record r {
  id_by_name_key = erase NameKey-discrete (plugin_name_key existing) r.id_by_name_key;
}

unfoldable pub update_plugin : PluginRepository → Plugin → Result PluginError PluginRepository
unfolding is_other
update_plugin r p = do
  reject_if r.closed storage_closed
  existing ← or_fail (find_plugin p.id r) plugin_not_found
  reject_if (is_other (find_plugin_id (plugin_name_key p) r) p.id) name_conflict
  let kept = record p { id = existing.id; created_at = existing.created_at }
  ok (put_plugin (drop_name r existing) kept)

unfoldable pub get_plugin : PluginRepository → Text → Result PluginError Plugin
get_plugin r id = do
  reject_if r.closed storage_closed
  p ← or_fail (find_plugin id r) plugin_not_found
  ok (clone_plugin p)

-- What Go reads from the map for a key that is not there.
abbrev pub zero_plugin : Plugin
zero_plugin = record {
  id = [];
  namespace = [];
  name = [];
  description = [];
  manifest = record {
    schema_version = 0;
    plugin = record { name = []; description = []; metadata = nil_map };
    skills = none;
    rules = none;
    hooks = none;
    subagents = none;
    mcps = none;
  };
  content_hash = [];
  size = 0;
  created_at = 0;
  updated_at = 0;
}

abbrev pub plugin_or_zero : Option Plugin → Plugin
plugin_or_zero none = zero_plugin
plugin_or_zero (some p) = p

unfoldable pub get_plugin_by_name : PluginRepository → Text → Text → Result PluginError Plugin
get_plugin_by_name r namespace name = do
  reject_if r.closed storage_closed
  id ← or_fail (find_plugin_id (namespace, name) r) plugin_not_found
  ok (clone_plugin (plugin_or_zero (find_plugin id r)))

unfoldable pub delete_plugin : PluginRepository → Text → Result PluginError PluginRepository
delete_plugin r id = do
  reject_if r.closed storage_closed
  p ← or_fail (find_plugin id r) plugin_not_found
  ok (record r {
    by_id = erase Text-discrete id r.by_id;
    id_by_name_key = erase NameKey-discrete (plugin_name_key p) r.id_by_name_key;
  })

unfoldable pub close_plugins : PluginRepository → PluginRepository
close_plugins r = record r { closed = true }
