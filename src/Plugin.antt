-- ===== src/Plugin.antt =====
-- pkg/manager/plugin/types.go: the types of plugins and the errors of their stores.
pub mod Clone
pub mod Metadata
mod Examples
use ana.Base.{ℕ, Option, Text, Map}
use ana.Workspace.Value.{Object}

pub record ManifestEntry : Type 0 where
  pub description : Text
  pub display_name : Text
  pub path : Text

pub record ManifestPlugin : Type 0 where
  pub name : Text
  pub description : Text
  pub metadata : Object

-- `map[string]ManifestEntry`, `none` where the map is nil
abbrev pub Section : Type 0
Section = Option (Map Text ManifestEntry)

pub record Manifest : Type 0 where
  pub schema_version : ℕ
  pub plugin : ManifestPlugin
  pub skills : Section
  pub rules : Section
  pub hooks : Section
  pub subagents : Section
  pub mcps : Section

pub record Plugin : Type 0 where
  pub id : Text
  pub namespace : Text
  pub name : Text
  pub description : Text
  pub manifest : Manifest
  pub content_hash : Text
  pub size : ℕ
  pub created_at : ℕ
  pub updated_at : ℕ

pub record StoredObject : Type 0 where
  pub size : ℕ
  pub content_hash : Text

-- The errors of the two stores. `id_and_name_conflict` is `errors.Join` of two of them;
-- `invalid_cursor` and `read_failed` are errors without a name of their own.
pub data PluginError : Type 0 where
  plugin_not_found : PluginError
  name_conflict : PluginError
  id_conflict : PluginError
  id_and_name_conflict : PluginError
  corrupt_archive : PluginError
  storage_closed : PluginError
  storage_not_found : PluginError
  unsupported : PluginError
  invalid_cursor : PluginError
  read_failed : PluginError
