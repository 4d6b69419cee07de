-- ===== src/Storage/PluginRepo/Contract.antt =====
-- pkg/manager/plugin/types.go: the contract of `Repository`, over nothing but the rows by their id.
-- The index of names of pkg/storage/memory/plugin_repo.go does not occur in it.
use ana.Base.{
  ◌≡◌, ◌≢◌, ite, Bool, true, false, Option, none, some, List, [], ◌∷◌, Text, Text-discrete, Result,
  ok, err,
}
use ana.Plugin.{Plugin, PluginError, plugin_not_found, name_conflict, storage_closed}
use ana.Plugin.Clone.{clone_plugin}
use ana.Storage.PluginRepo.{
  NameKey, PluginRepository, plugin_name_key, find_plugin, taken_error, insert_plugin,
  update_plugin, get_plugin, get_plugin_by_name, delete_plugin, close_plugins,
}

pub data PluginCall : Type 0 where
  inserts updates : Plugin → PluginCall
  gets deletes : Text → PluginCall
  gets_by_name : Text → Text → PluginCall
  closes : PluginCall

pub data Reply : Type 0 where
  done : Reply
  row : Plugin → Reply
  failed : PluginError → Reply

unfoldable pub written :
    PluginRepository → Result PluginError PluginRepository → PluginRepository × Reply
written r (ok s) = (s, done)
written r (err e) = (r, failed e)

unfoldable pub answered : PluginRepository → Result PluginError Plugin → PluginRepository × Reply
answered r (ok p) = (r, row p)
answered r (err e) = (r, failed e)

unfoldable pub call : PluginRepository → PluginCall → PluginRepository × Reply
unfolding written answered
call r (inserts p) = written r (insert_plugin r p)
call r (updates p) = written r (update_plugin r p)
call r (gets id) = answered r (get_plugin r id)
call r (deletes id) = written r (delete_plugin r id)
call r (gets_by_name namespace name) = answered r (get_plugin_by_name r namespace name)
call r closes = (close_plugins r, done)

unfoldable pub run_calls : PluginRepository → List PluginCall → PluginRepository
run_calls r [] = r
run_calls r (c ∷ cs) = run_calls (call r c).0 cs

-- What the contract speaks of.
pub record View : Type 0 where
  pub rows : Text → Option Plugin
  pub shut : Bool

abbrev pub view : PluginRepository → View
view r = record { rows = λ id. find_plugin id r; shut = r.closed }

pub record Same (v w : View) : Type 0 where
  pub rows_kept : (i : Text) → w.rows i ≡ v.rows i
  pub shut_kept : w.shut ≡ v.shut

pub record Writes (v w : View) (id : Text) (o : Option Plugin) : Type 0 where
  pub row_written : (i : Text) → w.rows i ≡ ite (Text-discrete id i) o (v.rows i)
  pub still_open : w.shut ≡ v.shut

-- No row but the one of `id` has the name.
abbrev pub NameFree : View → Text → NameKey → Type 0
NameFree v id key = (i : Text) (q : Plugin) → v.rows i ≡ some q → plugin_name_key q ≡ key → i ≡ id

-- A row of another id has the name.
pub record NameHeld (v : View) (id : Text) (key : NameKey) : Type 0 where
  pub holder : Text
  pub held : Plugin
  pub holds : v.rows holder ≡ some held
  pub has_name : plugin_name_key held ≡ key
  pub another : holder ≢ id

-- A call from `v` to `w` with its reply.
pub data SpecStep (v w : View) : PluginCall → Reply → Type 0 where
  refused :
      {c : PluginCall}
      → v.shut ≡ true
      → Same v w
      → c ≢ closes
      → SpecStep v w c (failed storage_closed)
  id_taken :
      {p old : Plugin}
      → v.shut ≡ false
      → v.rows p.id ≡ some old
      → Same v w
      → SpecStep v w (inserts p) (failed (taken_error old p))
  name_taken :
      {p : Plugin}
      → v.shut ≡ false
      → v.rows p.id ≡ none
      → NameHeld v p.id (plugin_name_key p)
      → Same v w
      → SpecStep v w (inserts p) (failed name_conflict)
  inserted :
      {p : Plugin}
      → v.shut ≡ false
      → v.rows p.id ≡ none
      → NameFree v p.id (plugin_name_key p)
      → Writes v w p.id (some (clone_plugin p))
      → SpecStep v w (inserts p) done
  update_missing :
      {p : Plugin}
      → v.shut ≡ false
      → v.rows p.id ≡ none
      → Same v w
      → SpecStep v w (updates p) (failed plugin_not_found)
  update_name_taken :
      {p old : Plugin}
      → v.shut ≡ false
      → v.rows p.id ≡ some old
      → NameHeld v p.id (plugin_name_key p)
      → Same v w
      → SpecStep v w (updates p) (failed name_conflict)
  updated :
      {p old : Plugin}
      → v.shut ≡ false
      → v.rows p.id ≡ some old
      → NameFree v p.id (plugin_name_key p)
      → Writes v w p.id (some (clone_plugin (record p { created_at = old.created_at })))
      → SpecStep v w (updates p) done
  got :
      {id : Text} {p : Plugin}
      → v.shut ≡ false
      → v.rows id ≡ some p
      → Same v w
      → SpecStep v w (gets id) (row p)
  get_missing :
      {id : Text}
      → v.shut ≡ false
      → v.rows id ≡ none
      → Same v w
      → SpecStep v w (gets id) (failed plugin_not_found)
  got_by_name :
      {namespace name id : Text} {p : Plugin}
      → v.shut ≡ false
      → v.rows id ≡ some p
      → plugin_name_key p ≡ (namespace, name)
      → Same v w
      → SpecStep v w (gets_by_name namespace name) (row p)
  name_missing :
      {namespace name : Text}
      → v.shut ≡ false
      → ((id : Text) (p : Plugin) → v.rows id ≡ some p → plugin_name_key p ≢ (namespace, name))
      → Same v w
      → SpecStep v w (gets_by_name namespace name) (failed plugin_not_found)
  deleted :
      {id : Text} {p : Plugin}
      → v.shut ≡ false
      → v.rows id ≡ some p
      → Writes v w id none
      → SpecStep v w (deletes id) done
  delete_missing :
      {id : Text}
      → v.shut ≡ false
      → v.rows id ≡ none
      → Same v w
      → SpecStep v w (deletes id) (failed plugin_not_found)
  closed_down : ((i : Text) → w.rows i ≡ v.rows i) → w.shut ≡ true → SpecStep v w closes done
