-- ===== src/Controller/Plugins.antt =====
-- pkg/manager/workspace/controller.go: `attachPlugins`. What the plugin storage, the zip reader and the
-- layout do with the plugin at a position of the list is a record; closing readers has no other effect.
use ana.Base.{
  ℕ, ◌+◌, ◌||◌, ◌&&◌, Bool, true, false, Option, none, some, List, [], ◌∷◌, ◌++◌, Text,
  Text-discrete, ne_text, ite, if◌then◌else◌, Result, ok, err, ◌>>=◌, ◌>>◌, reject_if,
}
use ana.Workspace.{AttachedPlugin}
use ana.Workspace.Failure.{GoError, storage_not_found, plugin_not_found, plugin_hash_mismatch, wrap}

-- The storage gives an error or a body with its content hash; opening the package, closing the body and
-- closing the reader give an error or nothing; the layout gives a directory key, and the placed paths.
pub record PluginRun : Type 0 where
  pub body : Result GoError Text
  pub opened : Option GoError
  pub body_closed : Option GoError
  pub directory : Result GoError Text
  pub applied : Result GoError (Option (List Text))
  pub reader_closed : Option GoError

-- `errors.Join` of two errors
abbrev pub join : GoError → GoError → GoError
join e f = record { message = e.message ++ 10 ∷ f.message; is = λ s. e.is s || f.is s }

abbrev open_body : AttachedPlugin → PluginRun → Result GoError Text → Result GoError Unit
open_body p run (err e) =
    if e.is storage_not_found then err (wrap plugin_not_found p.plugin_id) else err e
open_body p run (ok content_hash) =
    if ne_text content_hash p.content_hash
    then err (wrap plugin_hash_mismatch p.plugin_id)
    else elim run.opened [
      | some e ↦ elim run.body_closed [ none ↦ err e | some f ↦ err (join e f) ]
      | none ↦ elim run.body_closed [ none ↦ ok tt | some f ↦ err f ]
    ]

unfoldable pub open_plugin : AttachedPlugin → PluginRun → Result GoError Unit
open_plugin p run = open_body p run run.body

unfoldable pub open_plugins : (ℕ → PluginRun) → ℕ → List AttachedPlugin → Result GoError Unit
unfolding open_plugin
open_plugins runs i [] = ok tt
open_plugins runs i (p ∷ ps) = do open_plugin p (runs i); open_plugins runs (i + 1) ps

-- `%w: duplicate plugin layout directory %q` of a sentinel that this package does not look for
abbrev duplicate_directory : Text → GoError
duplicate_directory directory = record { message = directory; is = λ s. false }

unfoldable pub is_seen : Text → List Text → Bool
is_seen a [] = false
is_seen a (b ∷ bs) = ite (Text-discrete a b) true (is_seen a bs)

unfoldable pub check_directories :
    (ℕ → PluginRun) → ℕ → List Text → List AttachedPlugin → Result GoError Unit
unfolding is_seen
check_directories runs i seen [] = ok tt
check_directories runs i seen (p ∷ ps) = do
  directory ← (runs i).directory
  reject_if (ne_text directory [] && is_seen directory seen) (duplicate_directory directory)
  check_directories runs (i + 1) (if ne_text directory [] then directory ∷ seen else seen) ps

unfoldable pub apply_plugin : AttachedPlugin → PluginRun → Result GoError AttachedPlugin
apply_plugin p run = elim run.applied [
  | err e ↦ elim run.reader_closed [ none ↦ err e | some f ↦ err (join e f) ]
  | ok placed_paths ↦ elim run.reader_closed [
    | none ↦ ok (record p { placed_paths = placed_paths })
    | some f ↦ err f
  ]
]

unfoldable pub apply_plugins :
    (ℕ → PluginRun) → ℕ → List AttachedPlugin → Result GoError (List AttachedPlugin)
unfolding apply_plugin
apply_plugins runs i [] = ok []
apply_plugins runs i (p ∷ ps) = do
  q ← apply_plugin p (runs i)
  qs ← apply_plugins runs (i + 1) ps
  ok (q ∷ qs)

unfoldable pub attach_plugins :
    Bool
    → (ℕ → PluginRun)
    → Option (List AttachedPlugin)
    → Result GoError (Option (List AttachedPlugin))
unfolding open_plugins check_directories apply_plugins
attach_plugins has_directory_keys runs none = ok none
attach_plugins has_directory_keys runs (some []) = ok none
attach_plugins has_directory_keys runs (some (p ∷ ps)) = do
  open_plugins runs 0 (p ∷ ps)
  elim has_directory_keys [ true ↦ check_directories runs 0 [] (p ∷ ps) | false ↦ ok tt ]
  attached ← apply_plugins runs 0 (p ∷ ps)
  ok (some attached)
