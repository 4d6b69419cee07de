-- ===== src/Manager/Rollback.antt =====
-- pkg/manager/manager.go: calls of the manager, and what a failed CreatePlugin leaves.
use ana.Base.{◌≡◌, none, List, [], ◌∷◌, Text, after, lookup, Result, ok, err}
use ana.Plugin.{Plugin, Manifest}
use ana.Storage.PluginRepo.{find_plugin}
use ana.Storage.PluginRepo.Invariant.{new-IsIndexed}
use ana.Storage.PluginStorage.{find_blob}
use ana.Manager.{
  Manager, new_manager, CreatePluginRequest, Moment, create_plugin, delete_plugin_by_id, stop_begin,
  stop_end,
}
use ana.Manager.Validation.{ManagerError}
use ana.Manager.Packages.{HasPackages, create_plugin-Created}
use ana.Manager.Undoing.{RolledBack, Ended, created, undone, create_plugin-Ended}
use ana.Manager.Keeping.{
  Created-HasPackages, delete_plugin_by_id-HasPackages, stop_begin-HasPackages,
  stop_end-HasPackages,
}

-- A call of the manager that may write: whole calls, one after the other.
pub data ManagerCall : Type 0 where
  creates : CreatePluginRequest → Moment → ManagerCall
  removes : Text → ManagerCall
  begins_stop ends_stop : ManagerCall

module _ (open_package : Text → Result ManagerError Manifest) (hash : Text → Text) where
  unfoldable pub serve : Manager → ManagerCall → Manager
  serve m (creates req t) = (create_plugin open_package hash m req t).0
  serve m (removes id) = (delete_plugin_by_id m id).0
  serve m begins_stop = after m (stop_begin m)
  serve m ends_stop = stop_end m

  unfoldable pub serve_all : Manager → List ManagerCall → Manager
  serve_all m [] = m
  serve_all m (c ∷ cs) = serve_all (serve m c) cs

  -- The generated id of a creation has no package yet, and no one else calls the repository in it.
  abbrev pub IsFresh : Manager → ManagerCall → Type 0
  IsFresh m (creates req t) = (find_blob t.new_id m.storage ≡ none) × (t.meanwhile ≡ [])
  IsFresh m _ = Unit

  abbrev pub AllFresh : Manager → List ManagerCall → Type 0
  AllFresh m [] = Unit
  AllFresh m (c ∷ cs) = IsFresh m c × AllFresh (serve m c) cs

  serve-HasPackages :
      (m : Manager) (c : ManagerCall)
      → IsFresh m c
      → HasPackages hash m
      → HasPackages hash (serve m c)
  unfolding serve
  serve-HasPackages m (creates req t) fresh h =
      let made = create_plugin open_package hash m req t in
      Created-HasPackages hash m made.0 made.1 h
        (create_plugin-Created hash m h.indexed open_package req t fresh.1 fresh.0)
  serve-HasPackages m (removes id) fresh h = delete_plugin_by_id-HasPackages hash m h id
  serve-HasPackages m begins_stop fresh h = stop_begin-HasPackages hash m h
  serve-HasPackages m ends_stop fresh h = stop_end-HasPackages hash m h

  pub serve_all-HasPackages :
      (m : Manager) (cs : List ManagerCall)
      → AllFresh m cs
      → HasPackages hash m
      → HasPackages hash (serve_all m cs)
  unfolding serve_all
  serve_all-HasPackages m [] fresh h = h
  serve_all-HasPackages m (c ∷ cs) fresh h =
      serve_all-HasPackages (serve m c) cs fresh.1 (serve-HasPackages m c fresh.0 h)

pub new-HasPackages : (hash : Text → Text) → HasPackages hash new_manager
unfolding find_plugin find_blob lookup
new-HasPackages hash = record {
  indexed = new-IsIndexed;
  hashed = λ id b e. absurd (cc);
  small = λ id b e. absurd (cc);
  stored = λ id p e. absurd (cc);
}

-- Of a manager that began empty, after any CreatePlugin, DeletePlugin and Stop one after the other,
-- whichever of them fail, if no one else uses the repository in the middle of one and if each
-- generated id had no package when it was used: each row of the repository has a package in the
-- store, whose length and hash are the row's size and content hash; each package is stored with its
-- own length and hash and is within the store's limit; and the two maps of the repository agree.
pub serve_new-HasPackages :
    (open_package : Text → Result ManagerError Manifest) (hash : Text → Text)
    (cs : List ManagerCall)
    → AllFresh open_package hash new_manager cs
    → HasPackages hash (serve_all open_package hash new_manager cs)
serve_new-HasPackages open_package hash cs fresh =
    serve_all-HasPackages open_package hash new_manager cs fresh (new-HasPackages hash)

undone_of :
    (t : Moment) (m n : Manager) (result : Result ManagerError Plugin) (e : ManagerError)
    → result ≡ err e
    → Ended t m n result
    → RolledBack t m n
undone_of t m n (err e) f same (undone u) = u
undone_of t m n (ok p) f same created = absurd (cc)

-- A CreatePlugin that fails, whatever the reason, whether it was to overwrite a plugin or to add one,
-- and whatever calls of the plugin repository others made between its write of the package and its
-- write of the row (so that the row may be gone or its name taken by then): each package is as it
-- was, and the rows are what they were or what those calls alone made of them. The conditions are
-- that before the call each row had a package of its size and hash, each package was stored with its
-- own length and hash and within the store's limit, and the two maps of the repository agreed; that
-- the generated id had no package; and, as the model has it, that no one else wrote or deleted a
-- package in the middle of the call.
pub create_plugin_undone :
    (open_package : Text → Result ManagerError Manifest) (hash : Text → Text) (m : Manager)
    (req : CreatePluginRequest) (t : Moment) (e : ManagerError)
    → HasPackages hash m
    → find_blob t.new_id m.storage ≡ none
    → (create_plugin open_package hash m req t).1 ≡ err e
    → RolledBack t m (create_plugin open_package hash m req t).0
create_plugin_undone open_package hash m req t e h fresh failed =
    let made = create_plugin open_package hash m req t in
    undone_of t m made.0 made.1 e failed (create_plugin-Ended hash m t open_package req h fresh)
