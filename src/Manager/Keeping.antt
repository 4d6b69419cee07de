-- ===== src/Manager/Keeping.antt =====
-- pkg/manager/manager.go: each call of the manager leaves every row its package.
use ana.Base.{
  ◌≡◌, sym, ite, true, inl, inr, none, some, Text, Text-discrete, arith, Option-cases, Bool-cases,
  after, if◌then◌else◌, Result, ok, err, ◌>>◌,
}
use ana.Plugin.{Plugin}
use ana.Plugin.Clone.{clone_plugin}
use ana.Storage.PluginRepo.{
  close_plugins, find_plugin_id, PluginRepository, find_plugin, get_plugin, delete_plugin,
}
use ana.Storage.PluginRepo.Invariant.{removed-IsIndexed, remove_plugin, find_plugin-remove_plugin}
use ana.Storage.PluginStorage.{find_blob, stored_object, delete_blob, close_blobs, find_blob-delete}
use ana.Manager.{
  Manager, begin_op, of_repo, delete_plugin_by_id, remove_row, drop_package, stop_begin, stop_end,
}
use ana.Manager.Validation.{ManagerError}
use ana.Manager.Packages.{Result-split, HasPackages, Created, rejected, accepted}

pub Created-HasPackages :
    (hash : Text → Text) (m n : Manager) (result : Result ManagerError Plugin)
    → HasPackages hash m
    → Created hash m n result
    → HasPackages hash n
Created-HasPackages hash m n (err e) h (rejected same_rows same_blobs) = record {
  indexed = rw same_rows h.indexed;
  hashed = λ id b e. h.hashed id b (ground (arith, same_blobs id));
  small = λ id b e. h.small id b (ground (arith, same_blobs id));
  stored = λ id p e.
      let old = h.stored id p (ground (arith, same_rows)) in
      (old.0, ground (arith, same_blobs id, old.1), old.2);
}
Created-HasPackages hash m n (ok result) h
      (accepted row body size hashed small indexed rows blobs) =
    record {
      indexed = indexed;
      hashed = λ id b e. ground (arith, blobs id, h.hashed id b);
      small = λ id b e. ground (arith, blobs id, h.small id b, small);
      stored = λ id p e. elim (Text-discrete row.id id) [
        | yes same ↦
            let copied : clone_plugin row ≡ p = ground (arith, rows id) in
            (
              record { body = body; object = stored_object hash body },
              ground (arith, blobs id),
              record {
                size_right = unfold clone_plugin in ground arith;
                hash_right = unfold clone_plugin in ground arith;
              },
            )
        | no ne ↦
            let old = h.stored id p (ground (arith, rows id)) in
            (old.0, ground (arith, blobs id, old.1), old.2)
      ];
    }

packages_as :
    (hash : Text → Text) (made n : Manager) → made ≡ n → HasPackages hash n → HasPackages hash made
packages_as hash made n e h = rw e h

drop_package_rows : (m : Manager) (id : Text) → (drop_package m id).plugins ≡ m.plugins
unfolding drop_package
drop_package_rows m id = ground arith

drop_package_blobs :
    (m : Manager) (id j : Text)
    → find_blob j (drop_package m id).storage ≡ (
        if m.storage.closed
        then find_blob j m.storage
        else ite (Text-discrete id j) none (find_blob j m.storage))
unfolding drop_package delete_blob find_blob
drop_package_blobs m id j = ground (arith, find_blob-delete m.storage id j)

delete_effect :
    (r s : PluginRepository) (id : Text)
    → delete_plugin r id ≡ ok s
    → (p : Plugin) × (find_plugin id r ≡ some p) × (s ≡ remove_plugin r id p)
unfolding delete_plugin
delete_effect r s id e = elim (Option-cases (find_plugin id r)) [
  | inl missing ↦ absurd (ground arith)
  | inr (p, found) ↦ (p, found, ground arith)
]

module _ (hash : Text → Text) (m : Manager) (h : HasPackages hash m) where
  remove_done :
      (id : Text) (p : Plugin)
      → find_plugin id m.plugins ≡ some p
      → HasPackages hash (drop_package (record m { plugins = remove_plugin m.plugins id p }) id)
  remove_done id p found =
      let n : Manager = record m { plugins = remove_plugin m.plugins id p } in
      record {
        indexed = rw (drop_package_rows n id) (removed-IsIndexed m.plugins h.indexed id p found);
        hashed = λ j b e. ground (arith, drop_package_blobs n id j, h.hashed j b);
        small = λ j b e. ground (arith, drop_package_blobs n id j, h.small j b);
        stored = λ j q e.
            let gone = find_plugin-remove_plugin m.plugins id p j in
            let at : find_plugin j n.plugins ≡ some q = rw (sym (drop_package_rows n id)) e in
            let old = h.stored j q (ground (arith, gone, at)) in
            (old.0, ground (arith, drop_package_blobs n id j, gone, at, old.1), old.2);
      }

  remove_row-HasPackages : (row : Plugin) → HasPackages hash (remove_row m row).0
  remove_row-HasPackages row = elim (Result-split (delete_plugin m.plugins row.id)) [
    | inr (e, failed) ↦
        packages_as hash (remove_row m row).0 m (unfold remove_row in ground (arith, failed)) h
    | inl (s, done) ↦
        let (p, found, written) = delete_effect m.plugins s row.id done in
        packages_as hash (remove_row m row).0
          (drop_package (record m { plugins = remove_plugin m.plugins row.id p }) row.id)
          (unfold remove_row in ground (arith, done, written)) (remove_done row.id p found)
  ]

  pub delete_plugin_by_id-HasPackages : (id : Text) → HasPackages hash (delete_plugin_by_id m id).0
  delete_plugin_by_id-HasPackages id =
      elim (Result-split (begin_op m >> of_repo (get_plugin m.plugins id))) [
        | inr (e, failed) ↦
            packages_as hash (delete_plugin_by_id m id).0 m
              (unfold delete_plugin_by_id in ground (arith, failed)) h
        | inl (row, found) ↦
            packages_as hash (delete_plugin_by_id m id).0 (remove_row m row).0
              (unfold delete_plugin_by_id in ground (arith, found)) (remove_row-HasPackages row)
      ]

  pub stop_begin-HasPackages : HasPackages hash (after m (stop_begin m))
  unfolding stop_begin
  stop_begin-HasPackages = elim (Bool-cases m.shut_down) [
    | inl shut ↦ packages_as hash (after m (stop_begin m)) m (ground arith) h
    | inr up ↦ elim (Bool-cases m.stop_in_progress) [
      | inl busy ↦ packages_as hash (after m (stop_begin m)) m (ground arith) h
      | inr idle ↦
          packages_as hash (after m (stop_begin m)) (record m { stop_in_progress = true })
            (ground arith)
            (record { indexed = h.indexed; hashed = h.hashed; small = h.small; stored = h.stored })
    ]
  ]

  pub stop_end-HasPackages : HasPackages hash (stop_end m)
  unfolding stop_end close_plugins close_blobs find_plugin find_plugin_id find_blob
  stop_end-HasPackages = record {
    indexed = record {
      keyed = h.indexed.keyed;
      indexed = h.indexed.indexed;
      backed = h.indexed.backed;
      copied = h.indexed.copied;
    };
    hashed = h.hashed;
    small = h.small;
    stored = h.stored;
  }
