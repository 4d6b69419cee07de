-- ===== src/Manager/Undoing.antt =====
-- pkg/manager/manager.go: what a CreatePlugin that fails undoes, whatever the plugin repository did
-- after the package was written.
use ana.Base.{
  ◌≡◌, refl, false, ◌⊎◌, inl, inr, none, some, Text, Text-discrete, arith, Result, ok, err, ◌>>◌,
  ap, ◌∙◌, Option-cases, erase,
}
use ana.Plugin.{Plugin, Manifest, PluginError, StoredObject, plugin_not_found}
use ana.Storage.PluginRepo.{insert_plugin, update_plugin, get_plugin_by_name}
use ana.Storage.PluginRepo.Contract.{run_calls}
use ana.Storage.PluginStorage.{
  PluginStorage, MemoryBlob, find_blob, put, put_blob, stored_object, get_blob, delete_blob,
  find_blob-put_blob, find_blob-delete,
}
use ana.Manager.{
  Manager, CreatePluginRequest, Moment, Draft, begin_op, check_request, existing_of, row_of,
  create_plugin, store_draft, add_plugin, overwrite_plugin, record_insert, record_update, clean_up,
  restore_plugin_blob, with_storage, with_plugins, plugin_from_row, amid,
}
use ana.Manager.Validation.{ManagerError, of_store}
use ana.Manager.Packages.{Result-split, HasPackages, put_effect}

-- The packages are what they were, and the rows what others made of them.
pub record RolledBack (t : Moment) (m n : Manager) : Type 0 where
  pub rows_kept : (n.plugins ≡ m.plugins) ⊎ (n.plugins ≡ run_calls m.plugins t.meanwhile)
  pub blobs_same : (j : Text) → find_blob j n.storage ≡ find_blob j m.storage

-- What is claimed of a call by its result.
pub data Ended (t : Moment) (m n : Manager) : Result ManagerError Plugin → Type 0 where
  created : {p : Plugin} → Ended t m n (ok p)
  undone : {e : ManagerError} → RolledBack t m n → Ended t m n (err e)

Ended-as :
    (t : Moment) (m n : Manager) (result : Result ManagerError Plugin)
    (made : Manager × Result ManagerError Plugin)
    → made ≡ (n, result)
    → Ended t m n result
    → Ended t m made.0 made.1
Ended-as t m n result made e c = rw e c

untouched : (t : Moment) (m : Manager) → RolledBack t m m
untouched t m = record { rows_kept = inl refl; blobs_same = λ j. refl }

get_effect :
    (s : PluginStorage) (id : Text) (old : Text × StoredObject)
    → get_blob s id ≡ ok old
    → (b : MemoryBlob) × (find_blob id s ≡ some b) × (b.body ≡ old.0)
unfolding get_blob
get_effect s id old e = elim (Option-cases (find_blob id s)) [
  | inl missing ↦ absurd (ground arith)
  | inr (b, found) ↦ (b, found, ground arith)
]

module _ (hash : Text → Text) (m : Manager) (t : Moment) where
  -- Writing the old package over the new one leaves what there was.
  put_back_same :
      (id body : Text) (b : MemoryBlob) (j : Text)
      → find_blob id m.storage ≡ some b
      → b.object ≡ stored_object hash b.body
      → find_blob j (put_blob hash (put_blob hash m.storage id body) id b.body)
        ≡ find_blob j m.storage
  put_back_same id body b j found hashed =
      let whole : some b ≡ some (record { body = b.body; object = stored_object hash b.body }) =
        ap (λ (o : StoredObject). some (record { body = b.body; object = o })) hashed in
      ground (
        arith,
        whole,
        find_blob-put_blob hash (put_blob hash m.storage id body) id b.body j,
        find_blob-put_blob hash m.storage id body j,
      )

  put_back-Ended :
      (id body : Text) (b : MemoryBlob) (e : PluginError)
      → HasPackages hash m
      → m.storage.closed ≡ false
      → find_blob id m.storage ≡ some b
      → let n = amid (with_storage m (put_blob hash m.storage id body)) t in
        let made = restore_plugin_blob hash n id b.body e in Ended t m made.0 made.1
  unfolding restore_plugin_blob put
  put_back-Ended id body b e h usable found =
      let n = amid (with_storage m (put_blob hash m.storage id body)) t in
      Ended-as t m (with_storage n (put_blob hash n.storage id b.body)) (err (of_store e))
        (restore_plugin_blob hash n id b.body e) (ground (arith, h.small id b found))
        (undone (record {
          rows_kept = inr refl;
          blobs_same = λ j. put_back_same id body b j found (h.hashed id b found);
        }))

  overwritten :
      (d : Draft) (p : Plugin) (old : Text × StoredObject) (b : MemoryBlob)
      → HasPackages hash m
      → get_blob m.storage p.id ≡ ok old
      → put hash m.storage p.id d.body
        ≡ ok (put_blob hash m.storage p.id d.body, stored_object hash d.body)
      → m.storage.closed ≡ false
      → find_blob p.id m.storage ≡ some b
      → b.body ≡ old.0
      → Ended t m (overwrite_plugin hash m d p t).0 (overwrite_plugin hash m d p t).1
  unfolding overwrite_plugin record_update
  overwritten d p old b h old_ok put_ok usable found body =
      let row = row_of d p.id p.created_at t.updated (stored_object hash d.body) in
      let n = amid (with_storage m (put_blob hash m.storage p.id d.body)) t in
      elim (Result-split (update_plugin n.plugins row)) [
        | inl (r, done) ↦
            Ended-as t m (with_plugins n r) (ok (plugin_from_row row))
              (overwrite_plugin hash m d p t) (ground (arith, old_ok, put_ok, done)) created
        | inr (e, failed) ↦
            let back = restore_plugin_blob hash n p.id b.body e in
            Ended-as t m back.0 back.1 (overwrite_plugin hash m d p t)
              (ground (arith, old_ok, put_ok, failed, body))
              (put_back-Ended p.id d.body b e h usable found)
      ]

  added :
      (d : Draft)
      → find_blob t.new_id m.storage ≡ none
      → put hash m.storage t.new_id d.body
        ≡ ok (put_blob hash m.storage t.new_id d.body, stored_object hash d.body)
      → m.storage.closed ≡ false
      → Ended t m (add_plugin hash m d t).0 (add_plugin hash m d t).1
  unfolding add_plugin record_insert clean_up delete_blob find_blob
  added d no_blob put_ok usable =
      let row = row_of d t.new_id t.created t.updated (stored_object hash d.body) in
      let n = amid (with_storage m (put_blob hash m.storage t.new_id d.body)) t in
      elim (Result-split (insert_plugin n.plugins row)) [
        | inl (r, done) ↦
            Ended-as t m (with_plugins n r) (ok (plugin_from_row row)) (add_plugin hash m d t)
              (ground (arith, put_ok, done)) created
        | inr (e, failed) ↦
            Ended-as t m
              (with_storage n
                (record n.storage { blobs = erase Text-discrete t.new_id n.storage.blobs }))
              (err (of_store e)) (add_plugin hash m d t) (ground (arith, put_ok, failed, usable))
              (undone (record {
                rows_kept = inr refl;
                blobs_same = λ j. ground (
                  arith,
                  find_blob-delete (put_blob hash m.storage t.new_id d.body) t.new_id j,
                  find_blob-put_blob hash m.storage t.new_id d.body j,
                  no_blob,
                );
              }))
      ]

  overwrite_plugin-Ended :
      (d : Draft) (p : Plugin)
      → HasPackages hash m
      → Ended t m (overwrite_plugin hash m d p t).0 (overwrite_plugin hash m d p t).1
  overwrite_plugin-Ended d p h = elim (Result-split (get_blob m.storage p.id)) [
    | inr (e1, failed) ↦
        Ended-as t m m (err (of_store e1)) (overwrite_plugin hash m d p t)
          (unfold overwrite_plugin in ground (arith, failed)) (undone (untouched t m))
    | inl (old, old_ok) ↦ elim (Result-split (put hash m.storage p.id d.body)) [
      | inr (e2, failed) ↦
          Ended-as t m m (err (of_store e2)) (overwrite_plugin hash m d p t)
            (unfold overwrite_plugin in ground (arith, old_ok, failed)) (undone (untouched t m))
      | inl (stored, success) ↦
          let (usable, small, written) = put_effect hash m.storage p.id d.body stored success in
          let (b, found, body) = get_effect m.storage p.id old old_ok in
          overwritten d p old b h old_ok (success ∙ ap ok written) usable found body
    ]
  ]

  add_plugin-Ended :
      (d : Draft)
      → find_blob t.new_id m.storage ≡ none
      → Ended t m (add_plugin hash m d t).0 (add_plugin hash m d t).1
  add_plugin-Ended d no_blob = elim (Result-split (put hash m.storage t.new_id d.body)) [
    | inr (e, failed) ↦
        Ended-as t m m (err (of_store e)) (add_plugin hash m d t)
          (unfold add_plugin in ground (arith, failed)) (undone (untouched t m))
    | inl (stored, success) ↦
        let (usable, small, written) = put_effect hash m.storage t.new_id d.body stored success in
        added d no_blob (success ∙ ap ok written) usable
  ]

  store_draft-Ended :
      (d : Draft) (found : Result PluginError Plugin)
      → HasPackages hash m
      → find_blob t.new_id m.storage ≡ none
      → Ended t m
          (store_draft hash m d t (existing_of found)).0
          (store_draft hash m d t (existing_of found)).1
  unfolding store_draft existing_of
  store_draft-Ended d (ok p) h no_blob = overwrite_plugin-Ended d p h
  store_draft-Ended d (err plugin_not_found) h no_blob = add_plugin-Ended d no_blob
  store_draft-Ended d (err other) h no_blob = undone (untouched t m)

  pub create_plugin-Ended :
      (open_package : Text → Result ManagerError Manifest) (req : CreatePluginRequest)
      → HasPackages hash m
      → find_blob t.new_id m.storage ≡ none
      → Ended t m
          (create_plugin open_package hash m req t).0
          (create_plugin open_package hash m req t).1
  unfolding create_plugin
  create_plugin-Ended open_package req h no_blob =
      elim (Result-split (begin_op m >> check_request open_package req t)) [
        | inr (e, failed) ↦
            Ended-as t m m (err e) (create_plugin open_package hash m req t)
              (ground (arith, failed)) (undone (untouched t m))
        | inl (d, checked) ↦
            let drafted =
              store_draft hash m d t
                (existing_of (get_plugin_by_name m.plugins d.namespace d.name)) in
            Ended-as t m drafted.0 drafted.1 (create_plugin open_package hash m req t)
              (ground (arith, checked))
              (store_draft-Ended d (get_plugin_by_name m.plugins d.namespace d.name) h no_blob)
      ]
