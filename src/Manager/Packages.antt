-- ===== src/Manager/Packages.antt =====
-- pkg/manager/manager.go: CreatePlugin writes a row and a package, or neither.
use ana.Base.{
  ◌≡◌, refl, ltb, length, [], ite, false, ◌⊎◌, inl, inr, none, some, Text, Text-discrete, arith,
  Result, ok, err, ◌>>◌, erase, ap, ◌∙◌, Option-cases,
}
use ana.Plugin.{Plugin, Manifest, PluginError, StoredObject, plugin_not_found}
use ana.Plugin.Clone.{clone_plugin}
use ana.Storage.PluginRepo.{
  PluginRepository, plugin_name_key, find_plugin, find_plugin_id, put_plugin, drop_name,
  insert_plugin, update_plugin, get_plugin_by_name, is_other,
}
use ana.Storage.PluginRepo.Invariant.{
  IsIndexed, put_fresh-IsIndexed, replaced-IsIndexed, find_plugin-put_plugin,
}
use ana.Storage.PluginRepo.Contract.{run_calls}
use ana.Storage.PluginStorage.{
  PluginStorage, MemoryBlob, find_blob, put, put_blob, max_put_body_bytes, stored_object, get_blob,
  delete_blob, find_blob-put_blob, find_blob-delete,
}
use ana.Manager.{
  Manager, CreatePluginRequest, Moment, Draft, begin_op, check_request, existing_of, row_of,
  plugin_from_row, create_plugin, store_draft, add_plugin, overwrite_plugin, record_insert,
  record_update, clean_up, with_storage, with_plugins, amid,
}
use ana.Manager.Validation.{ManagerError, of_store}

pub Result-split {ℓ} :
    {E A : Type ℓ} (r : Result E A) → ((a : A) × (r ≡ ok a)) ⊎ ((e : E) × (r ≡ err e))
Result-split (ok a) = inl (a, refl)
Result-split (err e) = inr (e, refl)

-- What the row of a plugin says of its package.
pub record Describes (p : Plugin) (b : MemoryBlob) : Type 0 where
  pub size_right : p.size ≡ b.object.size
  pub hash_right : p.content_hash ≡ b.object.content_hash

-- Each row has a package of its size and hash, and each package was hashed and is within the limit.
pub record HasPackages (hash : Text → Text) (m : Manager) : Type 0 where
  pub indexed : IsIndexed m.plugins
  pub hashed :
      (id : Text) (b : MemoryBlob)
      → find_blob id m.storage ≡ some b
      → b.object ≡ stored_object hash b.body
  pub small :
      (id : Text) (b : MemoryBlob)
      → find_blob id m.storage ≡ some b
      → ltb max_put_body_bytes (length b.body) ≡ false
  pub stored :
      (id : Text) (p : Plugin)
      → find_plugin id m.plugins ≡ some p
      → (b : MemoryBlob) × (find_blob id m.storage ≡ some b) × Describes p b

-- What CreatePlugin leaves, by its result: nothing of what was, or one row with its package.
pub data Created (hash : Text → Text) (m n : Manager) : Result ManagerError Plugin → Type 0 where
  rejected :
      {e : ManagerError}
      → n.plugins ≡ m.plugins
      → ((j : Text) → find_blob j n.storage ≡ find_blob j m.storage)
      → Created hash m n (err e)
  accepted :
      (row : Plugin) (body : Text)
      → row.size ≡ (stored_object hash body).size
      → row.content_hash ≡ hash body
      → ltb max_put_body_bytes (length body) ≡ false
      → IsIndexed n.plugins
      → ((j : Text)
          → find_plugin j n.plugins
            ≡ ite (Text-discrete row.id j) (some (clone_plugin row)) (find_plugin j m.plugins))
      → ((j : Text)
          → find_blob j n.storage
            ≡ ite
                (Text-discrete row.id j)
                (some (record { body = body; object = stored_object hash body }))
                (find_blob j m.storage))
      → Created hash m n (ok (plugin_from_row row))

Created-as :
    (hash : Text → Text) (m n : Manager) (result : Result ManagerError Plugin)
    (made : Manager × Result ManagerError Plugin)
    → made ≡ (n, result)
    → Created hash m n result
    → Created hash m made.0 made.1
Created-as hash m n result made e c = rw e c

pub put_effect :
    (hash : Text → Text) (s : PluginStorage) (id body : Text)
    (stored : PluginStorage × StoredObject)
    → put hash s id body ≡ ok stored
    → (s.closed ≡ false)
      × (ltb max_put_body_bytes (length body) ≡ false)
      × (stored ≡ (put_blob hash s id body, stored_object hash body))
unfolding put
put_effect hash s id body stored e = ground arith

insert_effect :
    (r s : PluginRepository) (p : Plugin)
    → insert_plugin r p ≡ ok s
    → (find_plugin p.id r ≡ none)
      × (find_plugin_id (plugin_name_key p) r ≡ none)
      × (s ≡ put_plugin r p)
unfolding insert_plugin
insert_effect r s p e = ground arith

amid-quiet :
    (m : Manager) (s : PluginStorage) (t : Moment)
    → t.meanwhile ≡ []
    → amid (with_storage m s) t ≡ with_storage m s
unfolding run_calls
amid-quiet m s t quiet = ap (λ cs. with_plugins (with_storage m s) (run_calls m.plugins cs)) quiet

module _ (hash : Text → Text) (m : Manager) (h : IsIndexed m.plugins) where
  add_undone :
      (d : Draft) (t : Moment) (e : PluginError)
      → find_blob t.new_id m.storage ≡ none
      → t.meanwhile ≡ []
      → put hash m.storage t.new_id d.body
        ≡ ok (put_blob hash m.storage t.new_id d.body, stored_object hash d.body)
      → m.storage.closed ≡ false
      → insert_plugin m.plugins (row_of d t.new_id t.created t.updated (stored_object hash d.body))
        ≡ err e
      → Created hash m (add_plugin hash m d t).0 (add_plugin hash m d t).1
  unfolding add_plugin record_insert run_calls clean_up delete_blob find_blob
  add_undone d t e no_blob quiet put_ok usable failed =
      Created-as hash m
        (with_storage m (record m.storage {
          blobs = erase Text-discrete t.new_id (put_blob hash m.storage t.new_id d.body).blobs;
        }))
        (err (of_store e)) (add_plugin hash m d t)
        (ground (
          arith,
          put_ok,
          failed,
          usable,
          amid-quiet m (put_blob hash m.storage t.new_id d.body) t quiet,
        ))
        (rejected refl λ j. ground (
          arith,
          find_blob-delete (put_blob hash m.storage t.new_id d.body) t.new_id j,
          find_blob-put_blob hash m.storage t.new_id d.body j,
          no_blob,
        ))

  add_done :
      (d : Draft) (t : Moment) (s : PluginRepository)
      → t.meanwhile ≡ []
      → put hash m.storage t.new_id d.body
        ≡ ok (put_blob hash m.storage t.new_id d.body, stored_object hash d.body)
      → ltb max_put_body_bytes (length d.body) ≡ false
      → insert_plugin m.plugins (row_of d t.new_id t.created t.updated (stored_object hash d.body))
        ≡ ok s
      → Created hash m (add_plugin hash m d t).0 (add_plugin hash m d t).1
  unfolding add_plugin record_insert run_calls
  add_done d t s quiet put_ok small done =
      let row = row_of d t.new_id t.created t.updated (stored_object hash d.body) in
      let (missing, free, written) = insert_effect m.plugins s row done in
      Created-as hash m
        (record m {
          plugins = put_plugin m.plugins row;
          storage = put_blob hash m.storage t.new_id d.body;
        })
        (ok (plugin_from_row row)) (add_plugin hash m d t)
        (ground (
          arith,
          put_ok,
          done,
          written,
          amid-quiet m (put_blob hash m.storage t.new_id d.body) t quiet,
        ))
        (accepted row d.body refl refl small (put_fresh-IsIndexed m.plugins h row missing free)
          (find_plugin-put_plugin m.plugins row)
          (find_blob-put_blob hash m.storage t.new_id d.body))

  add_plugin-Created :
      (d : Draft) (t : Moment)
      → t.meanwhile ≡ []
      → find_blob t.new_id m.storage ≡ none
      → Created hash m (add_plugin hash m d t).0 (add_plugin hash m d t).1
  add_plugin-Created d t quiet no_blob = elim (Result-split (put hash m.storage t.new_id d.body)) [
    | inr (e, failed) ↦
        Created-as hash m m (err (of_store e)) (add_plugin hash m d t)
          (unfold add_plugin in ground (arith, failed)) (rejected refl λ j. refl)
    | inl (stored, success) ↦
        let (usable, small, written) = put_effect hash m.storage t.new_id d.body stored success in
        let put_ok = success ∙ ap ok written in
        elim (Result-split (
          insert_plugin m.plugins
            (row_of d t.new_id t.created t.updated (stored_object hash d.body)))) [
              | inl (s, done) ↦ add_done d t s quiet put_ok small done
              | inr (e, failed) ↦ add_undone d t e no_blob quiet put_ok usable failed
            ]
  ]

  -- What finding a row by its name says of the two maps.
  found_by_name :
      (namespace name : Text) (p : Plugin)
      → get_plugin_by_name m.plugins namespace name ≡ ok p
      → (find_plugin p.id m.plugins ≡ some p)
        × (find_plugin_id (namespace, name) m.plugins ≡ some p.id)
        × (m.plugins.closed ≡ false)
  unfolding get_plugin_by_name
  found_by_name namespace name p e =
      elim (Option-cases (find_plugin_id (namespace, name) m.plugins)) [
        | inl missing ↦ absurd (ground arith)
        | inr (i, at) ↦
            let (q, found, same) = h.backed (namespace, name) i at in
            let same_id = h.keyed i q found in
            let same_row : q ≡ p = ground (arith, h.copied i q found) in
            (ground arith, ground arith, ground arith)
      ]

  -- A row that was found by its name can be updated.
  update_found :
      (p row : Plugin)
      → get_plugin_by_name m.plugins row.namespace row.name ≡ ok p
      → row.id ≡ p.id
      → row.created_at ≡ p.created_at
      → (find_plugin row.id m.plugins ≡ some p)
        × (is_other (find_plugin_id (plugin_name_key row) m.plugins) row.id ≡ false)
        × (update_plugin m.plugins row ≡ ok (put_plugin (drop_name m.plugins p) row))
  unfolding update_plugin is_other
  update_found p row e same_id same_age =
      let (found, at, usable) = found_by_name row.namespace row.name p e in
      (ground arith, ground arith, ground arith)

  overwrite_done :
      (d : Draft) (p : Plugin) (t : Moment) (old : Text × StoredObject)
      → get_plugin_by_name m.plugins d.namespace d.name ≡ ok p
      → get_blob m.storage p.id ≡ ok old
      → t.meanwhile ≡ []
      → put hash m.storage p.id d.body
        ≡ ok (put_blob hash m.storage p.id d.body, stored_object hash d.body)
      → ltb max_put_body_bytes (length d.body) ≡ false
      → Created hash m (overwrite_plugin hash m d p t).0 (overwrite_plugin hash m d p t).1
  unfolding overwrite_plugin record_update find_plugin run_calls
  overwrite_done d p t old e old_ok quiet put_ok small =
      let row = row_of d p.id p.created_at t.updated (stored_object hash d.body) in
      let (found, mine, written) = update_found p row e refl refl in
      Created-as hash m
        (record m {
          plugins = put_plugin (drop_name m.plugins p) row;
          storage = put_blob hash m.storage p.id d.body;
        })
        (ok (plugin_from_row row)) (overwrite_plugin hash m d p t)
        (ground (
          arith,
          old_ok,
          put_ok,
          written,
          amid-quiet m (put_blob hash m.storage p.id d.body) t quiet,
        ))
        (accepted row d.body refl refl small (replaced-IsIndexed m.plugins h p row found mine)
          (find_plugin-put_plugin (drop_name m.plugins p) row)
          (find_blob-put_blob hash m.storage p.id d.body))

  overwrite_plugin-Created :
      (d : Draft) (p : Plugin) (t : Moment)
      → t.meanwhile ≡ []
      → get_plugin_by_name m.plugins d.namespace d.name ≡ ok p
      → Created hash m (overwrite_plugin hash m d p t).0 (overwrite_plugin hash m d p t).1
  overwrite_plugin-Created d p t quiet e = elim (Result-split (get_blob m.storage p.id)) [
    | inr (e1, failed) ↦
        Created-as hash m m (err (of_store e1)) (overwrite_plugin hash m d p t)
          (unfold overwrite_plugin in ground (arith, failed)) (rejected refl λ j. refl)
    | inl (old, old_ok) ↦ elim (Result-split (put hash m.storage p.id d.body)) [
      | inr (e2, failed) ↦
          Created-as hash m m (err (of_store e2)) (overwrite_plugin hash m d p t)
            (unfold overwrite_plugin in ground (arith, old_ok, failed)) (rejected refl λ j. refl)
      | inl (stored, success) ↦
          let (usable, small, written) = put_effect hash m.storage p.id d.body stored success in
          overwrite_done d p t old e old_ok quiet (success ∙ ap ok written) small
    ]
  ]

  store_draft-Created :
      (d : Draft) (t : Moment) (found : Result PluginError Plugin)
      → t.meanwhile ≡ []
      → find_blob t.new_id m.storage ≡ none
      → get_plugin_by_name m.plugins d.namespace d.name ≡ found
      → Created hash m
          (store_draft hash m d t (existing_of found)).0
          (store_draft hash m d t (existing_of found)).1
  unfolding store_draft existing_of
  store_draft-Created d t (ok p) quiet no_blob e = overwrite_plugin-Created d p t quiet e
  store_draft-Created d t (err plugin_not_found) quiet no_blob e =
      add_plugin-Created d t quiet no_blob
  store_draft-Created d t (err other) quiet no_blob e = rejected refl λ j. refl

  -- CreatePlugin with a generated id that has no package and no call of others in between.
  pub create_plugin-Created :
      (open_package : Text → Result ManagerError Manifest) (req : CreatePluginRequest) (t : Moment)
      → t.meanwhile ≡ []
      → find_blob t.new_id m.storage ≡ none
      → Created hash m
          (create_plugin open_package hash m req t).0
          (create_plugin open_package hash m req t).1
  unfolding create_plugin
  create_plugin-Created open_package req t quiet no_blob =
      elim (Result-split (begin_op m >> check_request open_package req t)) [
        | inr (e, failed) ↦
            Created-as hash m m (err e) (create_plugin open_package hash m req t)
              (ground (arith, failed)) (rejected refl λ j. refl)
        | inl (d, checked) ↦
            let drafted =
              store_draft hash m d t
                (existing_of (get_plugin_by_name m.plugins d.namespace d.name)) in
            Created-as hash m drafted.0 drafted.1 (create_plugin open_package hash m req t)
              (ground (arith, checked))
              (store_draft-Created d t (get_plugin_by_name m.plugins d.namespace d.name) quiet
                no_blob refl)
      ]
