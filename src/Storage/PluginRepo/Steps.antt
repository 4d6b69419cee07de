-- ===== src/Storage/PluginRepo/Steps.antt =====
-- pkg/storage/memory/plugin_repo.go: each method is a step of the contract.
use ana.Base.{
  ◌≡◌, ◌≢◌, refl, true, false, inl, inr, none, some, List, [], ◌∷◌, Text, arith, Option-cases,
  Bool-cases,
}
use ana.Plugin.{Plugin, plugin_not_found, name_conflict, storage_closed}
use ana.Storage.PluginRepo.{
  NameKey, PluginRepository, new_plugin_repository, plugin_name_key, find_plugin, find_plugin_id,
  put_plugin, drop_name, insert_plugin, update_plugin, get_plugin, get_plugin_by_name,
  delete_plugin, close_plugins, is_other, taken_error,
}
use ana.Storage.PluginRepo.Invariant.{
  IsIndexed, new-IsIndexed, put_fresh-IsIndexed, replaced-IsIndexed, removed-IsIndexed,
  remove_plugin, find_plugin-put_plugin, find_plugin-remove_plugin,
}
use ana.Storage.PluginRepo.Contract.{
  PluginCall, inserts, updates, gets, deletes, gets_by_name, closes, Reply, done, row, failed, call,
  run_calls, view, Same, NameFree, NameHeld, SpecStep, refused, id_taken, name_taken, inserted,
  update_missing, update_name_taken, updated, got, get_missing, got_by_name, name_missing, deleted,
  delete_missing, closed_down,
}

-- What a call leaves is indexed, and the call is a step of the contract.
pub record Refines (r : PluginRepository) (c : PluginCall) : Type 0 where
  pub stays_indexed : IsIndexed (call r c).0
  pub is_step : SpecStep (view r) (view (call r c).0) c (call r c).1

Refines-to :
    (r : PluginRepository) (c : PluginCall) (s : PluginRepository) (reply : Reply)
    → call r c ≡ (s, reply)
    → IsIndexed s
    → SpecStep (view r) (view s) c reply
    → Refines r c
Refines-to r c s reply e indexed step = record { stays_indexed = rw e indexed; is_step = rw e step }

Same-refl : (r : PluginRepository) → Same (view r) (view r)
Same-refl r = record { rows_kept = λ i. refl; shut_kept = refl }

module _ (r : PluginRepository) (h : IsIndexed r) where
  -- The index of names tells who holds a name.
  NameHeld-of_is_other :
      (id : Text) (key : NameKey)
      → is_other (find_plugin_id key r) id ≡ true
      → NameHeld (view r) id key
  unfolding is_other
  NameHeld-of_is_other id key e = elim (Option-cases (find_plugin_id key r)) [
    | inl none_found ↦ absurd (ground arith)
    | inr (i, at) ↦
        let (q, found, same) = h.backed key i at in
        record {
          holder = i;
          held = q;
          holds = found;
          has_name = same;
          another = λ eq. ground arith;
        }
  ]

  NameFree-of_is_other :
      (id : Text) (key : NameKey)
      → is_other (find_plugin_id key r) id ≡ false
      → NameFree (view r) id key
  unfolding is_other
  NameFree-of_is_other id key e i q found same = ground (arith, h.indexed i q found)

  refused_closed :
      (c : PluginCall)
      → r.closed ≡ true
      → c ≢ closes
      → call r c ≡ (r, failed storage_closed)
      → Refines r c
  refused_closed c shut ne e =
      Refines-to r c r (failed storage_closed) e h (refused shut (Same-refl r) ne)

  module _ (unshut : r.closed ≡ false) where
    insert_free :
        (p : Plugin)
        → find_plugin p.id r ≡ none
        → find_plugin_id (plugin_name_key p) r ≡ none
        → Refines r (inserts p)
    insert_free p missing free =
        Refines-to r (inserts p) (put_plugin r p) done
          (unfold call insert_plugin in ground (arith, missing, free, unshut))
          (put_fresh-IsIndexed r h p missing free)
          (inserted unshut missing
            (λ i q found same. ground (arith, h.indexed i q found, same, free))
            (record { row_written = find_plugin-put_plugin r p; still_open = refl }))

    insert_held :
        (p : Plugin) (i : Text)
        → find_plugin p.id r ≡ none
        → find_plugin_id (plugin_name_key p) r ≡ some i
        → Refines r (inserts p)
    insert_held p i missing at =
        let (q, found, same) = h.backed (plugin_name_key p) i at in
        Refines-to r (inserts p) r (failed name_conflict)
          (unfold call insert_plugin in ground (arith, missing, at, unshut)) h
          (name_taken unshut missing
            (record {
              holder = i;
              held = q;
              holds = found;
              has_name = same;
              another = λ eq. ground arith;
            })
            (Same-refl r))

    insert-Refines : (p : Plugin) → Refines r (inserts p)
    insert-Refines p = elim (Option-cases (find_plugin p.id r)) [
      | inr (old, found) ↦
          Refines-to r (inserts p) r (failed (taken_error old p))
            (unfold call insert_plugin in ground (arith, found, unshut)) h
            (id_taken unshut found (Same-refl r))
      | inl missing ↦ elim (Option-cases (find_plugin_id (plugin_name_key p) r)) [
        | inl free ↦ insert_free p missing free
        | inr (i, at) ↦ insert_held p i missing at
      ]
    ]

    update_mine :
        (p old : Plugin)
        → find_plugin p.id r ≡ some old
        → is_other (find_plugin_id (plugin_name_key p) r) p.id ≡ false
        → Refines r (updates p)
    update_mine p old found mine =
        let kept : Plugin = record p { created_at = old.created_at } in
        Refines-to r (updates p) (put_plugin (drop_name r old) kept) done
          (unfold call update_plugin in ground (arith, found, mine, unshut, h.keyed p.id old found))
          (replaced-IsIndexed r h old kept found mine)
          (updated {p = p} unshut found (NameFree-of_is_other p.id (plugin_name_key p) mine)
            (record {
              row_written = unfold find_plugin in find_plugin-put_plugin (drop_name r old) kept;
              still_open = refl;
            }))

    update-Refines : (p : Plugin) → Refines r (updates p)
    update-Refines p = elim (Option-cases (find_plugin p.id r)) [
      | inl missing ↦
          Refines-to r (updates p) r (failed plugin_not_found)
            (unfold call update_plugin in ground (arith, missing, unshut)) h
            (update_missing unshut missing (Same-refl r))
      | inr (old, found) ↦
          elim (Bool-cases (is_other (find_plugin_id (plugin_name_key p) r) p.id)) [
            | inr mine ↦ update_mine p old found mine
            | inl other ↦
                Refines-to r (updates p) r (failed name_conflict)
                  (unfold call update_plugin in ground (arith, found, other, unshut)) h
                  (update_name_taken unshut found
                    (NameHeld-of_is_other p.id (plugin_name_key p) other) (Same-refl r))
          ]
    ]

    get-Refines : (id : Text) → Refines r (gets id)
    get-Refines id = elim (Option-cases (find_plugin id r)) [
      | inl missing ↦
          Refines-to r (gets id) r (failed plugin_not_found)
            (unfold call get_plugin in ground (arith, missing, unshut)) h
            (get_missing unshut missing (Same-refl r))
      | inr (p, found) ↦
          Refines-to r (gets id) r (row p)
            (unfold call get_plugin in ground (arith, found, unshut, h.copied id p found)) h
            (got unshut found (Same-refl r))
    ]

    get_by_name-Refines : (namespace name : Text) → Refines r (gets_by_name namespace name)
    get_by_name-Refines namespace name = elim (Option-cases (find_plugin_id (namespace, name) r)) [
      | inl missing ↦
          Refines-to r (gets_by_name namespace name) r (failed plugin_not_found)
            (unfold call get_plugin_by_name in ground (arith, missing, unshut)) h
            (name_missing unshut
              (λ id p found same. ground (arith, h.indexed id p found, same, missing))
              (Same-refl r))
      | inr (id, at) ↦
          let (p, found, same) = h.backed (namespace, name) id at in
          Refines-to r (gets_by_name namespace name) r (row p)
            (unfold call get_plugin_by_name in
              ground (arith, at, found, unshut, h.copied id p found))
            h (got_by_name unshut found same (Same-refl r))
    ]

    delete-Refines : (id : Text) → Refines r (deletes id)
    delete-Refines id = elim (Option-cases (find_plugin id r)) [
      | inl missing ↦
          Refines-to r (deletes id) r (failed plugin_not_found)
            (unfold call delete_plugin in ground (arith, missing, unshut)) h
            (delete_missing unshut missing (Same-refl r))
      | inr (p, found) ↦
          Refines-to r (deletes id) (remove_plugin r id p) done
            (unfold call delete_plugin in ground (arith, found, unshut))
            (removed-IsIndexed r h id p found)
            (deleted unshut found
              (record { row_written = find_plugin-remove_plugin r id p; still_open = refl }))
    ]

  close-Refines : Refines r closes
  unfolding call close_plugins find_plugin find_plugin_id
  close-Refines = record {
    stays_indexed = record {
      keyed = h.keyed;
      indexed = h.indexed;
      backed = h.backed;
      copied = h.copied;
    };
    is_step = closed_down (λ i. refl) refl;
  }

  shut-Refines : (c : PluginCall) → r.closed ≡ true → Refines r c
  unfolding call insert_plugin update_plugin get_plugin get_plugin_by_name delete_plugin
  shut-Refines closes shut = close-Refines
  shut-Refines (inserts p) shut = refused_closed (inserts p) shut (λ e. cc) (ground (arith, shut))
  shut-Refines (updates p) shut = refused_closed (updates p) shut (λ e. cc) (ground (arith, shut))
  shut-Refines (gets id) shut = refused_closed (gets id) shut (λ e. cc) (ground (arith, shut))
  shut-Refines (deletes id) shut = refused_closed (deletes id) shut (λ e. cc) (ground (arith, shut))
  shut-Refines (gets_by_name namespace name) shut =
      refused_closed (gets_by_name namespace name) shut (λ e. cc) (ground (arith, shut))

  unshut-Refines : (c : PluginCall) → r.closed ≡ false → Refines r c
  unshut-Refines closes unshut = close-Refines
  unshut-Refines (inserts p) unshut = insert-Refines unshut p
  unshut-Refines (updates p) unshut = update-Refines unshut p
  unshut-Refines (gets id) unshut = get-Refines unshut id
  unshut-Refines (deletes id) unshut = delete-Refines unshut id
  unshut-Refines (gets_by_name namespace name) unshut = get_by_name-Refines unshut namespace name

  pub call-Refines : (c : PluginCall) → Refines r c
  call-Refines c = elim (Bool-cases r.closed) [
    | inl shut ↦ shut-Refines c shut
    | inr unshut ↦ unshut-Refines c unshut
  ]

pub run_calls-IsIndexed :
    (r : PluginRepository) (cs : List PluginCall) → IsIndexed r → IsIndexed (run_calls r cs)
unfolding run_calls
run_calls-IsIndexed r [] h = h
run_calls-IsIndexed r (c ∷ cs) h =
    run_calls-IsIndexed (call r c).0 cs (call-Refines r h c).stays_indexed

-- After any calls of a repository that began empty, the next call is a step of a contract that knows
-- only the rows by their id and whether the repository is closed: its reply and the rows it leaves are
-- those that the contract gives. So GetByName finds a row exactly if some row has the name, Insert and
-- Update refuse a name exactly if a row of another id has it, and every refused call leaves all rows.
pub run_new-Refines :
    (cs : List PluginCall) (c : PluginCall)
    → SpecStep
        (view (run_calls new_plugin_repository cs))
        (view (call (run_calls new_plugin_repository cs) c).0)
        c
        (call (run_calls new_plugin_repository cs) c).1
run_new-Refines cs c =
    (call-Refines (run_calls new_plugin_repository cs)
      (run_calls-IsIndexed new_plugin_repository cs new-IsIndexed) c).is_step
