-- ===== src/Storage/PluginRepo/Invariant.antt =====
-- pkg/storage/memory/plugin_repo.go: what every method keeps true of the two maps.
use ana.Base.{
  ◌≡◌, refl, ite, false, none, some, Text, Text-discrete, lookup, erase, lookup-insert,
  lookup-erase, arith, ◌∙◌,
}
use ana.Plugin.{Plugin}
use ana.Plugin.Clone.{clone_plugin, clone_plugin_idem}
use ana.Storage.PluginRepo.{
  NameKey, NameKey-discrete, PluginRepository, new_plugin_repository, plugin_name_key, find_plugin,
  find_plugin_id, put_plugin, drop_name, is_other,
}

-- A row stands under its own id and under its name, a name leads to its row, and rows are copies.
pub record IsIndexed (r : PluginRepository) : Type 0 where
  pub keyed : (id : Text) (p : Plugin) → find_plugin id r ≡ some p → p.id ≡ id
  pub indexed :
      (id : Text) (p : Plugin)
      → find_plugin id r ≡ some p
      → find_plugin_id (plugin_name_key p) r ≡ some id
  pub backed :
      (key : NameKey) (id : Text)
      → find_plugin_id key r ≡ some id
      → (p : Plugin) × (find_plugin id r ≡ some p) × (plugin_name_key p ≡ key)
  pub copied : (id : Text) (p : Plugin) → find_plugin id r ≡ some p → clone_plugin p ≡ p

pub new-IsIndexed : IsIndexed new_plugin_repository
unfolding find_plugin find_plugin_id lookup
new-IsIndexed = record {
  keyed = λ id p e. cc;
  indexed = λ id p e. cc;
  backed = λ key id e. absurd (cc);
  copied = λ id p e. absurd (cc);
}

pub find_plugin-put_plugin :
    (r : PluginRepository) (p : Plugin) (j : Text)
    → find_plugin j (put_plugin r p)
      ≡ ite (Text-discrete p.id j) (some (clone_plugin p)) (find_plugin j r)
unfolding find_plugin
find_plugin-put_plugin r p j = lookup-insert Text-discrete p.id j (clone_plugin p) r.by_id

pub find_plugin_id-put_plugin :
    (r : PluginRepository) (p : Plugin) (key : NameKey)
    → find_plugin_id key (put_plugin r p)
      ≡ ite (NameKey-discrete (plugin_name_key p) key) (some p.id) (find_plugin_id key r)
unfolding find_plugin_id
find_plugin_id-put_plugin r p key =
    lookup-insert NameKey-discrete (plugin_name_key p) key p.id r.id_by_name_key

pub find_plugin_id-drop_name :
    (r : PluginRepository) (p : Plugin) (key : NameKey)
    → find_plugin_id key (drop_name r p)
      ≡ ite (NameKey-discrete (plugin_name_key p) key) none (find_plugin_id key r)
unfolding find_plugin_id
find_plugin_id-drop_name r p key =
    lookup-erase NameKey-discrete (plugin_name_key p) key r.id_by_name_key

pub find_plugin-drop_name :
    (r : PluginRepository) (p : Plugin) (j : Text) → find_plugin j (drop_name r p) ≡ find_plugin j r
unfolding find_plugin
find_plugin-drop_name r p j = refl

pub key-clone_plugin : (p : Plugin) → plugin_name_key (clone_plugin p) ≡ plugin_name_key p
unfolding clone_plugin
key-clone_plugin p = refl

pub id-clone_plugin : (p : Plugin) → (clone_plugin p).id ≡ p.id
unfolding clone_plugin
id-clone_plugin p = refl

-- A new row under a free id and a free name.
module _ (r : PluginRepository) (h : IsIndexed r) (p : Plugin) (fresh : find_plugin p.id r ≡ none)
    (free : find_plugin_id (plugin_name_key p) r ≡ none) where
  put_fresh-backed :
      (key : NameKey) (i : Text)
      → find_plugin_id key (put_plugin r p) ≡ some i
      → (q : Plugin) × (find_plugin i (put_plugin r p) ≡ some q) × (plugin_name_key q ≡ key)
  put_fresh-backed key i e = elim (NameKey-discrete (plugin_name_key p) key) [
    | yes same ↦ (
      clone_plugin p,
      ground (arith, find_plugin-put_plugin r p i, find_plugin_id-put_plugin r p key),
      key-clone_plugin p ∙ same,
    )
    | no ne ↦
        let old = h.backed key i (ground (arith, find_plugin_id-put_plugin r p key)) in
        (old.0, ground (arith, find_plugin-put_plugin r p i, old.1), old.2)
  ]

  pub put_fresh-IsIndexed : IsIndexed (put_plugin r p)
  put_fresh-IsIndexed = record {
    keyed = λ j q e. ground (arith, find_plugin-put_plugin r p j, h.keyed j q, id-clone_plugin p);
    indexed = λ j q e. ground (
      arith,
      find_plugin-put_plugin r p j,
      find_plugin_id-put_plugin r p (plugin_name_key q),
      h.indexed j q,
      key-clone_plugin p,
    );
    backed = put_fresh-backed;
    copied =
        λ j q e. ground (arith, find_plugin-put_plugin r p j, h.copied j q, clone_plugin_idem p);
  }

-- A row in place of `old`, under its id, whose name is free or the old one's.
module _ (r : PluginRepository) (h : IsIndexed r) (old p : Plugin)
    (found : find_plugin p.id r ≡ some old)
    (mine : is_other (find_plugin_id (plugin_name_key p) r) p.id ≡ false) where
  abbrev replaced : PluginRepository
  replaced = put_plugin (drop_name r old) p

  find_replaced :
      (j : Text)
      → find_plugin j replaced
        ≡ ite (Text-discrete p.id j) (some (clone_plugin p)) (find_plugin j r)
  unfolding find_plugin
  find_replaced j = find_plugin-put_plugin (drop_name r old) p j

  find_id_replaced :
      (key : NameKey)
      → find_plugin_id key replaced
        ≡ ite
            (NameKey-discrete (plugin_name_key p) key)
            (some p.id)
            (ite (NameKey-discrete (plugin_name_key old) key) none (find_plugin_id key r))
  find_id_replaced key =
      ground (
        arith,
        find_plugin_id-put_plugin (drop_name r old) p key,
        find_plugin_id-drop_name r old key,
      )

  replaced-indexed :
      (j : Text) (q : Plugin)
      → find_plugin j replaced ≡ some q
      → find_plugin_id (plugin_name_key q) replaced ≡ some j
  unfolding is_other
  replaced-indexed j q e = ground (
    arith,
    find_replaced j,
    find_id_replaced (plugin_name_key q),
    h.indexed j q,
    h.indexed p.id old found,
    key-clone_plugin p,
  )

  replaced-backed :
      (key : NameKey) (i : Text)
      → find_plugin_id key replaced ≡ some i
      → (q : Plugin) × (find_plugin i replaced ≡ some q) × (plugin_name_key q ≡ key)
  replaced-backed key i e = elim (NameKey-discrete (plugin_name_key p) key) [
    | yes same ↦ (
      clone_plugin p,
      ground (arith, find_replaced i, find_id_replaced key),
      key-clone_plugin p ∙ same,
    )
    | no ne ↦
        let before = h.backed key i (ground (arith, find_id_replaced key)) in
        (
          before.0,
          ground (arith, find_replaced i, find_id_replaced key, before.1, before.2),
          before.2,
        )
  ]

  pub replaced-IsIndexed : IsIndexed replaced
  replaced-IsIndexed = record {
    keyed = λ j q e. ground (arith, find_replaced j, h.keyed j q, id-clone_plugin p);
    indexed = replaced-indexed;
    backed = replaced-backed;
    copied = λ j q e. ground (arith, find_replaced j, h.copied j q, clone_plugin_idem p);
  }

abbrev pub remove_plugin : PluginRepository → Text → Plugin → PluginRepository
remove_plugin r id p = record r {
  by_id = erase Text-discrete id r.by_id;
  id_by_name_key = erase NameKey-discrete (plugin_name_key p) r.id_by_name_key;
}

pub find_plugin-remove_plugin :
    (r : PluginRepository) (id : Text) (p : Plugin) (j : Text)
    → find_plugin j (remove_plugin r id p) ≡ ite (Text-discrete id j) none (find_plugin j r)
unfolding find_plugin
find_plugin-remove_plugin r id p j = lookup-erase Text-discrete id j r.by_id

-- A row and its name taken out together.
module _ (r : PluginRepository) (h : IsIndexed r) (id : Text) (p : Plugin)
    (found : find_plugin id r ≡ some p) where
  find_id_removed :
      (key : NameKey)
      → find_plugin_id key (remove_plugin r id p)
        ≡ ite (NameKey-discrete (plugin_name_key p) key) none (find_plugin_id key r)
  unfolding find_plugin_id
  find_id_removed key = find_plugin_id-drop_name r p key

  removed-backed :
      (key : NameKey) (i : Text)
      → find_plugin_id key (remove_plugin r id p) ≡ some i
      → (q : Plugin) × (find_plugin i (remove_plugin r id p) ≡ some q) × (plugin_name_key q ≡ key)
  removed-backed key i e =
      let old = h.backed key i (ground (arith, find_id_removed key)) in
      (
        old.0,
        ground (arith, find_plugin-remove_plugin r id p i, find_id_removed key, old.1, old.2),
        old.2,
      )

  pub removed-IsIndexed : IsIndexed (remove_plugin r id p)
  removed-IsIndexed = record {
    keyed = λ j q e. ground (arith, find_plugin-remove_plugin r id p j, h.keyed j q);
    indexed = λ j q e. ground (
      arith,
      find_plugin-remove_plugin r id p j,
      find_id_removed (plugin_name_key q),
      h.indexed j q,
      h.indexed id p found,
    );
    backed = removed-backed;
    copied = λ j q e. ground (arith, find_plugin-remove_plugin r id p j, h.copied j q);
  }
