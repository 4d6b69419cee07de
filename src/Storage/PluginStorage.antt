-- ===== src/Storage/PluginStorage.antt =====
-- pkg/storage/memory/plugin_storage.go: the in-memory store of plugin packages. The SHA-256 of
-- pkg/manager/plugin/hash.go is the parameter `hash`, which gives the text "sha256:<hex>".
use ana.Base.{
  ℕ, Bool, true, false, Option, none, some, List, [], map, length, Text, Text-discrete,
  compare_text, Map, lookup, insert, erase, ltb, Result, ok, err, ◌>>=◌, ◌>>◌, reject_if, or_fail,
  ◌≡◌, ite, lookup-insert, lookup-erase,
}
use ana.Base.Sorting.{sort}
use ana.Plugin.{
  StoredObject, PluginError, corrupt_archive, storage_closed, storage_not_found, unsupported,
}

pub record MemoryBlob : Type 0 where
  pub body : Text
  pub object : StoredObject

pub record PluginStorage : Type 0 where
  pub blobs : Map Text MemoryBlob
  pub closed : Bool

abbrev pub new_plugin_storage : PluginStorage
new_plugin_storage = record { blobs = []; closed = false }

unfoldable pub find_blob : Text → PluginStorage → Option MemoryBlob
find_blob id s = lookup Text-discrete id s.blobs

abbrev pub max_put_body_bytes : ℕ
max_put_body_bytes = 268435456

-- What `Put` notes of a body.
abbrev pub stored_object : (Text → Text) → Text → StoredObject
stored_object hash body = record { size = length body; content_hash = hash body }

abbrev pub put_blob : (Text → Text) → PluginStorage → Text → Text → PluginStorage
put_blob hash s id body = record s {
  blobs =
      insert Text-discrete id (record { body = body; object = stored_object hash body }) s.blobs;
}

-- `Put` of a body that is read in full and without error, with no other call between its two locks.
unfoldable pub put :
    (Text → Text) → PluginStorage → Text → Text → Result PluginError (PluginStorage × StoredObject)
put hash s id body = do
  reject_if s.closed storage_closed
  reject_if (ltb max_put_body_bytes (length body)) corrupt_archive
  ok (put_blob hash s id body, stored_object hash body)

unfoldable pub get_blob : PluginStorage → Text → Result PluginError (Text × StoredObject)
get_blob s id = do
  reject_if s.closed storage_closed
  blob ← or_fail (find_blob id s) storage_not_found
  ok (blob.body, blob.object)

-- `Delete` of an id without a blob is no error.
unfoldable pub delete_blob : PluginStorage → Text → Result PluginError PluginStorage
delete_blob s id = do
  reject_if s.closed storage_closed
  ok (record s { blobs = erase Text-discrete id s.blobs })

unfoldable pub presign_url : PluginStorage → Text → Result PluginError Text
presign_url s id = err unsupported

unfoldable pub list_blobs : PluginStorage → Result PluginError (List Text)
list_blobs s = do
  reject_if s.closed storage_closed
  ok (sort (λ id. id) compare_text (map (λ e. e.0) s.blobs))

unfoldable pub close_blobs : PluginStorage → PluginStorage
close_blobs s = record s { closed = true }

pub find_blob-put_blob :
    (hash : Text → Text) (s : PluginStorage) (id body j : Text)
    → find_blob j (put_blob hash s id body)
      ≡ ite
          (Text-discrete id j)
          (some (record { body = body; object = stored_object hash body }))
          (find_blob j s)
unfolding find_blob
find_blob-put_blob hash s id body j = lookup-insert Text-discrete id j _ s.blobs

pub find_blob-delete :
    (s : PluginStorage) (id j : Text)
    → lookup Text-discrete j (erase Text-discrete id s.blobs)
      ≡ ite (Text-discrete id j) none (find_blob j s)
unfolding find_blob
find_blob-delete s id j = lookup-erase Text-discrete id j s.blobs
