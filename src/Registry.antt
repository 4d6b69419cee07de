-- ===== src/Registry.antt =====
-- pkg/orchestrator/registry/registry.go: the catalog of workspaces. Strings are lists of code points, so
-- that they are valid UTF-8. Each method that takes the mutex holds it to its end, and is one step.
pub mod Config
pub mod Agreement
pub mod Additions
pub mod Updates
pub mod Calls
mod Examples
use ana.Base.{
  map, ℕ, ◌+◌, ◌*◌, ◌≤◌, ite, Bool, true, false, not, ◌&&◌, ◌||◌, Option, none, some, List, [], ◌∷◌,
  length, Text, Text-discrete, ne_text, compare_text, Map, lookup, insert, erase, values, ltb, leb,
  ◌==◌, if◌then◌else◌, Result, ok, err, ◌>>=◌, ◌>>◌, reject_if, or_fail,
}
use ana.Base.Sorting.{sort}
use ana.Registry.Config.{
  Value, Heap, Copy, clone_copy, has_runtime_config_cycle, clone_runtime_config,
}

-- `type RuntimeKind string`; any other string is `other_kind`
pub data RuntimeKind : Type 0 where
  chat_api resumable_cli socket_session : RuntimeKind
  other_kind : Text → RuntimeKind

-- A workspace with its configuration, as a caller holds it (`RuntimeConfig`) or as the registry does: a
-- configuration that was copied is a tree but for the keys of maps and the unexported fields, which it
-- shares with the original.
pub record Workspace (C : Type 0) : Type 0 where
  pub workspace_id : Text
  pub alias : Text
  pub runtime_type : Text
  pub runtime_kind : RuntimeKind
  pub description : Text
  pub enabled : Bool
  pub is_default_entry : Bool
  pub runtime_config : C

abbrev pub RuntimeConfig : Type 0
RuntimeConfig = Heap × Value

abbrev pub Stored : Type 0
Stored = Workspace Copy

-- `stack_overflow` is no error of the code: it stands for a deep copy that does not end.
pub data RegistryError : Type 0 where
  alias_not_found workspace_not_found workspace_disabled alias_conflict : RegistryError
  invalid_workspace no_default_workspace stack_overflow : RegistryError

-- A factory is a number; the registry only stores and returns it.
pub record MemoryRegistry : Type 0 where
  pub by_id : Map Text Stored
  pub by_alias : Map Text Text
  pub factories : Map Text ℕ
  pub default_id : Text

abbrev pub new_memory : MemoryRegistry
new_memory = record { by_id = []; by_alias = []; factories = []; default_id = [] }

-- `unicode.IsSpace`
unfoldable pub is_space : ℕ → Bool
is_space c =
    leb 9 c && leb c 13
    || c == 32
    || c == 133
    || c == 160
    || c == 5760
    || leb 8192 c && leb c 8202
    || c == 8232
    || c == 8233
    || c == 8239
    || c == 8287
    || c == 12288

unfoldable pub trim_left : Text → Text
unfolding is_space
trim_left [] = []
trim_left (c ∷ s) = let rest = trim_left s in if is_space c then rest else c ∷ s

-- `[]` behind trailing space, and so a text that is all space is trimmed to nothing.
unfoldable pub trim_right : Text → Text
unfolding is_space
trim_right [] = []
trim_right (c ∷ s) = elim (trim_right s) [
  | [] ↦ if is_space c then [] else c ∷ []
  | d ∷ t ↦ c ∷ d ∷ t
]

-- `strings.TrimSpace`
unfoldable pub trim_space : Text → Text
unfolding trim_left trim_right
trim_space s = trim_right (trim_left s)

-- `[A-Za-z0-9_-]`
unfoldable pub is_alias_char : ℕ → Bool
is_alias_char c =
    leb 65 c && leb c 90 || leb 97 c && leb c 122 || leb 48 c && leb c 57 || c == 95 || c == 45

unfoldable pub all_alias_chars : Text → Bool
unfolding is_alias_char
all_alias_chars [] = true
all_alias_chars (c ∷ s) = is_alias_char c && all_alias_chars s

-- The bytes of a code point in UTF-8, and of a text: `len`.
unfoldable pub utf8_size : ℕ → ℕ
utf8_size c = if ltb c 128 then 1 else if ltb c 2048 then 2 else if ltb c 65536 then 3 else 4

unfoldable pub byte_length : Text → ℕ
unfolding utf8_size
byte_length [] = 0
byte_length (c ∷ s) = utf8_size c + byte_length s

abbrev pub is_empty_text : Text → Bool
is_empty_text s = ite (Text-discrete s []) true false

abbrev is_known_kind : RuntimeKind → Bool
is_known_kind (other_kind s) = false
is_known_kind _ = true

-- `validateWorkspace`; the fuel bounds the depth of the configuration
unfoldable pub validate_workspace : ℕ → Workspace RuntimeConfig → Result RegistryError Stored
unfolding trim_space all_alias_chars byte_length
validate_workspace fuel ws = do
  let id = trim_space ws.workspace_id
  reject_if (is_empty_text id) invalid_workspace
  let alias = trim_space ws.alias
  reject_if (is_empty_text alias) invalid_workspace
  reject_if (ltb 64 (byte_length alias)) invalid_workspace
  reject_if (not (all_alias_chars alias)) invalid_workspace
  let runtime_type = trim_space ws.runtime_type
  reject_if (is_empty_text runtime_type) invalid_workspace
  reject_if (not (is_known_kind ws.runtime_kind)) invalid_workspace
  reject_if (ltb 256 (length ws.description)) invalid_workspace
  cyclic ←
      or_fail (has_runtime_config_cycle fuel ws.runtime_config.0 ws.runtime_config.1) stack_overflow
  reject_if cyclic invalid_workspace
  copy ← or_fail (clone_runtime_config fuel ws.runtime_config.0 ws.runtime_config.1) stack_overflow
  ok (record {
    workspace_id = id;
    alias = alias;
    runtime_type = runtime_type;
    runtime_kind = ws.runtime_kind;
    description = ws.description;
    enabled = ws.enabled;
    is_default_entry = ws.is_default_entry;
    runtime_config = copy;
  })

unfoldable pub find_row : Text → MemoryRegistry → Option Stored
find_row id r = lookup Text-discrete id r.by_id

unfoldable pub find_id : Text → MemoryRegistry → Option Text
find_id alias r = lookup Text-discrete alias r.by_alias

abbrev pub is_some {ℓ} : {A : Type ℓ} → Option A → Bool
is_some none = false
is_some (some a) = true

-- `currentDefault := r.byID[r.defaultID]` and its write back: a missing row would be stored as a zero one
abbrev pub zero_row : Stored
zero_row = record {
  workspace_id = [];
  alias = [];
  runtime_type = [];
  runtime_kind = other_kind [];
  description = [];
  enabled = false;
  is_default_entry = false;
  runtime_config = Config.null_copy;
}

abbrev pub row_or_zero : Option Stored → Stored
row_or_zero none = zero_row
row_or_zero (some row) = row

unfoldable pub demote_default : MemoryRegistry → MemoryRegistry
demote_default r = record r {
  by_id =
      insert Text-discrete r.default_id
        (record (row_or_zero (find_row r.default_id r)) { is_default_entry = false }) r.by_id;
}

-- `normalized.IsDefaultEntry && r.defaultID != "" && r.defaultID != normalized.WorkspaceID`
abbrev pub replaces_default : Stored → MemoryRegistry → Bool
replaces_default ws r =
    ws.is_default_entry && ne_text r.default_id [] && ne_text r.default_id ws.workspace_id

-- The writes of `Register`.
unfoldable pub add_workspace : Stored → ℕ → MemoryRegistry → MemoryRegistry
unfolding demote_default
add_workspace ws factory r =
    let s = if replaces_default ws r then demote_default r else r in
    record {
      by_id = insert Text-discrete ws.workspace_id ws s.by_id;
      by_alias = insert Text-discrete ws.alias ws.workspace_id s.by_alias;
      factories = insert Text-discrete ws.workspace_id factory s.factories;
      default_id = if ws.is_default_entry then ws.workspace_id else s.default_id;
    }

unfoldable pub register_valid : Stored → ℕ → MemoryRegistry → Result RegistryError MemoryRegistry
unfolding add_workspace
register_valid ws factory r = do
  reject_if (is_some (find_row ws.workspace_id r)) invalid_workspace
  reject_if (is_some (find_id ws.alias r)) alias_conflict
  ok (add_workspace ws factory r)

unfoldable pub register :
    ℕ → Workspace RuntimeConfig → Option ℕ → MemoryRegistry → Result RegistryError MemoryRegistry
unfolding register_valid
register fuel ws factory r = do
  f ← or_fail factory invalid_workspace
  normalized ← validate_workspace fuel ws
  register_valid normalized f r

-- The `switch` and the write of `Update`.
unfoldable pub replace_workspace : Stored → MemoryRegistry → MemoryRegistry
unfolding demote_default
replace_workspace ws r =
    let s = if replaces_default ws r then demote_default r else r in
    record s {
      by_id = insert Text-discrete ws.workspace_id ws s.by_id;
      default_id =
          if ws.is_default_entry
          then ws.workspace_id
          else ite (Text-discrete s.default_id ws.workspace_id) [] s.default_id;
    }

unfoldable pub update_valid : Stored → MemoryRegistry → Result RegistryError MemoryRegistry
unfolding replace_workspace
update_valid ws r = do
  existing ← or_fail (find_row ws.workspace_id r) workspace_not_found
  reject_if (ne_text ws.alias existing.alias) invalid_workspace
  ok (replace_workspace ws r)

unfoldable pub update :
    ℕ → Workspace RuntimeConfig → MemoryRegistry → Result RegistryError MemoryRegistry
unfolding update_valid
update fuel ws r = do normalized ← validate_workspace fuel ws; update_valid normalized r

-- `Disable` and `Enable` write the flag only where it changes.
unfoldable pub set_enabled : Bool → Text → MemoryRegistry → Result RegistryError MemoryRegistry
unfolding trim_space
set_enabled enabled workspace_id r = do
  let id = trim_space workspace_id
  ws ← or_fail (find_row id r) workspace_not_found
  let written = record r {
    by_id = insert Text-discrete id (record ws { enabled = enabled }) r.by_id;
  }
  ok (if enabled then (if ws.enabled then r else written) else (if ws.enabled then written else r))

-- `cloneWorkspace` of a row
unfoldable pub clone_stored : Stored → Stored
clone_stored ws = record ws { runtime_config = clone_copy ws.runtime_config }

unfoldable pub lookup_by_id_locked : Text → MemoryRegistry → Result RegistryError (Stored × ℕ)
unfolding clone_stored
lookup_by_id_locked id r = do
  ws ← or_fail (find_row id r) workspace_not_found
  reject_if (not ws.enabled) workspace_disabled
  factory ← or_fail (lookup Text-discrete id r.factories) invalid_workspace
  ok (clone_stored ws, factory)

unfoldable pub lookup_by_alias : Text → MemoryRegistry → Result RegistryError (Stored × ℕ)
unfolding lookup_by_id_locked trim_space
lookup_by_alias alias r = do
  id ← or_fail (find_id (trim_space alias) r) alias_not_found
  lookup_by_id_locked id r

unfoldable pub lookup_by_id : Text → MemoryRegistry → Result RegistryError (Stored × ℕ)
unfolding lookup_by_id_locked trim_space
lookup_by_id id r = lookup_by_id_locked (trim_space id) r

unfoldable pub default : MemoryRegistry → Result RegistryError (Stored × ℕ)
unfolding lookup_by_id_locked
default r = do
  reject_if (is_empty_text r.default_id) no_default_workspace
  lookup_by_id_locked r.default_id r

unfoldable pub list : MemoryRegistry → List Stored
unfolding clone_stored
list r = sort (λ ws. ws.alias) compare_text (map clone_stored (values r.by_id))
