-- ===== src/Manager/Validation.antt =====
-- pkg/manager/types.go: the errors of the manager and the checks of what a request names.
use ana.Base.{
  ℕ, Bool, true, false, ◌&&◌, ◌||◌, [], ◌∷◌, Text, codes, length, ltb, leb, ◌==◌, if◌then◌else◌,
  Result, reject_if, not,
}
use ana.Workspace.{RepoError}
use ana.Plugin.{PluginError}
use ana.Controller.{ControllerError}

-- `unopened` is an error of the zip or TOML library, `interrupted` one of reading the content.
pub data ManagerError : Type 0 where
  of_store : PluginError → ManagerError
  joined : ManagerError → ManagerError → ManagerError
  shutdown : ManagerError
  cancelled : ManagerError
  invalid_namespace : ManagerError
  long_description : ManagerError
  nil_content : ManagerError
  name_mismatch : ManagerError
  unsupported_download_url : ManagerError
  in_progress : ManagerError
  unopened : ManagerError
  interrupted : ManagerError
  of_workspaces : RepoError → ManagerError
  of_controller : ControllerError → ManagerError
  invalid_alias : ManagerError
  duplicate_plugin_ref : ManagerError
  dir_conflict : ManagerError
  agent_type_unknown : ManagerError
  infra_type_unknown : ManagerError

abbrev default_namespace : Text
default_namespace = codes "default"

unfoldable pub normalize_namespace : Text → Text
normalize_namespace [] = default_namespace
normalize_namespace (c ∷ s) = c ∷ s

-- `[a-z0-9-]`
abbrev pub is_namespace_char : ℕ → Bool
is_namespace_char c = (leb 97 c && leb c 122) || ((leb 48 c && leb c 57) || (c == 45))

unfoldable pub all_namespace_chars : Text → Bool
all_namespace_chars [] = true
all_namespace_chars (c ∷ s) =
    let rest = all_namespace_chars s in if is_namespace_char c then rest else false

-- `^[a-z0-9-]{1,32}$`
unfoldable pub matches_namespace : Text → Bool
unfolding all_namespace_chars
matches_namespace s = all_namespace_chars s && (leb 1 (length s) && leb (length s) 32)

unfoldable pub validate_namespace : Text → Result ManagerError Unit
validate_namespace s = reject_if (not (matches_namespace s)) invalid_namespace

unfoldable pub validate_description : Text → Result ManagerError Unit
validate_description s = reject_if (ltb 1024 (length s)) long_description

-- `[A-Za-z]`
abbrev is_letter : ℕ → Bool
is_letter c = leb 65 c && leb c 90 || leb 97 c && leb c 122

-- `[A-Za-z0-9_-]`
abbrev is_alias_byte : ℕ → Bool
is_alias_byte c = is_letter c || (leb 48 c && leb c 57 || (c == 95 || c == 45))

unfoldable pub all_alias_bytes : Text → Bool
all_alias_bytes [] = true
all_alias_bytes (c ∷ s) = let rest = all_alias_bytes s in if is_alias_byte c then rest else false

-- `^[A-Za-z][A-Za-z0-9_-]{0,63}$`
unfoldable pub matches_alias : Text → Bool
unfolding all_alias_bytes
matches_alias [] = false
matches_alias (c ∷ s) = is_letter c && (all_alias_bytes s && leb (length s) 63)

unfoldable pub validate_alias : Text → Result ManagerError Unit
validate_alias s = reject_if (not (matches_alias s)) invalid_alias
