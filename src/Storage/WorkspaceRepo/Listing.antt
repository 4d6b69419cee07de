-- ===== src/Storage/WorkspaceRepo/Listing.antt =====
-- pkg/storage/memory/workspace_repo.go: `List`, its filters, its order and its pages.
pub mod Order
pub mod Rows
pub mod Pages
pub mod Cursors
use Prim.Native.Nat.{min}
use ana.Base.{
  ℕ, ◌-◌, ite, Bool, true, false, ◌&&◌, Option, none, some, List, [], ◌∷◌, map, length, take, Text,
  Text-discrete, ne_text, compare_text, Map, lookup, values, ltb, ◌==◌, if◌then◌else◌, Ordering,
  Result, ok, err, ◌>>=◌, ◌>>◌, reject_if,
}
use ana.Base.Sorting.{select, sort, is_gt}
use ana.Base.Sorting.Strict.{last_of}
use ana.Workspace.{Status, Status-discrete, Workspace, ListOptions, RepoError, repository_closed}
use ana.Workspace.Clone.{clone_workspace}
use ana.Storage.Cursor.{encode_cursor, parse_workspace_cursor}
use ana.Storage.WorkspaceRepo.{AliasKey, WorkspaceRepository, workspace_alias_key}

-- `rowLabels[k]`: a nil map, and a key that is not there, read as the empty string
unfoldable pub label : Text → Option (Map Text Text) → Text
label k none = []
label k (some labels) = elim (lookup Text-discrete k labels) [ none ↦ [] | some v ↦ v ]

unfoldable pub labels_match : Option (Map Text Text) → Map Text Text → Bool
unfolding label
labels_match row_labels [] = true
labels_match row_labels ((k, v) ∷ want) =
    let rest = labels_match row_labels want in
    if ne_text (label k row_labels) v then false else rest

-- `opts.Status != "" && row.Status != opts.Status`
abbrev pub status_differs : Option Status → Status → Bool
status_differs none s = false
status_differs (some want) s = ite (Status-discrete s want) false true

-- The filters that do not look at the cursor.
unfoldable pub matches_options : ListOptions → Workspace → Bool
unfolding labels_match
matches_options opts row =
    if ne_text opts.namespace [] && ne_text row.namespace opts.namespace
    then false
    else if ne_text opts.agent_type [] && ne_text row.agent_type opts.agent_type
    then false
    else if ne_text opts.infra_type [] && ne_text row.infra_type opts.infra_type
    then false
    else if status_differs opts.status row.status
    then false
    else labels_match row.labels opts.labels

unfoldable pub compare_namespace_alias : AliasKey → AliasKey → Ordering
compare_namespace_alias (left_namespace, left_alias) (right_namespace, right_alias) =
    elim (compare_text left_namespace right_namespace) [
      | Ordering.eq ↦ compare_text left_alias right_alias
      | Ordering.lt ↦ Ordering.lt
      | Ordering.gt ↦ Ordering.gt
    ]

-- The loop body: whether the row is appended.
unfoldable pub is_listed : ListOptions → AliasKey → Workspace → Bool
is_listed opts at row =
    if matches_options opts row
    then (if ne_text opts.cursor []
        then is_gt (compare_namespace_alias (workspace_alias_key row) at)
        else true)
    else false

abbrev pub sort_rows : List Workspace → List Workspace
sort_rows = sort workspace_alias_key compare_namespace_alias

-- A limit that is not positive means 50.
unfoldable pub limit_or_default : ℕ → ℕ
limit_or_default limit = if limit == 0 then 50 else limit

unfoldable pub cut_page : ℕ → List Workspace → List Workspace × Text
cut_page limit [] = ([], [])
cut_page limit (row ∷ rows) =
    let size = length (row ∷ rows) in
    let end = min limit size in
    let last = last_of row (take (end - 1) rows) in
    (take end (row ∷ rows), if ltb end size then encode_cursor last.namespace last.alias else [])

unfoldable pub list : WorkspaceRepository → ListOptions → Result RepoError (List Workspace × Text)
unfolding is_listed limit_or_default cut_page
list r opts = do
  reject_if r.closed repository_closed
  at ← parse_workspace_cursor opts.cursor
  let filtered = map clone_workspace (select (is_listed opts at) (values r.by_id))
  ok (cut_page (limit_or_default opts.limit) (sort_rows filtered))
