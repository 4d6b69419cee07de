-- ===== src/Storage/WorkspaceRepo/Listing/Cursors.antt =====
-- pkg/storage/memory/workspace_repo.go: the page that a cursor asks for.
use Prim.Native.Nat.{min}
use mathlib.Core.Path.{fun_ext}
use ana.Base.{
  ℕ, zero, suc, ◌-◌, ◌≡◌, refl, sym, ap, ◌∙◌, Bool, false, Option, none, some, List, [], ◌∷◌, map,
  length, take, Text, IsBytes, values, arith, ltb, if◌then◌else◌, ok,
}
use ana.Base.Sorting.{select}
use ana.Base.Sorting.Strict.{select-select, select-map, select-sort, last_of, is_after}
use ana.Workspace.{Workspace, ListOptions}
use ana.Workspace.Clone.{clone_workspace}
use ana.Storage.Cursor.{
  encode_cursor, encode_cursor_ne, parse_workspace_cursor, HasNoNul,
  parse_workspace_cursor-encode_cursor,
}
use ana.Storage.WorkspaceRepo.{AliasKey, WorkspaceRepository, workspace_alias_key}
use ana.Storage.WorkspaceRepo.Invariant.{IsConsistent}
use ana.Storage.WorkspaceRepo.Listing.{
  matches_options, compare_namespace_alias, is_listed, sort_rows, limit_or_default, cut_page, list,
}
use ana.Storage.WorkspaceRepo.Listing.Order.{compare_namespace_alias-IsOrder}
use ana.Storage.WorkspaceRepo.Listing.Rows.{kept_rows, kept-HasDistinctKeys}
use ana.Storage.WorkspaceRepo.Listing.Pages.{list_open}

-- A key that a cursor can carry: byte strings, the namespace without a zero byte.
pub record IsEncodable (key : AliasKey) : Type 0 where
  pub namespace_bytes : IsBytes key.0
  pub alias_bytes : IsBytes key.1
  pub no_nul : HasNoNul key.0

abbrev pub IsEncodableBound : Option AliasKey → Type 0
IsEncodableBound none = Unit
IsEncodableBound (some key) = IsEncodable key

-- Where a page begins: at the first row, or behind the row with this key.
abbrev pub cursor_of : Option AliasKey → Text
cursor_of none = []
cursor_of (some (namespace, alias)) = encode_cursor namespace alias

abbrev pub behind : AliasKey → Workspace → Bool
behind = is_after workspace_alias_key compare_namespace_alias

abbrev pub rows_behind : Option AliasKey → List Workspace → List Workspace
rows_behind none rows = rows
rows_behind (some key) rows = select (behind key) rows

abbrev pub at_cursor : ListOptions → Text → ListOptions
at_cursor opts cursor = record opts { cursor = cursor }

matches_options-at_cursor :
    (opts : ListOptions) (cursor : Text) (w : Workspace)
    → matches_options (at_cursor opts cursor) w ≡ matches_options opts w
unfolding matches_options
matches_options-at_cursor opts cursor w = refl

is_listed_first :
    (opts : ListOptions) (w : Workspace)
    → is_listed (at_cursor opts []) ([], []) w ≡ matches_options opts w
unfolding is_listed
is_listed_first opts w = ground (arith, matches_options-at_cursor opts [] w)

is_listed-behind :
    (opts : ListOptions) (key : AliasKey) (w : Workspace)
    → is_listed (at_cursor opts (encode_cursor key.0 key.1)) key w
      ≡ (if matches_options opts w then behind key w else false)
unfolding is_listed
is_listed-behind opts key w = ground (
  arith,
  matches_options-at_cursor opts (encode_cursor key.0 key.1) w,
  encode_cursor_ne key.0 key.1,
)

module _ (r : WorkspaceRepository) (opts : ListOptions) (c : IsConsistent r) where
  kept_behind :
      (key : AliasKey)
      → kept_rows (λ w. if matches_options opts w then behind key w else false) r
        ≡ select (behind key) (kept_rows (matches_options opts) r)
  kept_behind key =
      ap (λ rows. sort_rows (map clone_workspace rows))
        (select-select (matches_options opts) (behind key) _ (values r.by_id) (λ w. refl))
      ∙ ap sort_rows (
          sym (
            select-map clone_workspace (behind key) (behind key)
              (select (matches_options opts) (values r.by_id))
              (unfold clone_workspace in λ w. refl)))
      ∙ sym (
          select-sort workspace_alias_key compare_namespace_alias compare_namespace_alias-IsOrder
            (behind key) _ (kept-HasDistinctKeys (matches_options opts) r c))

  -- A page is cut from what stands behind its bound in the sorted sequence of the matching rows.
  pub list-at_bound :
      (bound : Option AliasKey)
      → r.closed ≡ false
      → IsEncodableBound bound
      → list r (at_cursor opts (cursor_of bound))
        ≡ ok (
            cut_page
              (limit_or_default opts.limit)
              (rows_behind bound (kept_rows (matches_options opts) r)))
  list-at_bound none opened e =
      list_open r (at_cursor opts []) ([], []) opened (unfold parse_workspace_cursor in refl)
      ∙ ap (λ keep. ok (cut_page (limit_or_default opts.limit) (kept_rows keep r)))
          (fun_ext (is_listed_first opts))
  list-at_bound (some (namespace, alias)) opened e =
      list_open r (at_cursor opts (encode_cursor namespace alias)) (namespace, alias) opened
        (parse_workspace_cursor-encode_cursor namespace alias e.namespace_bytes e.alias_bytes
          e.no_nul)
      ∙ ap (λ keep. ok (cut_page (limit_or_default opts.limit) (kept_rows keep r)))
          (fun_ext (is_listed-behind opts (namespace, alias)))
      ∙ ap (λ rows. ok (cut_page (limit_or_default opts.limit) rows))
          (kept_behind (namespace, alias))

take-min : {A : Type 0} (n : ℕ) (xs : List A) → take (min n (length xs)) xs ≡ take n xs
take-min zero xs = let e : min 0 (length xs) ≡ 0 = omega arith in rw e
take-min (suc n) [] = let e : min (suc n) 0 ≡ 0 = omega arith in rw e
take-min (suc n) (x ∷ xs) =
    let e : min (suc n) (suc (length xs)) ≡ suc (min n (length xs)) = omega arith in
    rw e (ap (◌∷◌ x) (take-min n xs))

-- A page from a row on: the row and the next ones, up to the limit, and a cursor exactly if more follow.
pub cut_page_cons :
    (n : ℕ) (row : Workspace) (rows : List Workspace)
    → cut_page (suc n) (row ∷ rows) ≡ (
      row ∷ take n rows,
      if ltb n (length rows)
          then cursor_of (some (workspace_alias_key (last_of row (take n rows))))
          else [],
    )
unfolding cut_page
cut_page_cons n row rows =
    let m : ℕ = length rows in
    let shorter : min (suc n) (suc m) ≡ suc (min n m) = omega arith in
    let less : suc (min n m) - 1 ≡ min n m = omega arith in
    let test : ltb (suc (min n m)) (suc m) ≡ ltb n m = ground arith in
    rw (shorter, less, test, take-min n rows)
