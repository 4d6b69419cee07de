-- ===== src/Scheduler/ListAll.antt =====
-- pkg/manager/workspace/scheduler.go: `listAll`, which follows the cursors of a listing to its end.
use mathlib.Core.List.{Memᴰ, append_assoc}
use ana.Base.{
  ℕ, zero, suc, ◌<◌, ◌≡◌, ◌≢◌, refl, ap, subst, ◌∙◌, inl, inr, Bool, true, false, Option, none,
  some, List, [], ◌∷◌, ◌++◌, All, length, take, drop, take_all, take-append-drop, length-drop-le,
  All-pair, Text, arith, Ordering, ltb, Bool-cases, if◌then◌else◌, Result, ok, err,
}
use ana.Base.Sorting.{select}
use ana.Base.Sorting.Strict.{
  StrictlySorted, select-select, select_after_last, last_of, All-last_of, All-select, All-imp,
}
use ana.Base.Sorting.Members.{select-holds}
use ana.Workspace.{Workspace, ListOptions, RepoError, no_options}
use ana.Storage.Cursor.{encode_cursor_ne}
use ana.Storage.WorkspaceRepo.{AliasKey, WorkspaceRepository, workspace_alias_key, find_row}
use ana.Storage.WorkspaceRepo.Invariant.{IsConsistent}
use ana.Storage.WorkspaceRepo.Listing.{
  matches_options, compare_namespace_alias, limit_or_default, cut_page, list,
}
use ana.Storage.WorkspaceRepo.Listing.Order.{compare_namespace_alias-IsOrder}
use ana.Storage.WorkspaceRepo.Listing.Rows.{
  kept_rows, kept_rows-StrictlySorted, kept_rows_sound, kept_rows-complete,
}
use ana.Storage.WorkspaceRepo.Listing.Cursors.{
  IsEncodable, IsEncodableBound, cursor_of, behind, rows_behind, at_cursor, list-at_bound,
  cut_page_cons,
}

abbrev pub list_page_size : ℕ
list_page_size = 100

abbrev pub is_empty {ℓ} : {A : Type ℓ} → List A → Bool
is_empty [] = true
is_empty (x ∷ xs) = false

-- The loop of `listAll`, for any options. The fuel bounds its rounds, and `none` means that it ran out.
unfoldable pub collect_pages :
    ℕ
    → WorkspaceRepository
    → ListOptions
    → List Workspace
    → Option (Result RepoError (List Workspace))
collect_pages zero r opts rows = none
collect_pages (suc fuel) r opts rows = elim (list r opts) [
  | err e ↦ some (err e)
  | ok (page, next) ↦
      let rest = collect_pages fuel r (at_cursor opts next) (rows ++ page) in
      if is_empty next then some (ok (rows ++ page)) else rest
]

unfoldable pub list_all : ℕ → WorkspaceRepository → Option (Result RepoError (List Workspace))
unfolding collect_pages
list_all fuel r = collect_pages fuel r (record no_options { limit = list_page_size }) []

-- One round of the loop, given its page.
collect_last :
    (fuel : ℕ) (r : WorkspaceRepository) (opts : ListOptions) (rows page : List Workspace)
    → list r opts ≡ ok (page, [])
    → collect_pages (suc fuel) r opts rows ≡ some (ok (rows ++ page))
unfolding collect_pages
collect_last fuel r opts rows page e = rw (e, collect_pages)

collect_more :
    (fuel : ℕ) (r : WorkspaceRepository) (opts : ListOptions) (rows page : List Workspace)
    (next : Text)
    → list r opts ≡ ok (page, next)
    → is_empty next ≡ false
    → collect_pages (suc fuel) r opts rows
      ≡ collect_pages fuel r (at_cursor opts next) (rows ++ page)
unfolding collect_pages
collect_more fuel r opts rows page next e more = rw (e, collect_pages) (rw more)

is_empty_of_ne : (s : Text) → s ≢ [] → is_empty s ≡ false
is_empty_of_ne [] h = absurd (h refl)
is_empty_of_ne (c ∷ s) h = refl

-- The row stands behind the bound.
abbrev stands_behind : Option AliasKey → Workspace → Bool
stands_behind none w = true
stands_behind (some key) w = behind key w

behind-lt :
    (key : AliasKey) (w : Workspace)
    → behind key w ≡ true
    → compare_namespace_alias key (workspace_alias_key w) ≡ Ordering.lt
behind-lt key w e =
    compare_namespace_alias-IsOrder.cmp_flip (workspace_alias_key w) key (ground arith)

-- A later bound looks past an earlier one.
rows_behind_later :
    (bound : Option AliasKey) (w : Workspace) (rows : List Workspace)
    → stands_behind bound w ≡ true
    → select (behind (workspace_alias_key w)) rows
      ≡ select (behind (workspace_alias_key w)) (rows_behind bound rows)
rows_behind_later none w rows e = refl
rows_behind_later (some key) w rows e =
    select-select (behind key) (behind (workspace_alias_key w)) _ rows later
  where
    later :
        (v : Workspace)
        → behind (workspace_alias_key w) v
          ≡ (if behind key v then behind (workspace_alias_key w) v else false)
    later v = elim (Bool-cases (behind (workspace_alias_key w) v)) [
      | inl past ↦
          let chain =
            compare_namespace_alias-IsOrder.cmp_trans key (workspace_alias_key w)
              (workspace_alias_key v) (behind-lt key w e)
              (behind-lt (workspace_alias_key w) v past) in
          rw (compare_namespace_alias-IsOrder.cmp_flip_lt key (workspace_alias_key v) chain)
      | inr before ↦ rw before (ground arith)
    ]

drop-StrictlySorted :
    (n : ℕ) (rows : List Workspace)
    → StrictlySorted workspace_alias_key compare_namespace_alias rows
    → StrictlySorted workspace_alias_key compare_namespace_alias (drop n rows)
drop-StrictlySorted zero rows h = h
drop-StrictlySorted (suc n) [] h = tt
drop-StrictlySorted (suc n) (x ∷ rows) h = drop-StrictlySorted n rows h.1

module _ (r : WorkspaceRepository) (opts : ListOptions) (c : IsConsistent r)
    (opened : r.closed ≡ false) (n : ℕ) (limit : limit_or_default opts.limit ≡ suc n) where
  abbrev matching : List Workspace
  matching = kept_rows (matches_options opts) r

  abbrev Reads : Option AliasKey → Workspace → Type 0
  Reads bound w = IsEncodable (workspace_alias_key w) × (stands_behind bound w ≡ true)

  page_at :
      (bound : Option AliasKey) (rows : List Workspace)
      → IsEncodableBound bound
      → rows_behind bound matching ≡ rows
      → list r (at_cursor opts (cursor_of bound)) ≡ ok (cut_page (suc n) rows)
  page_at bound rows e here = list-at_bound r opts c bound opened e ∙ cc (limit, here)

  Reads-of_encodable :
      (bound : Option AliasKey)
      → All (λ w. IsEncodable (workspace_alias_key w)) matching
      → All (Reads bound) (rows_behind bound matching)
  Reads-of_encodable none h = All-imp (λ w e. (e, refl)) matching h
  Reads-of_encodable (some key) h =
      All-pair _ _ _ (All-select _ (behind key) matching h) (select-holds (behind key) matching)

  page_cons :
      (bound : Option AliasKey) (x : Workspace) (rows : List Workspace) (more : Bool)
      → IsEncodableBound bound
      → rows_behind bound matching ≡ x ∷ rows
      → ltb n (length rows) ≡ more
      → list r (at_cursor opts (cursor_of bound))
        ≡ ok (
          x ∷ take n rows,
          if more then cursor_of (some (workspace_alias_key (last_of x (take n rows)))) else [],
        )
  page_cons bound x rows more e here test =
      page_at bound (x ∷ rows) e here
      ∙ ap ok (cut_page_cons n x rows)
      ∙ ap
          (λ b. ok (
            x ∷ take n rows,
            if b then cursor_of (some (workspace_alias_key (last_of x (take n rows)))) else [],
          ))
          test

  rows_behind_last :
      (bound : Option AliasKey) (x : Workspace) (rows : List Workspace)
      → rows_behind bound matching ≡ x ∷ rows
      → StrictlySorted workspace_alias_key compare_namespace_alias (x ∷ rows)
      → stands_behind bound (last_of x (take n rows)) ≡ true
      → rows_behind (some (workspace_alias_key (last_of x (take n rows)))) matching ≡ drop n rows
  rows_behind_last bound x rows here sorted past =
      let last : Workspace = last_of x (take n rows) in
      rows_behind_later bound last matching past
      ∙ ap (select (behind (workspace_alias_key last))) here
      ∙ select_after_last workspace_alias_key compare_namespace_alias
          compare_namespace_alias-IsOrder n x rows sorted

  walk :
      (fuel : ℕ) (bound : Option AliasKey) (rows done : List Workspace)
      → IsEncodableBound bound
      → All (λ w. IsEncodable (workspace_alias_key w)) matching
      → rows_behind bound matching ≡ rows
      → StrictlySorted workspace_alias_key compare_namespace_alias rows
      → length rows < fuel
      → collect_pages fuel r (at_cursor opts (cursor_of bound)) done ≡ some (ok (done ++ rows))
  walk zero bound rows done e all here sorted enough = elim enough [ ]
  walk (suc fuel) bound [] done e all here sorted enough =
      collect_last fuel r (at_cursor opts (cursor_of bound)) done []
        (page_at bound [] e here ∙ (unfold cut_page in refl))
  walk (suc fuel) bound (x ∷ rows) done e all here sorted enough =
      let last : Workspace = last_of x (take n rows) in
      let at : ListOptions = at_cursor opts (cursor_of bound) in
      elim (Bool-cases (ltb n (length rows))) [
        | inl more ↦
            let (encodable, past) =
              All-last_of (Reads bound) n x rows
                (subst (All (Reads bound)) here (Reads-of_encodable bound all)) in
            collect_more fuel r at done (x ∷ take n rows)
              (cursor_of (some (workspace_alias_key last)))
              (page_cons bound x rows true e here more)
              (is_empty_of_ne _ (encode_cursor_ne last.namespace last.alias))
            ∙ walk fuel (some (workspace_alias_key last)) (drop n rows) (done ++ x ∷ take n rows)
                encodable all (rows_behind_last bound x rows here sorted past)
                (drop-StrictlySorted n rows sorted.1) (omega (arith, length-drop-le n rows))
            ∙ ap (λ (ws : List Workspace). some (ok ws))
                (append_assoc done (x ∷ take n rows) (drop n rows)
                  ∙ ap (λ (ws : List Workspace). done ++ x ∷ ws) (take-append-drop n rows))
        | inr end ↦
            collect_last fuel r at done (x ∷ take n rows) (page_cons bound x rows false e here end)
            ∙ ap (λ (ws : List Workspace). some (ok (done ++ x ∷ ws)))
                (take_all n rows (ground arith))
      ]

limit_is_positive : (limit : ℕ) → (n : ℕ) × (limit_or_default limit ≡ suc n)
unfolding limit_or_default
limit_is_positive zero = (49, refl)
limit_is_positive (suc n) = (n, ground arith)

-- In an open, consistent repository whose namespaces and aliases a cursor can carry, and that nobody
-- writes to meanwhile, following the cursors from the first page ends, for every limit and all filters, and
-- gives each row that matches the filters once, in the order of namespaces and aliases. The rounds are
-- fewer than the fuel as soon as the rows are.
pub collect_pages_lem :
    (fuel : ℕ) (r : WorkspaceRepository) (opts : ListOptions)
    → IsConsistent r
    → r.closed ≡ false
    → ((id : Text) (w : Workspace) → find_row id r ≡ some w → IsEncodable (workspace_alias_key w))
    → length (kept_rows (matches_options opts) r) < fuel
    → (collect_pages fuel r (at_cursor opts []) [] ≡ some (ok (kept_rows (matches_options opts) r)))
      × StrictlySorted workspace_alias_key compare_namespace_alias
          (kept_rows (matches_options opts) r)
      × All
          (λ w. (find_row w.id r ≡ some w) × (matches_options opts w ≡ true))
          (kept_rows (matches_options opts) r)
      × ((id : Text) (w : Workspace)
          → find_row id r ≡ some w
          → matches_options opts w ≡ true
          → Memᴰ w (kept_rows (matches_options opts) r))
collect_pages_lem fuel r opts c opened encodable enough =
    let (n, limit) = limit_is_positive opts.limit in
    let sorted = kept_rows-StrictlySorted (matches_options opts) r c in
    let sound = kept_rows_sound (matches_options opts) r c in
    (
      walk r opts c opened n limit fuel none _ [] tt (All-imp (λ w e. encodable w.id w e.0) _ sound)
          refl sorted enough,
      sorted,
      sound,
      kept_rows-complete (matches_options opts) r c,
    )
