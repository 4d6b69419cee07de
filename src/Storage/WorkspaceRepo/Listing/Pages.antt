-- ===== src/Storage/WorkspaceRepo/Listing/Pages.antt =====
-- pkg/storage/memory/workspace_repo.go: a page of a listing is a piece of one sorted sequence, the same
-- for every cursor and every order in which the map is ranged over.
use ana.Base.{
  ◌≡◌, refl, sym, ap, ◌∙◌, Bool, true, false, inl, inr, Text, Bool-cases, ok, err, Result-cases,
}
use ana.Base.Sorting.Members.{All-at, sorted_unique}
use ana.Workspace.{Workspace, ListOptions, RepoError, repository_closed}
use ana.Storage.Cursor.{parse_workspace_cursor}
use ana.Storage.WorkspaceRepo.{AliasKey, WorkspaceRepository, workspace_alias_key, find_row}
use ana.Storage.WorkspaceRepo.Invariant.{IsConsistent}
use ana.Storage.WorkspaceRepo.Listing.{
  compare_namespace_alias, is_listed, limit_or_default, cut_page, list,
}
use ana.Storage.WorkspaceRepo.Listing.Order.{compare_namespace_alias-IsOrder}
use ana.Storage.WorkspaceRepo.Listing.Rows.{
  kept_rows, kept_rows-StrictlySorted, kept_rows_sound, kept_rows-complete,
}

pub list_open :
    (r : WorkspaceRepository) (opts : ListOptions) (at : AliasKey)
    → r.closed ≡ false
    → parse_workspace_cursor opts.cursor ≡ ok at
    → list r opts ≡ ok (cut_page (limit_or_default opts.limit) (kept_rows (is_listed opts at) r))
unfolding list
list_open r opts at opened parsed = rw (opened, parsed)

list_bad_cursor :
    (r : WorkspaceRepository) (opts : ListOptions) (e : RepoError)
    → r.closed ≡ false
    → parse_workspace_cursor opts.cursor ≡ err e
    → list r opts ≡ err e
unfolding list
list_bad_cursor r opts e opened parsed = rw (opened, parsed)

list_closed :
    (r : WorkspaceRepository) (opts : ListOptions)
    → r.closed ≡ true
    → list r opts ≡ err repository_closed
unfolding list
list_closed r opts closed = rw closed

kept_rows_eq :
    (keep : Workspace → Bool) (r s : WorkspaceRepository)
    → IsConsistent r
    → IsConsistent s
    → ((id : Text) → find_row id r ≡ find_row id s)
    → kept_rows keep r ≡ kept_rows keep s
kept_rows_eq keep r s c d same =
    sorted_unique workspace_alias_key compare_namespace_alias compare_namespace_alias-IsOrder _ _
      (kept_rows-StrictlySorted keep r c) (kept_rows-StrictlySorted keep s d)
      (λ w m.
        let (found, kept) = All-at _ _ m (kept_rows_sound keep r c) in
        kept_rows-complete keep s d w.id w (sym (same w.id) ∙ found) kept)
      (λ w m.
        let (found, kept) = All-at _ _ m (kept_rows_sound keep s d) in
        kept_rows-complete keep r c w.id w (same w.id ∙ found) kept)

-- Two consistent repositories that hold the same rows, both open or both closed, answer each listing
-- alike, errors included, however their maps are ordered.
pub list_order_free :
    (r s : WorkspaceRepository) (opts : ListOptions)
    → IsConsistent r
    → IsConsistent s
    → r.closed ≡ s.closed
    → ((id : Text) → find_row id r ≡ find_row id s)
    → list r opts ≡ list s opts
list_order_free r s opts c d same_closed same = elim (Bool-cases s.closed) [
  | inl closed ↦ list_closed r opts (same_closed ∙ closed) ∙ sym (list_closed s opts closed)
  | inr opened ↦
      Result-cases (λ p. parse_workspace_cursor opts.cursor ≡ p → list r opts ≡ list s opts)
        (parse_workspace_cursor opts.cursor)
        (λ at _ parsed.
          list_open r opts at (same_closed ∙ opened) parsed
          ∙ ap (λ rows. ok (cut_page (limit_or_default opts.limit) rows))
              (kept_rows_eq (is_listed opts at) r s c d same)
          ∙ sym (list_open s opts at opened parsed))
        (λ e _ parsed.
          list_bad_cursor r opts e (same_closed ∙ opened) parsed
          ∙ sym (list_bad_cursor s opts e opened parsed))
        refl
]
