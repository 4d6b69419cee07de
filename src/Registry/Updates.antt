-- ===== src/Registry/Updates.antt =====
-- pkg/orchestrator/registry/registry.go: `Update`, `Disable` and `Enable` keep the registry in agreement.
use ana.Base.{
  ◌≡◌, refl, sym, subst, ◌∙◌, ite, Bool, some, [], Text, Text-discrete, insert, lookup-insert,
  if◌then◌else◌, arith, inl, inr, Bool-cases,
}
use ana.Registry.{Stored, MemoryRegistry, find_row, find_id, demote_default, replace_workspace}
use ana.Registry.Agreement.{Agrees, prepared, prepared_row, row_prepared}
use ana.Registry.Additions.{prepared_mark}

find_row-replace_workspace :
    (ws : Stored) (r : MemoryRegistry) (j : Text)
    → find_row j (replace_workspace ws r)
      ≡ ite (Text-discrete ws.workspace_id j) (some ws) (find_row j (prepared ws r))
unfolding find_row replace_workspace
find_row-replace_workspace ws r j =
    lookup-insert Text-discrete ws.workspace_id j ws (prepared ws r).by_id

same_indexes :
    (ws : Stored) (r : MemoryRegistry)
    → ((a : Text) → find_id a (replace_workspace ws r) ≡ find_id a r)
      × ((replace_workspace ws r).factories ≡ r.factories)
      × ((replace_workspace ws r).default_id ≡ (
          if ws.is_default_entry
          then ws.workspace_id
          else ite (Text-discrete r.default_id ws.workspace_id) [] r.default_id))
unfolding find_id replace_workspace demote_default
same_indexes ws r = (λ a. ground arith, ground arith, ground arith)

module _ (r : MemoryRegistry) (h : Agrees r) where
  pub replace_workspace-Agrees :
      (ws existing : Stored)
      → find_row ws.workspace_id r ≡ some existing
      → ws.alias ≡ existing.alias
      → Agrees (replace_workspace ws r)
  replace_workspace-Agrees ws existing found alias =
      let (ids, factories, default_id) = same_indexes ws r in
      let here : find_row ws.workspace_id (replace_workspace ws r) ≡ some ws =
        ground (arith, find_row-replace_workspace ws r ws.workspace_id) in
      record {
        keyed = λ id row e. elim (Text-discrete ws.workspace_id id) [
          | yes this ↦ ground (arith, find_row-replace_workspace ws r id)
          | no other ↦
              let old =
                prepared_row r h ws id row (ground (arith, find_row-replace_workspace ws r id)) in
              ground (arith, old.1, old.2, h.keyed id old.0)
        ];
        named = λ id row e. elim (Text-discrete ws.workspace_id id) [
          | yes this ↦ ground (arith, h.named ws.workspace_id existing found)
          | no other ↦
              let old =
                prepared_row r h ws id row (ground (arith, find_row-replace_workspace ws r id)) in
              h.named id old.0 old.1
        ];
        indexed = λ id row e. elim (Text-discrete ws.workspace_id id) [
          | yes this ↦ ground (
            arith,
            find_row-replace_workspace ws r id,
            ids row.alias,
            h.indexed ws.workspace_id existing found,
          )
          | no other ↦
              let old =
                prepared_row r h ws id row (ground (arith, find_row-replace_workspace ws r id)) in
              ground (arith, ids row.alias, old.3, h.indexed id old.0 old.1)
        ];
        backed = λ name id e.
            let old = h.backed name id (ground (arith, ids name)) in
            elim (Text-discrete ws.workspace_id id) [
              | yes this ↦ (
                ws,
                ground (arith, find_row-replace_workspace ws r id),
                ground (arith, old.1, old.2),
              )
              | no other ↦
                  let row = row_prepared r h ws id old.0 old.1 in
                  (row.0, ground (arith, find_row-replace_workspace ws r id, row.1), row.2 ∙ old.2)
            ];
        bound = λ id row e. elim (Text-discrete ws.workspace_id id) [
          | yes this ↦
              let factory = h.bound ws.workspace_id existing found in
              (factory.0, ground (arith, factories, factory.1))
          | no other ↦
              let old =
                prepared_row r h ws id row (ground (arith, find_row-replace_workspace ws r id)) in
              let factory = h.bound id old.0 old.1 in
              (factory.0, ground (arith, factories, factory.1))
        ];
        marked = λ id row e. elim (Text-discrete ws.workspace_id id) [
          | yes this ↦ ground (
            arith,
            find_row-replace_workspace ws r id,
            default_id,
            h.named ws.workspace_id existing found,
          )
          | no other ↦
              let before : find_row id (prepared ws r) ≡ some row =
                ground (arith, find_row-replace_workspace ws r id) in
              let mark = prepared_mark r h ws id row before other in
              let old = prepared_row r h ws id row before in
              ground (arith, default_id, mark, h.named id old.0 old.1)
        ];
        stands = λ set. elim (Bool-cases ws.is_default_entry) [
          | inl default ↦
              let same : (replace_workspace ws r).default_id ≡ ws.workspace_id =
                ground (arith, default_id) in
              (ws, subst (λ d. find_row d (replace_workspace ws r) ≡ some ws) (sym same) here)
          | inr plain ↦ elim (Text-discrete r.default_id ws.workspace_id) [
            | yes cleared ↦ absurd (ground (arith, default_id))
            | no kept ↦
                let same : (replace_workspace ws r).default_id ≡ r.default_id =
                  ground (arith, default_id) in
                let old = h.stands (ground arith) in
                let row = row_prepared r h ws r.default_id old.0 old.1 in
                (
                  row.0,
                  subst (λ d. find_row d (replace_workspace ws r) ≡ some row.0) (sym same)
                      (ground (arith, find_row-replace_workspace ws r r.default_id, row.1)),
                )
          ]
        ];
      }

-- The row with its flag set.
abbrev pub with_enabled : Bool → Text → Stored → MemoryRegistry → MemoryRegistry
with_enabled enabled id ws r = record r {
  by_id = insert Text-discrete id (record ws { enabled = enabled }) r.by_id;
}

find_row-with_enabled :
    (enabled : Bool) (id j : Text) (ws : Stored) (r : MemoryRegistry)
    → find_row j (with_enabled enabled id ws r)
      ≡ ite (Text-discrete id j) (some (record ws { enabled = enabled })) (find_row j r)
unfolding find_row
find_row-with_enabled enabled id j ws r =
    lookup-insert Text-discrete id j (record ws { enabled = enabled }) r.by_id

row_before :
    (enabled : Bool) (id j : Text) (ws row : Stored) (r : MemoryRegistry)
    → find_row id r ≡ some ws
    → find_row j (with_enabled enabled id ws r) ≡ some row
    → (old : Stored) × (find_row j r ≡ some old)
      × (row.workspace_id ≡ old.workspace_id)
      × (row.alias ≡ old.alias)
      × (row.is_default_entry ≡ old.is_default_entry)
row_before enabled id j ws row r found e = elim (Text-discrete id j) [
  | yes this ↦ (
    ws,
    subst (λ x. find_row x r ≡ some ws) this found,
    ground (arith, find_row-with_enabled enabled id j ws r),
    ground (arith, find_row-with_enabled enabled id j ws r),
    ground (arith, find_row-with_enabled enabled id j ws r),
  )
  | no other ↦ (row, ground (arith, find_row-with_enabled enabled id j ws r), refl, refl, refl)
]

pub with_enabled-Agrees :
    (enabled : Bool) (id : Text) (ws : Stored) (r : MemoryRegistry)
    → Agrees r
    → find_row id r ≡ some ws
    → Agrees (with_enabled enabled id ws r)
unfolding find_id
with_enabled-Agrees enabled id ws r h found = record {
  keyed = λ j row e.
      let old = row_before enabled id j ws row r found e in old.2 ∙ h.keyed j old.0 old.1;
  named = λ j row e. let old = row_before enabled id j ws row r found e in h.named j old.0 old.1;
  indexed = λ j row e.
      let old = row_before enabled id j ws row r found e in
      ground (arith, old.3, h.indexed j old.0 old.1);
  backed = λ alias j e.
      let old = h.backed alias j e in
      elim (Text-discrete id j) [
        | yes this ↦ (
          record ws { enabled = enabled },
          ground (arith, find_row-with_enabled enabled id j ws r),
          ground (arith, old.1, old.2),
        )
        | no other ↦ (old.0, ground (arith, find_row-with_enabled enabled id j ws r, old.1), old.2)
      ];
  bound = λ j row e. let old = row_before enabled id j ws row r found e in h.bound j old.0 old.1;
  marked = λ j row e.
      let old = row_before enabled id j ws row r found e in old.4 ∙ h.marked j old.0 old.1;
  stands = λ set.
      let old = h.stands set in
      elim (Text-discrete id r.default_id) [
        | yes this ↦ (
          record ws { enabled = enabled },
          ground (arith, find_row-with_enabled enabled id r.default_id ws r),
        )
        | no other ↦
            (old.0, ground (arith, find_row-with_enabled enabled id r.default_id ws r, old.1))
      ];
}
