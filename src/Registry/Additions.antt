-- ===== src/Registry/Additions.antt =====
-- pkg/orchestrator/registry/registry.go: `Register` keeps the registry in agreement.
use ana.Base.{
  ℕ, ◌≡◌, ◌≢◌, sym, subst, ◌∙◌, ite, true, false, none, some, [], Text, Text-discrete,
  if◌then◌else◌, arith, inl, inr, Bool-cases,
}
use ana.Registry.{Stored, MemoryRegistry, find_row, find_id, replaces_default, add_workspace}
use ana.Registry.Agreement.{
  Agrees, prepared, find_row-prepared, find_row-add_workspace, find_id-add_workspace,
  factories-add_workspace, default_id-add_workspace, prepared_row, row_prepared,
}

module _ (r : MemoryRegistry) (h : Agrees r) where
  -- After a new default is prepared, no other row is marked; otherwise the marks are as before.
  pub prepared_mark :
      (ws : Stored) (j : Text) (row : Stored)
      → find_row j (prepared ws r) ≡ some row
      → ws.workspace_id ≢ j
      → row.is_default_entry
        ≡ (if ws.is_default_entry then false else ite (Text-discrete r.default_id j) true false)
  prepared_mark ws j row e other = elim (Bool-cases (replaces_default ws r)) [
    | inl replaces ↦ elim (Text-discrete r.default_id j) [
      | no elsewhere ↦
          let found : find_row j r ≡ some row = ground (arith, find_row-prepared ws r j) in
          ground (arith, h.marked j row found)
      | yes this ↦ ground (arith, find_row-prepared ws r j)
    ]
    | inr keeps ↦
        let found : find_row j r ≡ some row = ground (arith, find_row-prepared ws r j) in
        ground (arith, h.marked j row found, h.named j row found)
  ]

  pub add_workspace-Agrees :
      (ws : Stored) (f : ℕ)
      → ws.workspace_id ≢ []
      → find_row ws.workspace_id r ≡ none
      → find_id ws.alias r ≡ none
      → Agrees (add_workspace ws f r)
  add_workspace-Agrees ws f ne free unused = record {
    keyed = λ id row e. elim (Text-discrete ws.workspace_id id) [
      | yes this ↦ ground (arith, find_row-add_workspace ws f r id)
      | no other ↦
          let old = prepared_row r h ws id row (ground (arith, find_row-add_workspace ws f r id)) in
          ground (arith, old.1, old.2, h.keyed id old.0)
    ];
    named = λ id row e. elim (Text-discrete ws.workspace_id id) [
      | yes this ↦ ground arith
      | no other ↦
          let old = prepared_row r h ws id row (ground (arith, find_row-add_workspace ws f r id)) in
          h.named id old.0 old.1
    ];
    indexed = λ id row e. elim (Text-discrete ws.workspace_id id) [
      | yes this ↦
          ground (arith, find_row-add_workspace ws f r id, find_id-add_workspace ws f r row.alias)
      | no other ↦
          let old = prepared_row r h ws id row (ground (arith, find_row-add_workspace ws f r id)) in
          ground (arith, find_id-add_workspace ws f r row.alias, old.3, h.indexed id old.0 old.1)
    ];
    backed = λ alias id e. elim (Text-discrete ws.alias alias) [
      | yes this ↦ (
        ws,
        ground (arith, find_id-add_workspace ws f r alias, find_row-add_workspace ws f r id),
        this,
      )
      | no other ↦
          let old = h.backed alias id (ground (arith, find_id-add_workspace ws f r alias)) in
          let row = row_prepared r h ws id old.0 old.1 in
          (row.0, ground (arith, find_row-add_workspace ws f r id, row.1, old.1), row.2 ∙ old.2)
    ];
    bound = λ id row e. elim (Text-discrete ws.workspace_id id) [
      | yes this ↦ (f, ground (arith, factories-add_workspace ws f r id))
      | no other ↦
          let old = prepared_row r h ws id row (ground (arith, find_row-add_workspace ws f r id)) in
          let factory = h.bound id old.0 old.1 in
          (factory.0, ground (arith, factories-add_workspace ws f r id, factory.1))
    ];
    marked = λ id row e. elim (Text-discrete ws.workspace_id id) [
      | yes this ↦ elim (Bool-cases ws.is_default_entry) [
        | inl default ↦
            ground (arith, find_row-add_workspace ws f r id, default_id-add_workspace ws f r)
        | inr plain ↦ elim (Text-discrete r.default_id []) [
          | yes unset ↦
              ground (arith, find_row-add_workspace ws f r id, default_id-add_workspace ws f r)
          | no set ↦
              let old = h.stands set in
              ground
                (arith, find_row-add_workspace ws f r id, default_id-add_workspace ws f r, old.1)
        ]
      ]
      | no other ↦
          let mark =
            prepared_mark ws id row (ground (arith, find_row-add_workspace ws f r id)) other in
          ground (arith, default_id-add_workspace ws f r, mark)
    ];
    stands = λ set. elim (Bool-cases ws.is_default_entry) [
      | inl default ↦ (
        ws,
        ground
            (arith, default_id-add_workspace ws f r, find_row-add_workspace ws f r ws.workspace_id),
      )
      | inr plain ↦
          let same : (add_workspace ws f r).default_id ≡ r.default_id =
            ground (arith, default_id-add_workspace ws f r) in
          let old = h.stands (ground arith) in
          let row = row_prepared r h ws r.default_id old.0 old.1 in
          (
            row.0,
            subst (λ d. find_row d (add_workspace ws f r) ≡ some row.0) (sym same)
                (ground (arith, find_row-add_workspace ws f r r.default_id, row.1, old.1)),
          )
    ];
  }
