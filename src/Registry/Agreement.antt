-- ===== src/Registry/Agreement.antt =====
-- pkg/orchestrator/registry/registry.go: how the maps of the registry and its default agree.
use ana.Base.{
  ℕ, ◌≡◌, ◌≢◌, refl, subst, ite, true, false, some, [], Text, Text-discrete, lookup, lookup-insert,
  if◌then◌else◌, arith, inl, inr, Bool-cases,
}
use ana.Registry.{
  Stored, MemoryRegistry, new_memory, find_row, find_id, row_or_zero, demote_default,
  replaces_default, add_workspace,
}

-- A row stands under its id, which is not empty; its alias leads to it, and each alias leads to a row
-- that has it; each row has a factory; a row is marked as the default exactly if it is the default, and
-- the default, if there is one, is a row.
pub record Agrees (r : MemoryRegistry) : Type 0 where
  pub keyed : (id : Text) (ws : Stored) → find_row id r ≡ some ws → ws.workspace_id ≡ id
  pub named : (id : Text) (ws : Stored) → find_row id r ≡ some ws → id ≢ []
  pub indexed : (id : Text) (ws : Stored) → find_row id r ≡ some ws → find_id ws.alias r ≡ some id
  pub backed :
      (alias id : Text)
      → find_id alias r ≡ some id
      → (ws : Stored) × (find_row id r ≡ some ws) × (ws.alias ≡ alias)
  pub bound :
      (id : Text) (ws : Stored)
      → find_row id r ≡ some ws
      → (f : ℕ) × (lookup Text-discrete id r.factories ≡ some f)
  pub marked :
      (id : Text) (ws : Stored)
      → find_row id r ≡ some ws
      → ws.is_default_entry ≡ ite (Text-discrete r.default_id id) true false
  pub stands : r.default_id ≢ [] → (ws : Stored) × (find_row r.default_id r ≡ some ws)

pub new_memory-Agrees : Agrees new_memory
unfolding find_row find_id lookup
new_memory-Agrees = record {
  keyed = λ id ws e. absurd (ground arith);
  named = λ id ws e. absurd (ground arith);
  indexed = λ id ws e. absurd (ground arith);
  backed = λ alias id e. absurd (ground arith);
  bound = λ id ws e. absurd (ground arith);
  marked = λ id ws e. absurd (ground arith);
  stands = λ ne. absurd (ne refl);
}

-- The row of the default, without its mark.
abbrev pub unmarked : MemoryRegistry → Stored
unmarked r = record (row_or_zero (find_row r.default_id r)) { is_default_entry = false }

-- What `Register` and `Update` make of the rows before they write the new one.
abbrev pub prepared : Stored → MemoryRegistry → MemoryRegistry
prepared ws r = if replaces_default ws r then demote_default r else r

pub find_row-prepared :
    (ws : Stored) (r : MemoryRegistry) (j : Text)
    → find_row j (prepared ws r) ≡ (
        if replaces_default ws r
        then ite (Text-discrete r.default_id j) (some (unmarked r)) (find_row j r)
        else find_row j r)
unfolding find_row demote_default
find_row-prepared ws r j =
    ground (arith, lookup-insert Text-discrete r.default_id j (unmarked r) r.by_id)

pub find_row-add_workspace :
    (ws : Stored) (f : ℕ) (r : MemoryRegistry) (j : Text)
    → find_row j (add_workspace ws f r)
      ≡ ite (Text-discrete ws.workspace_id j) (some ws) (find_row j (prepared ws r))
unfolding find_row add_workspace
find_row-add_workspace ws f r j =
    lookup-insert Text-discrete ws.workspace_id j ws (prepared ws r).by_id

pub find_id-add_workspace :
    (ws : Stored) (f : ℕ) (r : MemoryRegistry) (a : Text)
    → find_id a (add_workspace ws f r)
      ≡ ite (Text-discrete ws.alias a) (some ws.workspace_id) (find_id a r)
unfolding find_id add_workspace demote_default
find_id-add_workspace ws f r a =
    ground (arith, lookup-insert Text-discrete ws.alias a ws.workspace_id r.by_alias)

pub factories-add_workspace :
    (ws : Stored) (f : ℕ) (r : MemoryRegistry) (j : Text)
    → lookup Text-discrete j (add_workspace ws f r).factories
      ≡ ite (Text-discrete ws.workspace_id j) (some f) (lookup Text-discrete j r.factories)
unfolding add_workspace demote_default
factories-add_workspace ws f r j =
    ground (arith, lookup-insert Text-discrete ws.workspace_id j f r.factories)

pub default_id-add_workspace :
    (ws : Stored) (f : ℕ) (r : MemoryRegistry)
    → (add_workspace ws f r).default_id
      ≡ (if ws.is_default_entry then ws.workspace_id else r.default_id)
unfolding add_workspace demote_default
default_id-add_workspace ws f r = ground arith

module _ (r : MemoryRegistry) (h : Agrees r) where
  -- Unmarking keeps everything but the mark.
  pub unmarked_row :
      r.default_id ≢ []
      → (old : Stored) × (find_row r.default_id r ≡ some old)
        × (unmarked r ≡ record old { is_default_entry = false })
  unmarked_row ne = let (old, found) = h.stands ne in (old, found, ground arith)

  -- A prepared row was there before, with the same id and alias.
  pub prepared_row :
      (ws : Stored) (j : Text) (row : Stored)
      → find_row j (prepared ws r) ≡ some row
      → (old : Stored) × (find_row j r ≡ some old)
        × (row.workspace_id ≡ old.workspace_id)
        × (row.alias ≡ old.alias)
  prepared_row ws j row e = elim (Bool-cases (replaces_default ws r)) [
    | inr keeps ↦ (row, ground (arith, find_row-prepared ws r j), refl, refl)
    | inl replaces ↦ elim (Text-discrete r.default_id j) [
      | no other ↦ (row, ground (arith, find_row-prepared ws r j), refl, refl)
      | yes this ↦
          let (old, found, same) = unmarked_row (ground arith) in
          (
            old,
            subst (λ x. find_row x r ≡ some old) this found,
            ground (arith, find_row-prepared ws r j),
            ground (arith, find_row-prepared ws r j),
          )
    ]
  ]

  pub row_prepared :
      (ws : Stored) (j : Text) (old : Stored)
      → find_row j r ≡ some old
      → (row : Stored) × (find_row j (prepared ws r) ≡ some row) × (row.alias ≡ old.alias)
  row_prepared ws j old e = elim (Bool-cases (replaces_default ws r)) [
    | inr keeps ↦ (old, ground (arith, find_row-prepared ws r j), refl)
    | inl replaces ↦ elim (Text-discrete r.default_id j) [
      | no other ↦ (old, ground (arith, find_row-prepared ws r j), refl)
      | yes this ↦ (unmarked r, ground (arith, find_row-prepared ws r j), ground arith)
    ]
  ]
