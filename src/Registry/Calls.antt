-- ===== src/Registry/Calls.antt =====
-- pkg/orchestrator/registry/registry.go: histories of the registry.
use ana.Base.{
  ℕ, ◌≡◌, ◌≢◌, refl, subst, Bool, Option, none, some, List, [], ◌∷◌, Text, arith, inl, inr, ◌⊎◌,
  ◌>>=◌, Bool-cases, Option-cases, Result, ok, err, after, Result-cases,
}
use ana.Registry.{
  RuntimeConfig, Workspace, Stored, MemoryRegistry, RegistryError, new_memory, find_row, find_id,
  add_workspace, register_valid, register, replace_workspace, update_valid, update, set_enabled,
  trim_space, validate_workspace,
}
use ana.Registry.Agreement.{Agrees, new_memory-Agrees}
use ana.Registry.Additions.{add_workspace-Agrees}
use ana.Registry.Updates.{replace_workspace-Agrees, with_enabled, with_enabled-Agrees}

-- A call that writes; a registration with no factory passes nil.
pub data Call : Type 0 where
  registers : Workspace RuntimeConfig → Option ℕ → Call
  updates : Workspace RuntimeConfig → Call
  sets_enabled : Bool → Text → Call

unfoldable pub step : ℕ → MemoryRegistry → Call → MemoryRegistry
step fuel r (registers ws factory) = after r (register fuel ws factory r)
step fuel r (updates ws) = after r (update fuel ws r)
step fuel r (sets_enabled enabled id) = after r (set_enabled enabled id r)

unfoldable pub run : ℕ → MemoryRegistry → List Call → MemoryRegistry
unfolding step
run fuel r [] = r
run fuel r (c ∷ cs) = run fuel (step fuel r c) cs

validated_id :
    (fuel : ℕ) (ws : Workspace RuntimeConfig) (v : Stored)
    → validate_workspace fuel ws ≡ ok v
    → v.workspace_id ≢ []
unfolding validate_workspace
validated_id fuel ws v e = ground arith

register_valid-Agrees :
    (r s : MemoryRegistry) (ws : Stored) (f : ℕ)
    → Agrees r
    → ws.workspace_id ≢ []
    → register_valid ws f r ≡ ok s
    → Agrees s
unfolding register_valid
register_valid-Agrees r s ws f h ne e = elim (Option-cases (find_row ws.workspace_id r)) [
  | inr (old, found) ↦ absurd (ground arith)
  | inl free ↦ elim (Option-cases (find_id ws.alias r)) [
    | inr (other, used) ↦ absurd (ground arith)
    | inl unused ↦
        let written : add_workspace ws f r ≡ s = ground arith in
        subst Agrees written (add_workspace-Agrees r h ws f ne free unused)
  ]
]

update_valid-Agrees :
    (r s : MemoryRegistry) (ws : Stored) → Agrees r → update_valid ws r ≡ ok s → Agrees s
unfolding update_valid
update_valid-Agrees r s ws h e = elim (Option-cases (find_row ws.workspace_id r)) [
  | inl missing ↦ absurd (ground arith)
  | inr (existing, found) ↦
      let written : replace_workspace ws r ≡ s = ground arith in
      subst Agrees written (replace_workspace-Agrees r h ws existing found (ground arith))
]

-- A validated workspace is what is written.
validated :
    (fuel : ℕ) (ws : Workspace RuntimeConfig) (next : Stored → Result RegistryError MemoryRegistry)
    (s : MemoryRegistry)
    → (validate_workspace fuel ws >>= next) ≡ ok s
    → (v : Stored) × (validate_workspace fuel ws ≡ ok v) × (next v ≡ ok s)
validated fuel ws next s =
    Result-cases (λ x. (x >>= next) ≡ ok s → (v : Stored) × (x ≡ ok v) × (next v ≡ ok s))
      (validate_workspace fuel ws) (λ v _ e. (v, refl, e)) (λ f _ e. absurd (ground arith))

register-Agrees :
    (fuel : ℕ) (r s : MemoryRegistry) (ws : Workspace RuntimeConfig) (factory : Option ℕ)
    → Agrees r
    → register fuel ws factory r ≡ ok s
    → Agrees s
unfolding register
register-Agrees fuel r s ws none h e = absurd (ground arith)
register-Agrees fuel r s ws (some f) h e =
    let (v, valid, next) = validated fuel ws (λ v. register_valid v f r) s e in
    register_valid-Agrees r s v f h (validated_id fuel ws v valid) next

update-Agrees :
    (fuel : ℕ) (r s : MemoryRegistry) (ws : Workspace RuntimeConfig)
    → Agrees r
    → update fuel ws r ≡ ok s
    → Agrees s
unfolding update
update-Agrees fuel r s ws h e =
    let (v, valid, next) = validated fuel ws (λ v. update_valid v r) s e in
    update_valid-Agrees r s v h next

set_enabled-Agrees :
    (enabled : Bool) (id : Text) (r s : MemoryRegistry)
    → Agrees r
    → set_enabled enabled id r ≡ ok s
    → Agrees s
unfolding set_enabled
set_enabled-Agrees enabled id r s h e = elim (Option-cases (find_row (trim_space id) r)) [
  | inl missing ↦ absurd (ground arith)
  | inr (ws, found) ↦ elim (written enabled ws found) [
    | inl same ↦ subst Agrees same h
    | inr changed ↦ subst Agrees changed (with_enabled-Agrees enabled (trim_space id) ws r h found)
  ]
]
  where
    written :
        (b : Bool) (ws : Stored)
        → find_row (trim_space id) r ≡ some ws
        → (r ≡ s) ⊎ (with_enabled enabled (trim_space id) ws r ≡ s)
    written b ws found = elim (Bool-cases enabled) [
      | inl on ↦ elim (Bool-cases ws.enabled) [
        | inl was ↦ inl (ground arith)
        | inr was ↦ inr (ground arith)
      ]
      | inr off ↦ elim (Bool-cases ws.enabled) [
        | inl was ↦ inr (ground arith)
        | inr was ↦ inl (ground arith)
      ]
    ]

after-Agrees :
    (r : MemoryRegistry) (result : Result RegistryError MemoryRegistry)
    → Agrees r
    → ((s : MemoryRegistry) → result ≡ ok s → Agrees s)
    → Agrees (after r result)
after-Agrees r (ok s) h good = good s refl
after-Agrees r (err e) h good = h

step-Agrees : (fuel : ℕ) (r : MemoryRegistry) (c : Call) → Agrees r → Agrees (step fuel r c)
unfolding step
step-Agrees fuel r (registers ws factory) h =
    after-Agrees r (register fuel ws factory r) h λ s. register-Agrees fuel r s ws factory h
step-Agrees fuel r (updates ws) h =
    after-Agrees r (update fuel ws r) h λ s. update-Agrees fuel r s ws h
step-Agrees fuel r (sets_enabled enabled id) h =
    after-Agrees r (set_enabled enabled id r) h λ s. set_enabled-Agrees enabled id r s h

run-Agrees : (fuel : ℕ) (r : MemoryRegistry) (cs : List Call) → Agrees r → Agrees (run fuel r cs)
unfolding run
run-Agrees fuel r [] h = h
run-Agrees fuel r (c ∷ cs) h = run-Agrees fuel (step fuel r c) cs (step-Agrees fuel r c h)

-- Whatever is registered, updated, enabled and disabled, and whichever calls fail, the maps of a new
-- registry agree: rows stand under their ids, the index of aliases leads to exactly the rows with these
-- aliases, every row has a factory, and exactly the default is marked as the default.
pub run_new-Agrees : (fuel : ℕ) (cs : List Call) → Agrees (run fuel new_memory cs)
run_new-Agrees fuel cs = run-Agrees fuel new_memory cs new_memory-Agrees
