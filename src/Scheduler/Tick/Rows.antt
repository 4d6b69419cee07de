-- ===== src/Scheduler/Tick/Rows.antt =====
-- pkg/manager/workspace/scheduler.go: which rows a tick probes.
use mathlib.Core.List.{Memᴰ}
use ana.Base.{
  All-pair, ◌⊎◌, subst, ℕ, ◌≡◌, refl, ◌≢◌, inl, inr, true, false, List, [], ◌∷◌, All, Text, arith,
  Bool-cases,
}
use ana.Base.Sorting.Strict.{All-imp}
use ana.Workspace.{Workspace}
use ana.Storage.WorkspaceRepo.{WorkspaceRepository}
use ana.Scheduler.Probe.{IsProbed}
use ana.Scheduler.Tick.{TickRun, is_probed, mem_text, look_at, scan}

not_seen_cons :
    (a b : Text) (bs : List Text) → mem_text a (b ∷ bs) ≡ false → (a ≢ b) × (mem_text a bs ≡ false)
unfolding mem_text
not_seen_cons a b bs h = (ground arith, ground arith)

IsProbed-of_test : (row : Workspace) → is_probed row ≡ true → IsProbed row.status
IsProbed-of_test row h = ground arith

scan_rows :
    (timeout : ℕ) (t : TickRun) (seen : List Text) (r : WorkspaceRepository) (rows : List Workspace)
    → All (λ w. IsProbed w.status × (mem_text w.id seen ≡ false)) (scan timeout t seen r rows).1
unfolding scan
scan_rows timeout t seen r [] = tt
scan_rows timeout t seen r (row ∷ rows) = elim (Bool-cases (mem_text row.id seen)) [
  | inl old ↦ rw old (scan_rows timeout t seen r rows)
  | inr new ↦
      let rest =
        All-imp (λ w h. (h.0, (not_seen_cons w.id row.id seen h.1).1)) _
          (scan_rows timeout t (row.id ∷ seen) (look_at timeout t row r) rows) in
      elim (Bool-cases (is_probed row)) [
        | inl probed ↦ rw (new, probed) ((IsProbed-of_test row probed, new), rest)
        | inr unprobed ↦ rw (new, unprobed) rest
      ]
]

abbrev pub HasDistinctIds : List Workspace → Type 0
HasDistinctIds [] = Unit
HasDistinctIds (row ∷ rows) = All (λ w. w.id ≢ row.id) rows × HasDistinctIds rows

scan-HasDistinctIds :
    (timeout : ℕ) (t : TickRun) (seen : List Text) (r : WorkspaceRepository) (rows : List Workspace)
    → HasDistinctIds (scan timeout t seen r rows).1
unfolding scan
scan-HasDistinctIds timeout t seen r [] = tt
scan-HasDistinctIds timeout t seen r (row ∷ rows) = elim (Bool-cases (mem_text row.id seen)) [
  | inl old ↦ rw old (scan-HasDistinctIds timeout t seen r rows)
  | inr new ↦
      let s = look_at timeout t row r in
      let rest = scan-HasDistinctIds timeout t (row.id ∷ seen) s rows in
      elim (Bool-cases (is_probed row)) [
        | inl probed ↦
            rw (new, probed)
              (
                All-imp (λ w h. (not_seen_cons w.id row.id seen h.1).0) _
                    (scan_rows timeout t (row.id ∷ seen) s rows),
                rest,
              )
        | inr unprobed ↦ rw (new, unprobed) rest
      ]
]

scan-Mem :
    (timeout : ℕ) (t : TickRun) (seen : List Text) (r : WorkspaceRepository) (rows : List Workspace)
    → All (λ w. Memᴰ w rows) (scan timeout t seen r rows).1
unfolding scan
scan-Mem timeout t seen r [] = tt
scan-Mem timeout t seen r (row ∷ rows) =
    let later : (xs : List Workspace)
        → All (λ w. Memᴰ w rows) xs
        → All (λ w. Memᴰ w (row ∷ rows)) xs =
      All-imp (λ w m. Memᴰ.tail m) in
    elim (Bool-cases (mem_text row.id seen)) [
      | inl old ↦ rw old (later _ (scan-Mem timeout t seen r rows))
      | inr new ↦
          let rest = later _ (scan-Mem timeout t (row.id ∷ seen) (look_at timeout t row r) rows) in
          elim (Bool-cases (is_probed row)) [
            | inl probed ↦ rw (new, probed) (Memᴰ.head refl, rest)
            | inr unprobed ↦ rw (new, unprobed) rest
          ]
    ]

is_probed_of_IsProbed : (row : Workspace) → IsProbed row.status → is_probed row ≡ true
is_probed_of_IsProbed row h = ground arith

-- The row stands in the list, and none before it has its id.
abbrev pub IsFirst : Workspace → List Workspace → Type 0
IsFirst w [] = ⊥
IsFirst w (row ∷ rows) = (w ≡ row) ⊎ ((w.id ≢ row.id) × IsFirst w rows)

scan-complete :
    (timeout : ℕ) (t : TickRun) (seen : List Text) (r : WorkspaceRepository) (rows : List Workspace)
    (w : Workspace)
    → IsFirst w rows
    → mem_text w.id seen ≡ false
    → IsProbed w.status
    → Memᴰ w (scan timeout t seen r rows).1
unfolding scan
scan-complete timeout t seen r [] w first new p = elim first [ ]
scan-complete timeout t seen r (row ∷ rows) w (inl same) new p =
    let fresh : mem_text row.id seen ≡ false = subst (λ x. mem_text x.id seen ≡ false) same new in
    let probed : is_probed row ≡ true =
      subst (λ x. is_probed x ≡ true) same (is_probed_of_IsProbed w p) in
    rw (fresh, probed) (Memᴰ.head same)
scan-complete timeout t seen r (row ∷ rows) w (inr (ne, first)) new p =
    let skipped = scan-complete timeout t seen r rows w first new p in
    let rest =
      scan-complete timeout t (row.id ∷ seen) (look_at timeout t row r) rows w first
        (unfold mem_text in ground arith) p in
    elim (Bool-cases (mem_text row.id seen)) [
      | inl old ↦ rw old skipped
      | inr fresh ↦ elim (Bool-cases (is_probed row)) [
        | inl probed ↦ rw (fresh, probed) (Memᴰ.tail rest)
        | inr unprobed ↦ rw (fresh, unprobed) rest
      ]
    ]

-- The rows that the loop of runTick collects to be probed, of any listing, also of one that has an id
-- twice, are rows of the listing that are healthy or failed, no two with one id; and each row of the
-- listing that is healthy or failed and the first of its id is among them.
pub scan_probes_once :
    (timeout : ℕ) (t : TickRun) (r : WorkspaceRepository) (rows : List Workspace)
    → All (λ w. Memᴰ w rows × IsProbed w.status) (scan timeout t [] r rows).1
      × HasDistinctIds (scan timeout t [] r rows).1
      × ((w : Workspace) → IsFirst w rows → IsProbed w.status → Memᴰ w (scan timeout t [] r rows).1)
scan_probes_once timeout t r rows = (
  All-pair (λ w. Memᴰ w rows) (λ w. IsProbed w.status) _ (scan-Mem timeout t [] r rows)
      (All-imp (λ w h. h.0) _ (scan_rows timeout t [] r rows)),
  scan-HasDistinctIds timeout t [] r rows,
  λ w first p. scan-complete timeout t [] r rows w first (unfold mem_text in refl) p,
)
