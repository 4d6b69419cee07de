-- ===== src/Registry/Config/Search.antt =====
-- pkg/orchestrator/registry/registry.go: what the search for cycles finds.
use ana.Base.{
  ℕ, zero, suc, ◌≡◌, ◌≢◌, refl, subst, ◌==◌, true, false, Option, none, some, List, [], ◌∷◌, arith,
  inl, inr, Bool-cases, Option-cases,
}
use ana.Registry.Config.{
  Value, null, scalar, pointer, slice, compound, held, Values, nil, cons, Heap, first_values,
  is_member, Found, leave, Enter, visit, search, search_values, detect, has_runtime_config_cycle,
}
use ana.Registry.Config.Finite.{
  Finite, null_ends, scalar_ends, pointer_ends, slice_ends, compound_ends, held_ends, AllFinite,
  nil_ends, cons_ends,
}

mutual
  -- Each slice is the whole of what stands at its reference.
  pub data IsWhole (heap : Heap) : Value → Type 0 where
    null_whole : IsWhole heap null
    scalar_whole : {n : ℕ} → IsWhole heap (scalar n)
    pointer_whole : {k : ℕ} → IsWhole heap (pointer k)
    slice_whole : {k n : ℕ} → first_values n (heap k) ≡ heap k → IsWhole heap (slice k n)
    compound_whole : {vs : Values} → AllWhole heap vs → IsWhole heap (compound vs)
    held_whole : {v : Value} → IsWhole heap v → IsWhole heap (held v)

  pub data AllWhole (heap : Heap) : Values → Type 0 where
    nil_whole : AllWhole heap nil
    cons_whole :
        {v : Value} {vs : Values} → IsWhole heap v → AllWhole heap vs → AllWhole heap (cons v vs)

-- Where the references in `visited` lead has an end.
abbrev AllEnd : Heap → List ℕ → Type 0
AllEnd heap visited = (k : ℕ) → is_member k visited ≡ true → AllFinite heap (heap k)

abbrev IsSound : Heap → Enter → Type 0
IsSound heap enter =
    (vs : Values) (visiting visited seen : List ℕ)
    → AllWhole heap vs
    → AllEnd heap visited
    → enter vs visiting visited ≡ some (false, seen)
    → AllFinite heap vs × AllEnd heap seen

module _ (heap : Heap) (whole : (k : ℕ) → AllWhole heap (heap k)) (enter : Enter)
    (sound : IsSound heap enter) where
  leave-cases :
      (k : ℕ) (o : Option Found) (seen : List ℕ)
      → leave k o ≡ some (false, seen)
      → (inner : List ℕ) × (o ≡ some (false, inner)) × (seen ≡ k ∷ inner)
  leave-cases k none seen e = absurd (ground arith)
  leave-cases k (some (b, inner)) seen e = (inner, ground arith, ground arith)

  visit_sound :
      (k : ℕ) (contents : Values) (visiting visited seen : List ℕ)
      → contents ≡ heap k
      → AllEnd heap visited
      → visit enter k contents visiting visited ≡ some (false, seen)
      → AllFinite heap contents × AllEnd heap seen
  unfolding visit is_member
  visit_sound k contents visiting visited seen same ends e =
      elim (Bool-cases (is_member k visiting)) [
        | inl looped ↦ absurd (ground arith)
        | inr new ↦ elim (Bool-cases (is_member k visited)) [
          | inl old ↦
              let kept : visited ≡ seen = ground arith in
              (rw same (ends k old), subst (AllEnd heap) kept ends)
          | inr fresh ↦
              let (inner, inside, more) =
                leave-cases k (enter contents (k ∷ visiting) visited) seen (ground arith) in
              let (finite, later) =
                sound contents (k ∷ visiting) visited inner (rw same (whole k)) ends inside in
              (
                finite,
                λ j m. elim (Bool-cases (j == k)) [
                  | inl this ↦
                      let here : k ≡ j = ground arith in
                      subst (λ i. AllFinite heap (heap i)) here (subst (AllFinite heap) same finite)
                  | inr other ↦ later j (ground arith)
                ],
              )
        ]
      ]

  mutual
    unfolding search

    search_sound :
        (v : Value) (visiting visited seen : List ℕ)
        → IsWhole heap v
        → AllEnd heap visited
        → search enter heap v visiting visited ≡ some (false, seen)
        → Finite heap v × AllEnd heap seen
    search_sound null visiting visited seen w ends e =
        let kept : visited ≡ seen = ground arith in (null_ends, subst (AllEnd heap) kept ends)
    search_sound (scalar n) visiting visited seen w ends e =
        let kept : visited ≡ seen = ground arith in (scalar_ends, subst (AllEnd heap) kept ends)
    search_sound (pointer k) visiting visited seen w ends e =
        let (finite, later) = visit_sound k (heap k) visiting visited seen refl ends e in
        (pointer_ends finite, later)
    search_sound (slice k n) visiting visited seen (slice_whole same) ends e =
        let (finite, later) =
          visit_sound k (first_values n (heap k)) visiting visited seen same ends e in
        (slice_ends finite, later)
    search_sound (compound vs) visiting visited seen (compound_whole w) ends e =
        let (finite, later) = search_values_sound vs visiting visited seen w ends e in
        (compound_ends finite, later)
    search_sound (held v) visiting visited seen (held_whole w) ends e =
        let (finite, later) = search_sound v visiting visited seen w ends e in
        (held_ends finite, later)

    search_values_sound :
        (vs : Values) (visiting visited seen : List ℕ)
        → AllWhole heap vs
        → AllEnd heap visited
        → search_values enter heap vs visiting visited ≡ some (false, seen)
        → AllFinite heap vs × AllEnd heap seen
    search_values_sound nil visiting visited seen w ends e =
        let kept : visited ≡ seen = ground arith in (nil_ends, subst (AllEnd heap) kept ends)
    search_values_sound (cons v vs) visiting visited seen (cons_whole w ws) ends e =
        elim (Option-cases (search enter heap v visiting visited)) [
          | inl stuck ↦ absurd (ground arith)
          | inr ((b, inner), run) ↦ elim (Bool-cases b) [
            | inl looped ↦ absurd (ground arith)
            | inr clear ↦
                let (finite, later) = search_sound v visiting visited inner w ends (ground arith) in
                let (rest, last) =
                  search_values_sound vs visiting inner seen ws later (ground arith) in
                (cons_ends finite rest, last)
          ]
        ]

nothing_visited : (k : ℕ) → is_member k [] ≢ true
unfolding is_member
nothing_visited k e = cc

detect-IsSound :
    (fuel : ℕ) (heap : Heap) → ((k : ℕ) → AllWhole heap (heap k)) → IsSound heap (detect fuel heap)
unfolding detect
detect-IsSound zero heap whole vs visiting visited seen w ends e = absurd (ground arith)
detect-IsSound (suc fuel) heap whole vs visiting visited seen w ends e =
    search_values_sound heap whole (detect fuel heap) (detect-IsSound fuel heap whole) vs visiting
      visited seen w ends e

-- A search that finds nothing shows that the configuration is finite.
pub Finite-of_search :
    (fuel : ℕ) (heap : Heap) (cfg : Value)
    → ((k : ℕ) → AllWhole heap (heap k))
    → IsWhole heap cfg
    → has_runtime_config_cycle fuel heap cfg ≡ some false
    → Finite heap cfg
unfolding has_runtime_config_cycle
Finite-of_search fuel heap cfg whole w e =
    elim (Option-cases (search (detect fuel heap) heap cfg [] [])) [
      | inl stuck ↦ absurd (ground arith)
      | inr ((b, seen), run) ↦
          (search_sound heap whole (detect fuel heap) (detect-IsSound fuel heap whole) cfg [] []
            seen w (λ k m. absurd (nothing_visited k m)) (ground arith)).0
    ]
