-- ===== src/Registry/Config/Fuel.antt =====
-- pkg/orchestrator/registry/registry.go: the search for cycles and the deep copy come to an end.
use ana.Base.{
  ℕ, zero, suc, ◌+◌, ◌≤◌, ◌<◌, ◌≡◌, ◌≢◌, refl, ap, ◌∙◌, true, false, Option, none, some, List, [],
  ◌∷◌, length, if◌then◌else◌, arith, inl, inr, ◌⊎◌, Bool-cases, Option-cases,
}
use ana.Registry.Config.{
  Value, null, scalar, pointer, slice, compound, held, Values, nil, cons, Heap, first_values,
  is_member, Found, leave, Enter, visit, search, search_values, detect, has_runtime_config_cycle,
}
use ana.Registry.Config.Finite.{Finite}
use ana.Registry.Config.Search.{IsWhole, AllWhole, Finite-of_search}
use ana.Registry.Config.Cycles.{quiet_of_Finite}

mutual
  -- The references of a value are among the keys.
  pub data IsWithin (keys : List ℕ) : Value → Type 0 where
    null_within : IsWithin keys null
    scalar_within : {n : ℕ} → IsWithin keys (scalar n)
    pointer_within : {k : ℕ} → is_member k keys ≡ true → IsWithin keys (pointer k)
    slice_within : {k n : ℕ} → is_member k keys ≡ true → IsWithin keys (slice k n)
    compound_within : {vs : Values} → AllWithin keys vs → IsWithin keys (compound vs)
    held_within : {v : Value} → IsWithin keys v → IsWithin keys (held v)

  pub data AllWithin (keys : List ℕ) : Values → Type 0 where
    nil_within : AllWithin keys nil
    cons_within :
        {v : Value} {vs : Values} → IsWithin keys v → AllWithin keys vs → AllWithin keys (cons v vs)

first_values-AllWithin :
    (keys : List ℕ) (n : ℕ) (vs : Values) → AllWithin keys vs → AllWithin keys (first_values n vs)
unfolding first_values
first_values-AllWithin keys zero vs h = nil_within
first_values-AllWithin keys (suc n) nil h = nil_within
first_values-AllWithin keys (suc n) (cons v vs) (cons_within h hs) =
    cons_within h (first_values-AllWithin keys n vs hs)

-- How many keys are not on the way.
room : List ℕ → List ℕ → ℕ
room [] visiting = 0
room (k ∷ keys) visiting =
    if is_member k visiting then room keys visiting else room keys visiting + 1

room-cons-le : (k : ℕ) (keys visiting : List ℕ) → room keys (k ∷ visiting) ≤ room keys visiting
unfolding room is_member
room-cons-le k [] visiting = omega arith
room-cons-le k (j ∷ keys) visiting = ground (arith, room-cons-le k keys visiting)

room-cons-lt :
    (k : ℕ) (keys visiting : List ℕ)
    → is_member k keys ≡ true
    → is_member k visiting ≡ false
    → room keys (k ∷ visiting) < room keys visiting
unfolding room is_member
room-cons-lt k [] visiting h new = absurd (ground arith)
room-cons-lt k (j ∷ keys) visiting h new =
    ground (arith, room-cons-le k keys visiting, room-cons-lt k keys visiting)

room-length : (keys visiting : List ℕ) → room keys visiting ≤ length keys
unfolding room
room-length [] visiting = omega arith
room-length (k ∷ keys) visiting = ground (arith, room-length keys visiting)

-- The search comes to an end for as much room as the fuel.
abbrev HasFuel : List ℕ → ℕ → Enter → Type 0
HasFuel keys fuel enter =
    (vs : Values) (visiting visited : List ℕ)
    → AllWithin keys vs
    → room keys visiting < fuel
    → enter vs visiting visited ≢ none

module _ (keys : List ℕ) (fuel : ℕ) (heap : Heap) (within : (k : ℕ) → AllWithin keys (heap k))
    (enter : Enter) (runs : HasFuel keys fuel enter) where
  leave-none : (k : ℕ) (o : Option Found) → leave k o ≡ none → o ≡ none
  leave-none k none e = refl
  leave-none k (some (b, seen)) e = absurd (ground arith)

  visit_runs :
      (k : ℕ) (contents : Values) (visiting visited : List ℕ)
      → is_member k keys ≡ true
      → AllWithin keys contents
      → room keys visiting ≤ fuel
      → visit enter k contents visiting visited ≢ none
  unfolding visit
  visit_runs k contents visiting visited m h le e = elim (Bool-cases (is_member k visiting)) [
    | inl looped ↦ ground arith
    | inr new ↦ elim (Bool-cases (is_member k visited)) [
      | inl old ↦ ground arith
      | inr fresh ↦
          let lt = room-cons-lt k keys visiting m new in
          runs contents (k ∷ visiting) visited h (omega (arith, lt, le))
            (leave-none k _ (ground arith))
    ]
  ]

  mutual
    unfolding search

    search_runs :
        (v : Value) (visiting visited : List ℕ)
        → IsWithin keys v
        → room keys visiting ≤ fuel
        → search enter heap v visiting visited ≢ none
    search_runs null visiting visited h le e = ground arith
    search_runs (scalar n) visiting visited h le e = ground arith
    search_runs (pointer k) visiting visited (pointer_within m) le e =
        visit_runs k (heap k) visiting visited m (within k) le e
    search_runs (slice k n) visiting visited (slice_within m) le e =
        visit_runs k (first_values n (heap k)) visiting visited m
          (first_values-AllWithin keys n (heap k) (within k)) le e
    search_runs (compound vs) visiting visited (compound_within h) le e =
        search_values_run vs visiting visited h le e
    search_runs (held v) visiting visited (held_within h) le e =
        search_runs v visiting visited h le e

    search_values_run :
        (vs : Values) (visiting visited : List ℕ)
        → AllWithin keys vs
        → room keys visiting ≤ fuel
        → search_values enter heap vs visiting visited ≢ none
    search_values_run nil visiting visited h le e = ground arith
    search_values_run (cons v vs) visiting visited (cons_within h hs) le e =
        elim (Option-cases (search enter heap v visiting visited)) [
          | inl stuck ↦ search_runs v visiting visited h le stuck
          | inr ((b, inner), run) ↦ elim (Bool-cases b) [
            | inl looped ↦ ground arith
            | inr clear ↦ search_values_run vs visiting inner hs le (ground arith)
          ]
        ]

detect-HasFuel :
    (keys : List ℕ) (fuel : ℕ) (heap : Heap)
    → ((k : ℕ) → AllWithin keys (heap k))
    → HasFuel keys fuel (detect fuel heap)
unfolding detect
detect-HasFuel keys zero heap within vs visiting visited h lt e = absurd (omega (arith, lt))
detect-HasFuel keys (suc fuel) heap within vs visiting visited h lt e =
    search_values_run keys fuel heap within (detect fuel heap)
      (detect-HasFuel keys fuel heap within) vs visiting visited h (omega (arith, lt)) e

search_ends :
    (keys : List ℕ) (fuel : ℕ) (heap : Heap) (cfg : Value)
    → ((k : ℕ) → AllWithin keys (heap k))
    → IsWithin keys cfg
    → length keys ≤ fuel
    → has_runtime_config_cycle fuel heap cfg ≢ none
unfolding has_runtime_config_cycle
search_ends keys fuel heap cfg within h le e =
    search_runs keys fuel heap within (detect fuel heap) (detect-HasFuel keys fuel heap within) cfg
      [] [] h (omega (arith, room-length keys [], le)) (ground arith)

-- A configuration is refused exactly if it has a cycle: where each slice is the whole of its array, and
-- the fuel is not below the number of references, the search ends, and it finds a cycle if following the
-- references has no end, and none if it has.
pub has_runtime_config_cycle_lem :
    (keys : List ℕ) (fuel : ℕ) (heap : Heap) (cfg : Value)
    → ((k : ℕ) → AllWithin keys (heap k))
    → IsWithin keys cfg
    → ((k : ℕ) → AllWhole heap (heap k))
    → IsWhole heap cfg
    → length keys ≤ fuel
    → (Finite heap cfg × (has_runtime_config_cycle fuel heap cfg ≡ some false))
      ⊎ ((¬ Finite heap cfg) × (has_runtime_config_cycle fuel heap cfg ≡ some true))
has_runtime_config_cycle_lem keys fuel heap cfg within h whole w le =
    elim (Option-cases (has_runtime_config_cycle fuel heap cfg)) [
      | inl stuck ↦ absurd (search_ends keys fuel heap cfg within h le stuck)
      | inr (b, run) ↦ elim (Bool-cases b) [
        | inl looped ↦
            let found = run ∙ ap some looped in
            inr ((λ f. quiet_of_Finite fuel heap cfg whole w f found), found)
        | inr clear ↦
            let found = run ∙ ap some clear in
            inl (Finite-of_search fuel heap cfg whole w found, found)
      ]
    ]
