-- ===== src/Registry/Config/Cycles.antt =====
-- pkg/orchestrator/registry/registry.go: a configuration without a cycle is never refused.
use ana.Base.{
  ℕ, zero, suc, ◌≡◌, ◌≢◌, refl, sym, subst, ◌==◌, true, Option, none, some, List, [], ◌∷◌, arith,
  inl, inr, Bool-cases, Option-cases,
}
use ana.Registry.Config.{
  Value, null, scalar, pointer, slice, compound, held, Values, nil, cons, Heap, first_values,
  is_member, Found, leave, Enter, visit, search, search_values, detect, has_runtime_config_cycle,
}
use ana.Registry.Config.Finite.{
  Finite, pointer_ends, slice_ends, compound_ends, held_ends, AllFinite, cons_ends,
}
use ana.Registry.Config.Search.{
  IsWhole, slice_whole, compound_whole, held_whole, AllWhole, cons_whole,
}

mutual
  -- The references that one meets on the ways from a value.
  pub data Meets (heap : Heap) : Value → ℕ → Type 0 where
    at_pointer : {k : ℕ} → Meets heap (pointer k) k
    at_slice : {k n : ℕ} → Meets heap (slice k n) k
    in_pointer : {j k : ℕ} → SomeMeets heap (heap j) k → Meets heap (pointer j) k
    in_slice : {j n k : ℕ} → SomeMeets heap (heap j) k → Meets heap (slice j n) k
    in_compound : {vs : Values} {k : ℕ} → SomeMeets heap vs k → Meets heap (compound vs) k
    in_held : {v : Value} {k : ℕ} → Meets heap v k → Meets heap (held v) k

  pub data SomeMeets (heap : Heap) : Values → ℕ → Type 0 where
    in_first : {v : Value} {vs : Values} {k : ℕ} → Meets heap v k → SomeMeets heap (cons v vs) k
    in_rest : {v : Value} {vs : Values} {k : ℕ} → SomeMeets heap vs k → SomeMeets heap (cons v vs) k

-- No way from a finite value meets a reference that leads back to itself.
mutual
  Finite-acyclic :
      (heap : Heap)
      → ((k : ℕ) → AllWhole heap (heap k))
      → (v : Value) (k : ℕ) → Finite heap v
      → IsWhole heap v
      → Meets heap v k
      → SomeMeets heap (heap k) k
      → ⊥
  Finite-acyclic heap whole null k _ w n m = elim n [ ]
  Finite-acyclic heap whole (scalar _) k _ w n m = elim n [ ]
  Finite-acyclic heap whole (pointer k) _ (pointer_ends f) w at_pointer m =
      AllFinite-acyclic heap whole (heap k) k f (whole k) m m
  Finite-acyclic heap whole (pointer j) k (pointer_ends f) w (in_pointer n) m =
      AllFinite-acyclic heap whole (heap j) k f (whole j) n m
  Finite-acyclic heap whole (slice k n) _ (slice_ends f) (slice_whole same) at_slice m =
      AllFinite-acyclic heap whole (first_values n (heap k)) k f (rw same (whole k)) (rw same m) m
  Finite-acyclic heap whole (slice j i) k (slice_ends f) (slice_whole same) (in_slice n) m =
      AllFinite-acyclic heap whole (first_values i (heap j)) k f (rw same (whole j)) (rw same n) m
  Finite-acyclic heap whole (compound vs) k (compound_ends f) (compound_whole w) (in_compound n) m =
      AllFinite-acyclic heap whole vs k f w n m
  Finite-acyclic heap whole (held v) k (held_ends f) (held_whole w) (in_held n) m =
      Finite-acyclic heap whole v k f w n m

  AllFinite-acyclic :
      (heap : Heap)
      → ((k : ℕ) → AllWhole heap (heap k))
      → (vs : Values) (k : ℕ) → AllFinite heap vs
      → AllWhole heap vs
      → SomeMeets heap vs k
      → SomeMeets heap (heap k) k
      → ⊥
  AllFinite-acyclic heap whole nil k _ w n m = elim n [ ]
  AllFinite-acyclic heap whole (cons v vs) k (cons_ends f fs) (cons_whole w ws) (in_first n) m =
      Finite-acyclic heap whole v k f w n m
  AllFinite-acyclic heap whole (cons v vs) k (cons_ends f fs) (cons_whole w ws) (in_rest n) m =
      AllFinite-acyclic heap whole vs k fs ws n m

-- Each reference on the way leads to all that the value meets.
abbrev LeadsTo : Heap → List ℕ → (ℕ → Type 0) → Type 0
LeadsTo heap visiting Met =
    (j : ℕ) → is_member j visiting ≡ true → (k : ℕ) → Met k → SomeMeets heap (heap j) k

-- A search that is entered where the references on the way lead finds no cycle.
abbrev IsQuiet : Heap → Enter → Type 0
IsQuiet heap enter =
    (vs : Values) (visiting visited seen : List ℕ)
    → AllFinite heap vs
    → AllWhole heap vs
    → LeadsTo heap visiting (SomeMeets heap vs)
    → enter vs visiting visited ≢ some (true, seen)

module _ (heap : Heap) (whole : (k : ℕ) → AllWhole heap (heap k)) (enter : Enter)
    (quiet : IsQuiet heap enter) where
  leave-true :
      (k : ℕ) (o : Option Found) (seen : List ℕ)
      → leave k o ≡ some (true, seen)
      → (inner : List ℕ) × (o ≡ some (true, inner))
  leave-true k none seen e = absurd (ground arith)
  leave-true k (some (b, inner)) seen e = (inner, ground arith)

  leads_inside :
      (k : ℕ) (contents : Values) (visiting : List ℕ) (Met : ℕ → Type 0)
      → contents ≡ heap k
      → ((i : ℕ) → SomeMeets heap contents i → Met i)
      → LeadsTo heap visiting Met
      → LeadsTo heap (k ∷ visiting) (SomeMeets heap contents)
  unfolding is_member
  leads_inside k contents visiting Met same out leads j m i met = elim (Bool-cases (j == k)) [
    | inl this ↦
        let here : k ≡ j = ground arith in
        subst (λ x. SomeMeets heap (heap x) i) here (subst (λ x. SomeMeets heap x i) same met)
    | inr other ↦ leads j (ground arith) i (out i met)
  ]

  visit_quiet :
      (k : ℕ) (contents : Values) (visiting visited seen : List ℕ) (Met : ℕ → Type 0)
      → contents ≡ heap k
      → AllFinite heap contents
      → Met k
      → ((i : ℕ) → SomeMeets heap contents i → Met i)
      → LeadsTo heap visiting Met
      → visit enter k contents visiting visited ≢ some (true, seen)
  unfolding visit
  visit_quiet k contents visiting visited seen Met same finite met out leads e =
      elim (Bool-cases (is_member k visiting)) [
        | inl looped ↦
            let again = leads k looped k met in
            AllFinite-acyclic heap whole (heap k) k (subst (AllFinite heap) same finite) (whole k)
              again again
        | inr new ↦ elim (Bool-cases (is_member k visited)) [
          | inl old ↦ ground arith
          | inr fresh ↦
              let (inner, found) =
                leave-true k (enter contents (k ∷ visiting) visited) seen (ground arith) in
              quiet contents (k ∷ visiting) visited inner finite
                (subst (AllWhole heap) (sym same) (whole k))
                (leads_inside k contents visiting Met same out leads) found
        ]
      ]

  mutual
    unfolding search

    search_quiet :
        (v : Value) (visiting visited seen : List ℕ)
        → Finite heap v
        → IsWhole heap v
        → LeadsTo heap visiting (Meets heap v)
        → search enter heap v visiting visited ≢ some (true, seen)
    search_quiet null visiting visited seen f w leads e = ground arith
    search_quiet (scalar n) visiting visited seen f w leads e = ground arith
    search_quiet (pointer k) visiting visited seen (pointer_ends f) w leads e =
        visit_quiet k (heap k) visiting visited seen (Meets heap (pointer k)) refl f at_pointer
          (λ i m. in_pointer m) leads e
    search_quiet (slice k n) visiting visited seen (slice_ends f) (slice_whole same) leads e =
        visit_quiet k (first_values n (heap k)) visiting visited seen (Meets heap (slice k n)) same
          f at_slice (λ i m. in_slice (subst (λ x. SomeMeets heap x i) same m)) leads e
    search_quiet (compound vs) visiting visited seen (compound_ends f) (compound_whole w) leads e =
        search_values_quiet vs visiting visited seen f w
          (λ j m i met. leads j m i (in_compound met)) e
    search_quiet (held v) visiting visited seen (held_ends f) (held_whole w) leads e =
        search_quiet v visiting visited seen f w (λ j m i met. leads j m i (in_held met)) e

    search_values_quiet :
        (vs : Values) (visiting visited seen : List ℕ)
        → AllFinite heap vs
        → AllWhole heap vs
        → LeadsTo heap visiting (SomeMeets heap vs)
        → search_values enter heap vs visiting visited ≢ some (true, seen)
    search_values_quiet nil visiting visited seen f w leads e = ground arith
    search_values_quiet (cons v vs) visiting visited seen (cons_ends f fs) (cons_whole w ws) leads
          e =
        elim (Option-cases (search enter heap v visiting visited)) [
          | inl stuck ↦ ground arith
          | inr ((b, inner), run) ↦ elim (Bool-cases b) [
            | inl looped ↦
                search_quiet v visiting visited inner f w (λ j m i met. leads j m i (in_first met))
                  (ground arith)
            | inr clear ↦
                search_values_quiet vs visiting inner seen fs ws
                  (λ j m i met. leads j m i (in_rest met)) (ground arith)
          ]
        ]

detect-IsQuiet :
    (fuel : ℕ) (heap : Heap) → ((k : ℕ) → AllWhole heap (heap k)) → IsQuiet heap (detect fuel heap)
unfolding detect
detect-IsQuiet zero heap whole vs visiting visited seen f w leads e = ground arith
detect-IsQuiet (suc fuel) heap whole vs visiting visited seen f w leads e =
    search_values_quiet heap whole (detect fuel heap) (detect-IsQuiet fuel heap whole) vs visiting
      visited seen f w leads e

not_visiting : (k : ℕ) → is_member k [] ≢ true
unfolding is_member
not_visiting k e = cc

pub quiet_of_Finite :
    (fuel : ℕ) (heap : Heap) (cfg : Value)
    → ((k : ℕ) → AllWhole heap (heap k))
    → IsWhole heap cfg
    → Finite heap cfg
    → has_runtime_config_cycle fuel heap cfg ≢ some true
unfolding has_runtime_config_cycle
quiet_of_Finite fuel heap cfg whole w f e =
    elim (Option-cases (search (detect fuel heap) heap cfg [] [])) [
      | inl stuck ↦ ground arith
      | inr ((b, seen), run) ↦
          search_quiet heap whole (detect fuel heap) (detect-IsQuiet fuel heap whole) cfg [] [] seen
            f w (λ j m. absurd (not_visiting j m)) (ground arith)
    ]
