-- ===== src/Registry/Config/Finite.antt =====
-- pkg/orchestrator/registry/registry.go: configurations without a cycle.
use ana.Base.{ℕ}
use ana.Registry.Config.{
  Value, null, scalar, pointer, slice, compound, held, Values, nil, cons, Heap, first_values,
}

mutual
  -- Following the references of a value comes to an end.
  pub data Finite (heap : Heap) : Value → Type 0 where
    null_ends : Finite heap null
    scalar_ends : {n : ℕ} → Finite heap (scalar n)
    pointer_ends : {k : ℕ} → AllFinite heap (heap k) → Finite heap (pointer k)
    slice_ends : {k n : ℕ} → AllFinite heap (first_values n (heap k)) → Finite heap (slice k n)
    compound_ends : {vs : Values} → AllFinite heap vs → Finite heap (compound vs)
    held_ends : {v : Value} → Finite heap v → Finite heap (held v)

  pub data AllFinite (heap : Heap) : Values → Type 0 where
    nil_ends : AllFinite heap nil
    cons_ends :
        {v : Value} {vs : Values} → Finite heap v → AllFinite heap vs → AllFinite heap (cons v vs)
