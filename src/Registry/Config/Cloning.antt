-- ===== src/Registry/Config/Cloning.antt =====
-- pkg/orchestrator/registry/registry.go: the deep copy of a configuration without a cycle.
use mathlib.Core.Option
use ana.Base.{ℕ, zero, suc, ◌+◌, ◌≤◌, ◌≡◌, refl, ap, Option, some, arith}
use ana.Registry.Config.{
  Value, null, scalar, pointer, slice, compound, held, Values, nil, cons, Heap, first_values, Copy,
  null_copy, scalar_copy, shared, pointer_copy, slice_copy, compound_copy, Copies, no_copies,
  copies, clone_value, clone_values, clone_contents, clone_runtime_config,
}
use ana.Registry.Config.Finite.{
  Finite, pointer_ends, slice_ends, compound_ends, AllFinite, cons_ends,
}

mutual
  -- What a copy copies: each pointer, map, slice and compound value anew with the copies of what it
  -- holds, in order, and each key and unexported field as it is.
  pub data IsCloneOf (heap : Heap) : Copy → Value → Type 0 where
    null_cloned : IsCloneOf heap null_copy null
    scalar_cloned : {n : ℕ} → IsCloneOf heap (scalar_copy n) (scalar n)
    pointer_cloned :
        {k : ℕ} {cs : Copies}
        → AreClonesOf heap cs (heap k)
        → IsCloneOf heap (pointer_copy cs) (pointer k)
    slice_cloned :
        {k n : ℕ} {cs : Copies}
        → AreClonesOf heap cs (first_values n (heap k))
        → IsCloneOf heap (slice_copy cs) (slice k n)
    compound_cloned :
        {vs : Values} {cs : Copies}
        → AreClonesOf heap cs vs
        → IsCloneOf heap (compound_copy cs) (compound vs)
    held_shared : {v : Value} → IsCloneOf heap (shared v) (held v)

  pub data AreClonesOf (heap : Heap) : Copies → Values → Type 0 where
    nil_cloned : AreClonesOf heap no_copies nil
    cons_cloned :
        {c : Copy} {cs : Copies} {v : Value} {vs : Values}
        → IsCloneOf heap c v
        → AreClonesOf heap cs vs
        → AreClonesOf heap (copies c cs) (cons v vs)

-- From some fuel on, the computation gives one and the same result, which has the property.
pub record EndsWith {ℓ κ} {A : Type ℓ} (f : ℕ → Option A) (P : A → Type κ) : Type (ℓ ⊔ κ) where
  pub result : A
  pub bound : ℕ
  pub ends : (fuel : ℕ) → bound ≤ fuel → f fuel ≡ some result
  pub holds : P result

contents_end :
    (heap : Heap) (vs : Values)
    → EndsWith
        (λ fuel. clone_values (clone_contents fuel heap) heap vs)
        (λ cs. AreClonesOf heap cs vs)
    → EndsWith (λ fuel. clone_contents fuel heap vs) (λ cs. AreClonesOf heap cs vs)
unfolding clone_contents
contents_end heap vs e = record {
  result = e.result;
  bound = suc e.bound;
  ends = go;
  holds = e.holds;
}
  where
    go : (fuel : ℕ) → suc e.bound ≤ fuel → clone_contents fuel heap vs ≡ some e.result
    go zero le = absurd (omega (arith, le))
    go (suc fuel) le = e.ends fuel (omega (arith, le))

mutual
  unfolding clone_value

  clone_value_ends :
      (heap : Heap) (v : Value)
      → Finite heap v
      → EndsWith (λ fuel. clone_value (clone_contents fuel heap) heap v) (λ c. IsCloneOf heap c v)
  clone_value_ends heap null f = record {
    result = null_copy;
    bound = 0;
    ends = λ fuel le. refl;
    holds = null_cloned;
  }
  clone_value_ends heap (scalar n) f = record {
    result = scalar_copy n;
    bound = 0;
    ends = λ fuel le. refl;
    holds = scalar_cloned;
  }
  clone_value_ends heap (held v) f = record {
    result = shared v;
    bound = 0;
    ends = λ fuel le. refl;
    holds = held_shared;
  }
  clone_value_ends heap (pointer k) (pointer_ends f) =
      let inner = contents_end heap (heap k) (clone_values_end heap (heap k) f) in
      record {
        result = pointer_copy inner.result;
        bound = inner.bound;
        ends = λ fuel le. ap (Option.map pointer_copy) (inner.ends fuel le);
        holds = pointer_cloned inner.holds;
      }
  clone_value_ends heap (slice k i) (slice_ends f) =
      let inner =
        contents_end heap (first_values i (heap k))
          (clone_values_end heap (first_values i (heap k)) f) in
      record {
        result = slice_copy inner.result;
        bound = inner.bound;
        ends = λ fuel le. ap (Option.map slice_copy) (inner.ends fuel le);
        holds = slice_cloned inner.holds;
      }
  clone_value_ends heap (compound vs) (compound_ends f) =
      let inner = clone_values_end heap vs f in
      record {
        result = compound_copy inner.result;
        bound = inner.bound;
        ends = λ fuel le. ap (Option.map compound_copy) (inner.ends fuel le);
        holds = compound_cloned inner.holds;
      }

  clone_values_end :
      (heap : Heap) (vs : Values)
      → AllFinite heap vs
      → EndsWith
          (λ fuel. clone_values (clone_contents fuel heap) heap vs)
          (λ cs. AreClonesOf heap cs vs)
  clone_values_end heap nil f = record {
    result = no_copies;
    bound = 0;
    ends = λ fuel le. refl;
    holds = nil_cloned;
  }
  clone_values_end heap (cons v vs) (cons_ends f fs) =
      let first = clone_value_ends heap v f in
      let rest = clone_values_end heap vs fs in
      record {
        result = copies first.result rest.result;
        bound = first.bound + rest.bound;
        ends = λ fuel le.
            rw (first.ends fuel (omega (arith, le)), rest.ends fuel (omega (arith, le))) refl;
        holds = cons_cloned first.holds rest.holds;
      }

-- The deep copy of a configuration whose references come to an end comes to an end itself: from some
-- depth of recursion on, it gives one and the same copy, in which each pointer, map, slice and compound
-- value is made anew from the copies of what it holds, in order, while the keys of maps and the
-- unexported fields of structs are those of the original.
pub clone_runtime_config_ends :
    (heap : Heap) (cfg : Value)
    → Finite heap cfg
    → EndsWith (λ fuel. clone_runtime_config fuel heap cfg) (λ c. IsCloneOf heap c cfg)
unfolding clone_runtime_config
clone_runtime_config_ends heap cfg f = clone_value_ends heap cfg f
