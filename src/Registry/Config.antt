-- ===== src/Registry/Config.antt =====
-- pkg/orchestrator/registry/registry.go: the runtime configuration of a workspace, as `reflect` sees it:
-- the search for cycles, and the deep copy.
pub mod Finite
pub mod Search
pub mod Cycles
pub mod Fuel
pub mod Cloning
use mathlib.Core.Option
use ana.Base.{
  ℕ, zero, suc, ◌+◌, ◌==◌, ◌||◌, Bool, true, false, Option, none, some, List, [], ◌∷◌,
  if◌then◌else◌,
}

mutual
  -- A reference is a number that stands for its type and address (`runtimeValueRef`). `pointer` is a
  -- pointer or a map; `slice k n` is the first `n` elements of what stands at `k`. `compound` is an
  -- interface, an array or a struct; `scalar` is any other value, and `null` an invalid or a nil one.
  -- `held` marks a key of a map and an unexported field of a struct, which the copy keeps as they are.
  pub data Value : Type 0 where
    null : Value
    scalar : ℕ → Value
    pointer : ℕ → Value
    slice : ℕ → ℕ → Value
    compound : Values → Value
    held : Value → Value

  pub data Values : Type 0 where
    nil : Values
    cons : Value → Values → Values

-- What stands at a reference: what a pointer points to, the keys and values of a map, the elements of an
-- array that slices share.
abbrev pub Heap : Type 0
Heap = ℕ → Values

unfoldable pub first_values : ℕ → Values → Values
first_values zero vs = nil
first_values (suc n) nil = nil
first_values (suc n) (cons v vs) = cons v (first_values n vs)

unfoldable pub is_member : ℕ → List ℕ → Bool
is_member k [] = false
is_member k (j ∷ js) = k == j || is_member k js

-- Whether a cycle was found, and `visited`.
abbrev pub Found : Type 0
Found = Bool × List ℕ

-- `visited[ref] = struct{}{}`, deferred
abbrev pub leave : ℕ → Option Found → Option Found
leave k none = none
leave k (some (b, visited)) = some (b, k ∷ visited)

-- What is done with the contents of a reference, given `visiting` and `visited`.
abbrev pub Enter : Type 0
Enter = Values → List ℕ → List ℕ → Option Found

-- A reference: on the way already, done already, or to be entered. A key whose deletion from `visiting` is
-- deferred is not in the shorter list that the caller goes on with.
unfoldable pub visit : Enter → ℕ → Values → List ℕ → List ℕ → Option Found
visit enter k contents visiting visited =
    if is_member k visiting
    then some (true, visited)
    else if is_member k visited
    then some (false, visited)
    else leave k (enter contents (k ∷ visiting) visited)

unfoldable mutual
  pub search : Enter → Heap → Value → List ℕ → List ℕ → Option Found
  search enter heap null visiting visited = some (false, visited)
  search enter heap (scalar n) visiting visited = some (false, visited)
  search enter heap (pointer k) visiting visited = visit enter k (heap k) visiting visited
  search enter heap (slice k n) visiting visited =
      visit enter k (first_values n (heap k)) visiting visited
  search enter heap (compound vs) visiting visited = search_values enter heap vs visiting visited
  search enter heap (held v) visiting visited = search enter heap v visiting visited

  pub search_values : Enter → Heap → Values → List ℕ → List ℕ → Option Found
  search_values enter heap nil visiting visited = some (false, visited)
  search_values enter heap (cons v vs) visiting visited =
      elim (search enter heap v visiting visited) [
        | none ↦ none
        | some (found, seen) ↦ elim found [
          | true ↦ some (true, seen)
          | false ↦ search_values enter heap vs visiting seen
        ]
      ]

-- `detectRuntimeConfigCycle` of the contents of a reference. The fuel bounds the references on the way;
-- `none` means that it ran out.
unfoldable pub detect : ℕ → Heap → Enter
unfolding search_values
detect zero heap vs visiting visited = none
detect (suc fuel) heap vs visiting visited =
    search_values (detect fuel heap) heap vs visiting visited

-- `hasRuntimeConfigCycle`, of a map `cfg` or of nil
unfoldable pub has_runtime_config_cycle : ℕ → Heap → Value → Option Bool
unfolding search
has_runtime_config_cycle fuel heap cfg = elim (search (detect fuel heap) heap cfg [] []) [
  | none ↦ none
  | some (found, visited) ↦ some found
]

-- A copy: new pointers, maps, slices and compound values, down to what it shares with its original,
-- which stays a value of the heap.
mutual
  pub data Copy : Type 0 where
    null_copy : Copy
    scalar_copy : ℕ → Copy
    shared : Value → Copy
    pointer_copy slice_copy compound_copy : Copies → Copy

  pub data Copies : Type 0 where
    no_copies : Copies
    copies : Copy → Copies → Copies

abbrev pub copy_both : Option Copy → Option Copies → Option Copies
copy_both (some c) (some cs) = some (copies c cs)
copy_both _ _ = none

-- `cloneReflectValue`, given how the contents of a reference are copied
unfoldable mutual
  pub clone_value : (Values → Option Copies) → Heap → Value → Option Copy
  clone_value enter heap null = some null_copy
  clone_value enter heap (scalar n) = some (scalar_copy n)
  clone_value enter heap (pointer k) = Option.map pointer_copy (enter (heap k))
  clone_value enter heap (slice k n) = Option.map slice_copy (enter (first_values n (heap k)))
  clone_value enter heap (compound vs) = Option.map compound_copy (clone_values enter heap vs)
  clone_value enter heap (held v) = some (shared v)

  pub clone_values : (Values → Option Copies) → Heap → Values → Option Copies
  clone_values enter heap nil = some no_copies
  clone_values enter heap (cons v vs) =
      copy_both (clone_value enter heap v) (clone_values enter heap vs)

unfoldable pub clone_contents : ℕ → Heap → Values → Option Copies
unfolding clone_values
clone_contents zero heap vs = none
clone_contents (suc fuel) heap vs = clone_values (clone_contents fuel heap) heap vs

-- `cloneRuntimeConfig`; fuel that runs out stands for the overflow of the stack
unfoldable pub clone_runtime_config : ℕ → Heap → Value → Option Copy
unfolding clone_value
clone_runtime_config fuel heap cfg = clone_value (clone_contents fuel heap) heap cfg

-- `cloneReflectValue` of a configuration that is itself a copy: what it shares are keys and unexported
-- fields again.
unfoldable mutual
  pub clone_copy : Copy → Copy
  clone_copy null_copy = null_copy
  clone_copy (scalar_copy n) = scalar_copy n
  clone_copy (shared v) = shared v
  clone_copy (pointer_copy cs) = pointer_copy (clone_copies cs)
  clone_copy (slice_copy cs) = slice_copy (clone_copies cs)
  clone_copy (compound_copy cs) = compound_copy (clone_copies cs)

  pub clone_copies : Copies → Copies
  clone_copies no_copies = no_copies
  clone_copies (copies c cs) = copies (clone_copy c) (clone_copies cs)
