-- ===== src/Workspace/Value.antt =====
-- pkg/storage/memory/workspace_repo.go and pkg/manager/workspace/clone.go: the copies that keep a
-- stored row apart from what callers hold. Both files declare the same functions.
use mathlib.Core.Option
use ana.Base.{ℕ, ◌≡◌, refl, ap, ite, Text, Text-discrete, Option, none, some, arith}

mutual
  -- A value of type `any`. `opaque` is a value of a type that the copies do not look into.
  pub data Value : Type 0 where
    null : Value
    opaque : ℕ → Value
    text : Text → Value
    nil_list : Value
    list : Values → Value
    object : Object → Value

  pub data Values : Type 0 where
    nil : Values
    cons : Value → Values → Values

  -- `map[string]any`: a nil map and an empty one are two values
  pub data Object : Type 0 where
    nil_map : Object
    made : Fields → Object

  pub data Fields : Type 0 where
    end : Fields
    field : Text → Value → Fields → Fields

unfoldable mutual
  -- `deepCloneWorkspaceAny`: a nil `[]any` comes back empty and not nil
  pub deep_clone_any : Value → Value
  deep_clone_any null = null
  deep_clone_any (opaque n) = opaque n
  deep_clone_any (text s) = text s
  deep_clone_any nil_list = list nil
  deep_clone_any (list xs) = list (clone_values xs)
  deep_clone_any (object o) = object (clone_map_any o)

  pub clone_values : Values → Values
  clone_values nil = nil
  clone_values (cons x xs) = cons (deep_clone_any x) (clone_values xs)

  -- `cloneWorkspaceMapAny` and `cloneOptions`: `len(in) == 0` gives nil
  pub clone_map_any : Object → Object
  clone_map_any nil_map = nil_map
  clone_map_any (made end) = nil_map
  clone_map_any (made (field k v fs)) = made (field k (deep_clone_any v) (clone_fields fs))

  pub clone_fields : Fields → Fields
  clone_fields end = end
  clone_fields (field k v fs) = field k (deep_clone_any v) (clone_fields fs)

unfoldable pub field_of : Text → Fields → Option Value
field_of k end = none
field_of k (field j v fs) = ite (Text-discrete j k) (some v) (field_of k fs)

-- `m[k]`
unfoldable pub member : Text → Object → Option Value
unfolding field_of
member k nil_map = none
member k (made fs) = field_of k fs

field_of-clone_fields :
    (k : Text) (fs : Fields)
    → field_of k (clone_fields fs) ≡ Option.map deep_clone_any (field_of k fs)
unfolding field_of deep_clone_any
field_of-clone_fields k end = refl
field_of-clone_fields k (field j v fs) = ground (arith, field_of-clone_fields k fs)

-- A copy has the keys of its original, each with the copy of its value.
pub member-clone_map_any :
    (k : Text) (o : Object) → member k (clone_map_any o) ≡ Option.map deep_clone_any (member k o)
unfolding member deep_clone_any
member-clone_map_any k nil_map = refl
member-clone_map_any k (made end) = refl
member-clone_map_any k (made (field j v fs)) = field_of-clone_fields k (field j v fs)

mutual
  unfolding deep_clone_any

  deep_clone_any_twice : (v : Value) → deep_clone_any (deep_clone_any v) ≡ deep_clone_any v
  deep_clone_any_twice null = refl
  deep_clone_any_twice (opaque n) = refl
  deep_clone_any_twice (text s) = refl
  deep_clone_any_twice nil_list = refl
  deep_clone_any_twice (list xs) = ap list (clone_values_twice xs)
  deep_clone_any_twice (object o) = ap object (clone_map_any_twice o)

  clone_values_twice : (xs : Values) → clone_values (clone_values xs) ≡ clone_values xs
  clone_values_twice nil = refl
  clone_values_twice (cons x xs) = cc (deep_clone_any_twice x, clone_values_twice xs)

  clone_map_any_twice : (o : Object) → clone_map_any (clone_map_any o) ≡ clone_map_any o
  clone_map_any_twice nil_map = refl
  clone_map_any_twice (made end) = refl
  clone_map_any_twice (made (field k v fs)) = cc (deep_clone_any_twice v, clone_fields_twice fs)

  clone_fields_twice : (fs : Fields) → clone_fields (clone_fields fs) ≡ clone_fields fs
  clone_fields_twice end = refl
  clone_fields_twice (field k v fs) = cc (deep_clone_any_twice v, clone_fields_twice fs)

-- A copy of a copy is the copy.
pub clone_map_any_idem : (o : Object) → clone_map_any (clone_map_any o) ≡ clone_map_any o
clone_map_any_idem o = clone_map_any_twice o
