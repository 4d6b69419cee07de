-- ===== src/Storage/PluginRepo/Listing.antt =====
-- pkg/storage/memory/plugin_repo.go: `List`, whose cursor is an offset in decimal.
use Prim.Native.Nat.{suc, ◌+◌, ◌*◌, ◌/◌, ◌%◌}
use ana.Base.{
  ℕ, zero, ◌-◌, Bool, true, false, ◌&&◌, Option, none, some, List, [], ◌∷◌, map, length, take, drop,
  Text, ne_text, compare_text, values, ltb, leb, ◌==◌, if◌then◌else◌, Ordering, compare, Result, ok,
  err, ◌>>=◌, ◌>>◌, reject_if,
}
use ana.Base.Sorting.{select, sort}
use ana.Plugin.{Plugin, PluginError, storage_closed, invalid_cursor}
use ana.Plugin.Clone.{clone_plugin}
use ana.Storage.PluginRepo.{PluginRepository}

pub record PluginListOptions : Type 0 where
  pub namespace : Text
  pub name_like : Text
  pub limit : ℕ
  pub cursor : Text

unfoldable pub has_prefix : Text → Text → Bool
has_prefix s [] = true
has_prefix [] (p ∷ ps) = false
has_prefix (c ∷ s) (p ∷ ps) = let rest = has_prefix s ps in if c == p then rest else false

-- strings.Contains
unfoldable pub contains : Text → Text → Bool
unfolding has_prefix
contains [] sub = has_prefix [] sub
contains (c ∷ s) sub = let rest = contains s sub in if has_prefix (c ∷ s) sub then true else rest

-- The value of decimal digits after those read before.
unfoldable pub digits_value : ℕ → Text → Option ℕ
digits_value acc [] = some acc
digits_value acc (c ∷ s) =
    let rest = digits_value (acc * 10 + (c - 48)) s in if leb 48 c && leb c 57 then rest else none

abbrev int_limit : ℕ
int_limit = 9223372036854775808

unfoldable pub within_int : Option ℕ → Result PluginError ℕ
within_int none = err invalid_cursor
within_int (some n) = if ltb n int_limit then ok n else err invalid_cursor

-- A number with a minus sign is an offset only if it is zero.
unfoldable pub negative_offset : Option ℕ → Result PluginError ℕ
negative_offset none = err invalid_cursor
negative_offset (some n) = if n == 0 then ok 0 else err invalid_cursor

unfoldable pub unsigned_digits : Text → Option ℕ
unfolding digits_value
unsigned_digits [] = none
unsigned_digits (c ∷ s) = digits_value 0 (c ∷ s)

-- `strconv.Atoi`, with its signs and its range of 64 bits, and `offset < 0`
unfoldable pub parse_plugin_cursor : Text → Result PluginError ℕ
unfolding within_int negative_offset unsigned_digits
parse_plugin_cursor [] = ok 0
parse_plugin_cursor (c ∷ s) =
    if c == 45
    then negative_offset (unsigned_digits s)
    else if c == 43
    then within_int (unsigned_digits s)
    else within_int (unsigned_digits (c ∷ s))

-- `strconv.Itoa` on fuel: the digits of `n` before `after`.
unfoldable pub itoa_on : ℕ → ℕ → Text → Text
itoa_on zero n after = after
itoa_on (suc fuel) n after =
    let rest = itoa_on fuel (n / 10) ((48 + n % 10) ∷ after) in
    if ltb n 10 then (48 + n) ∷ after else rest

unfoldable pub itoa : ℕ → Text
unfolding itoa_on
itoa n = itoa_on (suc n) n []

-- The loop body of `List`: whether the row is appended.
unfoldable pub is_listed_plugin : PluginListOptions → Plugin → Bool
unfolding contains
is_listed_plugin opts p =
    if ne_text opts.namespace [] && ne_text p.namespace opts.namespace
    then false
    else if ne_text opts.name_like []
    then contains p.name opts.name_like
    else true

unfoldable pub compare_age : ℕ × Text → ℕ × Text → Ordering
compare_age (created_a, id_a) (created_b, id_b) = elim (compare created_a created_b) [
  | Ordering.lt ↦ Ordering.lt
  | Ordering.gt ↦ Ordering.gt
  | Ordering.eq ↦ compare_text id_a id_b
]

abbrev pub sort_plugins : List Plugin → List Plugin
sort_plugins = sort (λ p. (p.created_at, p.id)) compare_age

-- The rows from `offset`, as many as `limit` says, and the offset of the next page.
unfoldable pub page_at : ℕ → ℕ → List Plugin → List Plugin × Text
unfolding itoa
page_at limit offset filtered =
    let remaining = length filtered - offset in
    let taken = if ltb limit remaining then limit else remaining in
    let end = offset + taken in
    if leb (length filtered) offset
    then ([], [])
    else (take taken (drop offset filtered), if ltb end (length filtered) then itoa end else [])

unfoldable pub list_plugins :
    PluginRepository → PluginListOptions → Result PluginError (List Plugin × Text)
unfolding parse_plugin_cursor is_listed_plugin compare_age page_at
list_plugins r opts = do
  reject_if r.closed storage_closed
  let limit = if opts.limit == 0 then 50 else opts.limit
  offset ← parse_plugin_cursor opts.cursor
  let filtered = map clone_plugin (select (is_listed_plugin opts) (values r.by_id))
  ok (page_at limit offset (sort_plugins filtered))
