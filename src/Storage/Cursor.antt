-- ===== src/Storage/Cursor.antt =====
-- pkg/storage/memory/workspace_repo.go: the cursors of a listing
use ana.Base.{
  ◌≡◌, ◌≢◌, refl, [], ◌∷◌, ◌++◌, Option, none, some, arith, Text, IsBytes, ◌==◌, if◌then◌else◌,
  Result, ok, err,
}
use ana.Workspace.{RepoError, invalid_cursor}
use ana.Storage.Base64.{
  encode_to_string, decode_string, decode_string-encode_to_string, encode_to_string_ne,
}

unfoldable pub encode_cursor : Text → Text → Text
encode_cursor namespace alias = encode_to_string (namespace ++ 0 ∷ alias)

-- `strings.SplitN(s, "\x00", 2)`, and `none` unless it has two parts
unfoldable pub split_nul : Text → Option (Text × Text)
split_nul [] = none
split_nul (c ∷ s) =
    if c == 0
    then some ([], s)
    else elim (split_nul s) [ none ↦ none | some (a, b) ↦ some (c ∷ a, b) ]

cursor_parts : Option Text → Result RepoError (Text × Text)
unfolding split_nul
cursor_parts none = err invalid_cursor
cursor_parts (some raw) = elim (split_nul raw) [ none ↦ err invalid_cursor | some parts ↦ ok parts ]

unfoldable pub parse_workspace_cursor : Text → Result RepoError (Text × Text)
unfolding cursor_parts decode_string
parse_workspace_cursor [] = ok ([], [])
parse_workspace_cursor (c ∷ s) = cursor_parts (decode_string (c ∷ s))

-- No byte is 0: the separator of a cursor does not occur.
abbrev pub HasNoNul : Text → Type 0
HasNoNul [] = Unit
HasNoNul (c ∷ s) = (c ≢ 0) × HasNoNul s

split_nul-append : (a b : Text) → HasNoNul a → split_nul (a ++ 0 ∷ b) ≡ some (a, b)
unfolding split_nul
split_nul-append [] b h = refl
split_nul-append (c ∷ a) b h = ground (arith, split_nul-append a b h.1)

IsBytes-append_nul : (a b : Text) → IsBytes a → IsBytes b → IsBytes (a ++ 0 ∷ b)
IsBytes-append_nul [] b h k = (omega arith, k)
IsBytes-append_nul (c ∷ a) b h k = (h.0, IsBytes-append_nul a b h.1 k)

append_nul_ne : (a b : Text) → a ++ 0 ∷ b ≢ []
append_nul_ne [] b = λ e. cc
append_nul_ne (c ∷ a) b = λ e. cc

pub encode_cursor_ne : (a b : Text) → encode_cursor a b ≢ []
unfolding encode_cursor
encode_cursor_ne a b = encode_to_string_ne (a ++ 0 ∷ b) (append_nul_ne a b)

parse_nonempty : (s : Text) → s ≢ [] → parse_workspace_cursor s ≡ cursor_parts (decode_string s)
unfolding parse_workspace_cursor
parse_nonempty [] h = absurd (h refl)
parse_nonempty (c ∷ s) h = refl

decode_string-encode_cursor :
    (a b : Text) → IsBytes a → IsBytes b → decode_string (encode_cursor a b) ≡ some (a ++ 0 ∷ b)
unfolding encode_cursor
decode_string-encode_cursor a b h k =
    decode_string-encode_to_string (a ++ 0 ∷ b) (IsBytes-append_nul a b h k)

cursor_parts-append : (a b : Text) → HasNoNul a → cursor_parts (some (a ++ 0 ∷ b)) ≡ ok (a, b)
unfolding cursor_parts
cursor_parts-append a b n = ground (arith, split_nul-append a b n)

-- For a namespace and an alias of bytes, the namespace without a zero byte, parsing their cursor
-- gives them back.
pub parse_workspace_cursor-encode_cursor :
    (namespace alias : Text)
    → IsBytes namespace
    → IsBytes alias
    → HasNoNul namespace
    → parse_workspace_cursor (encode_cursor namespace alias) ≡ ok (namespace, alias)
parse_workspace_cursor-encode_cursor namespace alias h k n =
    rw
      (
        parse_nonempty (encode_cursor namespace alias) (encode_cursor_ne namespace alias),
        decode_string-encode_cursor namespace alias h k,
      )
      (cursor_parts-append namespace alias n)
