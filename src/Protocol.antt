-- ===== src/Protocol.antt =====
-- pkg/orchestrator/protocol/protocol.go: the directive `{to #alias}` at the head of a message. Texts
-- are code points here, for strings that are valid UTF-8.
pub mod Formatting
mod Examples
use Prim.Native.Nat.{suc, ◌+◌}
use ana.Base.{
  ℕ, ◌≡◌, refl, Bool, true, false, ◌&&◌, ◌||◌, Option, none, some, List, [], ◌∷◌, ◌++◌, Text, codes,
  length, leb, ◌==◌, if◌then◌else◌, Result, ok, err,
}
use ana.Registry.{trim_space, is_alias_char}

pub record RouteDirective : Type 0 where
  pub target_alias : Text
  pub payload : Text
  pub is_explicit : Bool
  pub raw_header : Text

pub data DirectiveError : Type 0 where
  invalid_route_directive : DirectiveError

-- `strings.ReplaceAll(body, "\r\n", "\n")`
unfoldable pub replace_crlf : Text → Text
replace_crlf [] = []
replace_crlf (c ∷ []) = c ∷ []
replace_crlf (c ∷ d ∷ s) =
    let short = replace_crlf s in
    let long = replace_crlf (d ∷ s) in if (c == 13) && (d == 10) then 10 ∷ short else c ∷ long

-- `strings.ReplaceAll(body, "\r", "\n")`
unfoldable pub replace_cr : Text → Text
replace_cr [] = []
replace_cr (c ∷ s) = (if c == 13 then 10 else c) ∷ replace_cr s

unfoldable pub normalize_line_endings : Text → Text
unfolding replace_crlf replace_cr
normalize_line_endings body = replace_cr (replace_crlf body)

abbrev pub on_first_line : ℕ → List Text → List Text
on_first_line c [] = (c ∷ []) ∷ []
on_first_line c (line ∷ lines) = (c ∷ line) ∷ lines

-- `strings.Split(normalized, "\n")`
unfoldable pub split_lines : Text → List Text
split_lines [] = [] ∷ []
split_lines (c ∷ s) =
    let lines = split_lines s in if c == 10 then [] ∷ lines else on_first_line c lines

-- `strings.Join(lines, "\n")`
unfoldable pub join_lines : List Text → Text
join_lines [] = []
join_lines (line ∷ []) = line
join_lines (line ∷ next ∷ lines) = line ++ 10 ∷ join_lines (next ∷ lines)

-- `strings.TrimSpace(line) != ""`
unfoldable pub has_content : Text → Bool
has_content line = elim (trim_space line) [ [] ↦ false | c ∷ s ↦ true ]

-- `firstNonEmptyLineIndex`: the line at the index, and the lines behind it
unfoldable pub first_non_empty_line : List Text → Option (Text × List Text)
unfolding has_content
first_non_empty_line [] = none
first_non_empty_line (line ∷ lines) =
    let rest = first_non_empty_line lines in if has_content line then some (line, lines) else rest

-- `\s`
abbrev pub is_regex_space : ℕ → Bool
is_regex_space c = (c == 32) || ((c == 9) || ((c == 10) || ((c == 12) || (c == 13))))

-- `\s*`
unfoldable pub skip_spaces : Text → Text
skip_spaces [] = []
skip_spaces (c ∷ s) = let rest = skip_spaces s in if is_regex_space c then rest else c ∷ s

-- `[A-Za-z0-9_-]*`, and what stands behind it
unfoldable pub take_alias : Text → Text × Text
take_alias [] = ([], [])
take_alias (c ∷ s) =
    let (alias, rest) = take_alias s in if is_alias_char c then (c ∷ alias, rest) else ([], c ∷ s)

-- `\}\s*(.*)$`, for an alias that was read
unfoldable pub after_alias : Text × Text → Option (Text × Text)
unfolding skip_spaces
after_alias (alias, []) = none
after_alias (alias, c ∷ rest) =
    if (c == 125) && (leb 1 (length alias) && leb (length alias) 64)
    then some (alias, skip_spaces rest)
    else none

-- `#([A-Za-z0-9_-]{1,64})\}\s*(.*)$`
unfoldable pub after_hash : Text → Option (Text × Text)
unfolding take_alias after_alias
after_hash [] = none
after_hash (c ∷ s) = if c == 35 then after_alias (take_alias s) else none

-- `\s+` and what follows
unfoldable pub after_to : Text → Option (Text × Text)
unfolding after_hash skip_spaces
after_to [] = none
after_to (c ∷ s) = if is_regex_space c then after_hash (skip_spaces s) else none

unfoldable pub after_brace : Text → Option (Text × Text)
unfolding after_to
after_brace (c ∷ d ∷ e ∷ s) = if (c == 123) && ((d == 116) && (e == 111)) then after_to s else none
after_brace _ = none

-- `routeDirectiveRE`: the alias and the rest of the line. No choice of the expression matters: what
-- follows a run of spaces or of alias characters is neither.
unfoldable pub match_directive : Text → Option (Text × Text)
unfolding after_brace
match_directive line = after_brace (skip_spaces line)

-- `unicode.ToLower`, as far as "{to" needs it: no other code point becomes one of these
abbrev pub to_lower : ℕ → ℕ
to_lower c = if leb 65 c && leb c 90 then c + 32 else c

-- `strings.TrimLeft(line, " \t\f")`
unfoldable pub trim_left_blanks : Text → Text
trim_left_blanks [] = []
trim_left_blanks (c ∷ s) =
    let rest = trim_left_blanks s in if (c == 32) || ((c == 9) || (c == 12)) then rest else c ∷ s

unfoldable pub ends_attempt : Text → Bool
ends_attempt [] = true
ends_attempt (c ∷ s) = (c == 32) || ((c == 9) || ((c == 12) || ((c == 35) || (c == 125))))

unfoldable pub begins_attempt : Text → Bool
unfolding ends_attempt
begins_attempt (c ∷ d ∷ e ∷ s) =
    (c == 123) && ((to_lower d == 116) && ((to_lower e == 111) && ends_attempt s))
begins_attempt _ = false

unfoldable pub appears_like_directive : Text → Bool
unfolding begins_attempt trim_left_blanks
appears_like_directive line = begins_attempt (trim_left_blanks line)

abbrev pub plain : Text → RouteDirective
plain body = record { target_alias = []; payload = body; is_explicit = false; raw_header = [] }

-- The payload of the header and the lines behind it.
unfoldable pub payload_of : Text → List Text → Text
unfolding join_lines
payload_of first [] = first
payload_of [] (line ∷ lines) = join_lines (line ∷ lines)
payload_of (c ∷ s) (line ∷ lines) = (c ∷ s) ++ 10 ∷ join_lines (line ∷ lines)

unfoldable pub read_header :
    Text → Text → List Text → Option (Text × Text) → Result DirectiveError RouteDirective
unfolding payload_of appears_like_directive
read_header body header lines none =
    if appears_like_directive header then err invalid_route_directive else ok (plain body)
read_header body header lines (some (alias, first)) = ok (record {
  target_alias = alias;
  payload = payload_of first lines;
  is_explicit = true;
  raw_header = header;
})

unfoldable pub parse_lines : Text → Option (Text × List Text) → Result DirectiveError RouteDirective
unfolding read_header match_directive
parse_lines body none = ok (plain body)
parse_lines body (some (header, lines)) = read_header body header lines (match_directive header)

unfoldable pub parse_directive : Text → Result DirectiveError RouteDirective
unfolding parse_lines normalize_line_endings split_lines first_non_empty_line
parse_directive body =
    parse_lines body (first_non_empty_line (split_lines (normalize_line_endings body)))

unfoldable pub format : Text → Text
format alias = codes "{to #" ++ alias ++ codes "}"
