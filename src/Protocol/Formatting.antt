-- ===== src/Protocol/Formatting.antt =====
-- pkg/orchestrator/protocol/protocol.go: a directive that Format writes is read back.
use mathlib.Core.List.{append_assoc}
use ana.Base.{
  ℕ, ◌≡◌, ◌≢◌, ◌≤◌, refl, subst, ap, ◌∙◌, true, false, some, List, [], ◌∷◌, ◌++◌, Text, length, ok,
  arith, ℕ_discrete,
}
use ana.Registry.{trim_space, trim_left, trim_right, is_space, is_alias_char}
use ana.Protocol.{
  replace_crlf, replace_cr, normalize_line_endings, split_lines, join_lines, has_content,
  first_non_empty_line, is_regex_space, skip_spaces, take_alias, after_alias, after_hash, after_to,
  after_brace, match_directive, payload_of, read_header, parse_lines, parse_directive, format,
}

-- No carriage return.
abbrev pub HasNoReturn : Text → Type 0
HasNoReturn [] = Unit
HasNoReturn (c ∷ s) = (c ≢ 13) × HasNoReturn s

abbrev pub AllAliasChars : Text → Type 0
AllAliasChars [] = Unit
AllAliasChars (c ∷ s) = (is_alias_char c ≡ true) × AllAliasChars s

-- The payload does not begin with a space or the end of a line.
abbrev pub HasNoLeadingSpace : Text → Type 0
HasNoLeadingSpace [] = Unit
HasNoLeadingSpace (c ∷ s) = is_regex_space c ≡ false

replace_crlf_lem : (s : Text) → HasNoReturn s → replace_crlf s ≡ s
unfolding replace_crlf
replace_crlf_lem [] h = refl
replace_crlf_lem (c ∷ []) h = refl
replace_crlf_lem (c ∷ d ∷ s) h = ground (arith, replace_crlf_lem (d ∷ s) h.1)

replace_cr_lem : (s : Text) → HasNoReturn s → replace_cr s ≡ s
unfolding replace_cr
replace_cr_lem [] h = refl
replace_cr_lem (c ∷ s) h = ground (arith, replace_cr_lem s h.1)

normalize_line_endings_lem : (s : Text) → HasNoReturn s → normalize_line_endings s ≡ s
unfolding normalize_line_endings
normalize_line_endings_lem s h = ground (arith, replace_crlf_lem s h, replace_cr_lem s h)

alias_char_lem : (c : ℕ) → is_alias_char c ≡ true → (c ≢ 10) × (c ≢ 13)
unfolding is_alias_char
alias_char_lem c h = ground arith

HasNoReturn-append : (a s : Text) → AllAliasChars a → HasNoReturn s → HasNoReturn (a ++ s)
HasNoReturn-append [] s h k = k
HasNoReturn-append (c ∷ a) s h k = ((alias_char_lem c h.0).1, HasNoReturn-append a s h.1 k)

split_lines_cons : (s : Text) → (line : Text) × (lines : List Text) × (split_lines s ≡ line ∷ lines)
unfolding split_lines
split_lines_cons [] = ([], [], refl)
split_lines_cons (c ∷ s) =
    let (line, lines, e) = split_lines_cons s in
    elim (ℕ_discrete c 10) [
      | yes new ↦ ([], line ∷ lines, ground (arith, e, new))
      | no other ↦ (c ∷ line, lines, ground (arith, e, other))
    ]

join_lines-on_first_line :
    (c : ℕ) (line : Text) (lines : List Text)
    → join_lines ((c ∷ line) ∷ lines) ≡ c ∷ join_lines (line ∷ lines)
unfolding join_lines
join_lines-on_first_line c line [] = refl
join_lines-on_first_line c line (next ∷ lines) = refl

join_lines-split_lines :
    (s line : Text) (lines : List Text)
    → split_lines s ≡ line ∷ lines
    → join_lines (line ∷ lines) ≡ s
unfolding split_lines join_lines
join_lines-split_lines [] line lines e = ground (arith, e)
join_lines-split_lines (c ∷ s) line lines e =
    let (first, others, inner) = split_lines_cons s in
    let below = join_lines-split_lines s first others inner in
    elim (ℕ_discrete c 10) [
      | yes new ↦ ground (arith, e, new, inner, below)
      | no other ↦ ground (arith, e, other, inner, below, join_lines-on_first_line c first others)
    ]

split_lines-append :
    (a s line : Text) (lines : List Text)
    → AllAliasChars a
    → split_lines s ≡ line ∷ lines
    → split_lines (a ++ s) ≡ (a ++ line) ∷ lines
unfolding split_lines
split_lines-append [] s line lines h e = e
split_lines-append (c ∷ a) s line lines h e =
    ground (arith, split_lines-append a s line lines h.1 e, alias_char_lem c h.0)

take_alias_lem : (a s : Text) → AllAliasChars a → take_alias (a ++ 125 ∷ s) ≡ (a, 125 ∷ s)
unfolding take_alias is_alias_char
take_alias_lem [] s h = ground arith
take_alias_lem (c ∷ a) s h = ground (arith, take_alias_lem a s h.1)

skip_spaces_lem : (s : Text) → HasNoLeadingSpace s → skip_spaces s ≡ s
unfolding skip_spaces
skip_spaces_lem [] h = refl
skip_spaces_lem (c ∷ s) h = ground arith

brace_has_content : (s : Text) → has_content (123 ∷ s) ≡ true
unfolding has_content trim_space trim_left trim_right is_space
brace_has_content s = ground arith

-- The line that a directive makes of the first line behind it.
abbrev pub header_of : Text → Text → Text
header_of alias line = 123 ∷ 116 ∷ 111 ∷ 32 ∷ 35 ∷ (alias ++ 125 ∷ 32 ∷ line)

format_lem : (alias p : Text) → format alias ++ 32 ∷ p ≡ header_of alias p
unfolding format
format_lem alias p =
    ap (λ (rest : Text). 123 ∷ 116 ∷ 111 ∷ 32 ∷ 35 ∷ rest) (append_assoc alias (125 ∷ []) (32 ∷ p))

split_header :
    (alias p line : Text) (lines : List Text)
    → AllAliasChars alias
    → split_lines p ≡ line ∷ lines
    → split_lines (header_of alias p) ≡ header_of alias line ∷ lines
split_header alias p line lines h e =
    let tail : split_lines (125 ∷ 32 ∷ p) ≡ (125 ∷ 32 ∷ line) ∷ lines =
      unfold split_lines in ground (arith, e) in
    let rest = split_lines-append alias (125 ∷ 32 ∷ p) (125 ∷ 32 ∷ line) lines h tail in
    unfold split_lines in ground (arith, rest)

match_header :
    (alias line : Text)
    → AllAliasChars alias
    → 1 ≤ length alias
    → length alias ≤ 64
    → match_directive (header_of alias line) ≡ some (alias, skip_spaces line)
unfolding match_directive after_brace after_to after_hash after_alias skip_spaces
match_header alias line h low high = ground (arith, take_alias_lem alias (32 ∷ line) h)

-- The first line of a payload begins like the payload.
line_begins :
    (p line : Text) (lines : List Text)
    → HasNoLeadingSpace p
    → split_lines p ≡ line ∷ lines
    → HasNoLeadingSpace line
unfolding split_lines
line_begins [] line lines h e =
    let same : [] ≡ line = ground (arith, e) in subst HasNoLeadingSpace same tt
line_begins (c ∷ s) line lines h e =
    let (first, others, inner) = split_lines_cons s in
    let same : c ∷ first ≡ line = ground (arith, e, inner, h) in subst HasNoLeadingSpace same h

-- An empty first line stands for an empty payload only.
nothing_split :
    (p : Text) (lines : List Text) → HasNoLeadingSpace p → split_lines p ≡ [] ∷ lines → lines ≡ []
unfolding split_lines
nothing_split [] lines h e = cc
nothing_split (c ∷ s) lines h e =
    let (first, others, inner) = split_lines_cons s in absurd (ground (arith, e, inner, h))

payload_of_line :
    (line : Text) (lines : List Text)
    → HasNoLeadingSpace line
    → (line ≡ [] → lines ≡ [])
    → payload_of (skip_spaces line) lines ≡ join_lines (line ∷ lines)
unfolding payload_of join_lines skip_spaces
payload_of_line [] [] h k = refl
payload_of_line [] (next ∷ lines) h k = absurd (cc (k refl))
payload_of_line (c ∷ s) [] h k = ground arith
payload_of_line (c ∷ s) (next ∷ lines) h k = ground arith

payload_lem :
    (p line : Text) (lines : List Text)
    → HasNoLeadingSpace p
    → split_lines p ≡ line ∷ lines
    → payload_of (skip_spaces line) lines ≡ p
payload_lem p line lines h e =
    payload_of_line line lines (line_begins p line lines h e)
      (λ none_left. ground (arith, e, nothing_split p lines, none_left))
    ∙ join_lines-split_lines p line lines e

HasNoReturn-header_of :
    (alias p : Text) → AllAliasChars alias → HasNoReturn p → HasNoReturn (header_of alias p)
HasNoReturn-header_of alias p h k =
    let rest = HasNoReturn-append alias (125 ∷ 32 ∷ p) h ((ground arith), ((ground arith), k)) in
    ((ground arith), ((ground arith), ((ground arith), ((ground arith), ((ground arith), rest)))))

parse_header :
    (alias p line : Text) (lines : List Text)
    → AllAliasChars alias
    → 1 ≤ length alias
    → length alias ≤ 64
    → HasNoReturn p
    → HasNoLeadingSpace p
    → split_lines p ≡ line ∷ lines
    → parse_directive (header_of alias p)
      ≡ ok (record {
        target_alias = alias;
        payload = p;
        is_explicit = true;
        raw_header = header_of alias line;
      })
unfolding parse_directive parse_lines read_header first_non_empty_line
parse_header alias p line lines h low high k lead e = ground (
  arith,
  normalize_line_endings_lem (header_of alias p) (HasNoReturn-header_of alias p h k),
  split_header alias p line lines h e,
  brace_has_content (116 ∷ 111 ∷ 32 ∷ 35 ∷ (alias ++ 125 ∷ 32 ∷ line)),
  match_header alias line h low high,
  payload_lem p line lines lead e,
)

-- The header that Format writes for an alias of 1 to 64 alias characters, a space and a payload of any
-- number of lines are parsed as an explicit directive to that alias with that payload, if the payload
-- has no carriage return and does not begin with a space or an empty line.
pub parse_directive-format :
    (alias payload : Text)
    → AllAliasChars alias
    → 1 ≤ length alias
    → length alias ≤ 64
    → HasNoReturn payload
    → HasNoLeadingSpace payload
    → (header : Text) × (parse_directive (format alias ++ 32 ∷ payload)
        ≡ ok (record {
          target_alias = alias;
          payload = payload;
          is_explicit = true;
          raw_header = header;
        }))
parse_directive-format alias payload h low high k lead =
    let (line, lines, e) = split_lines_cons payload in
    (
      header_of alias line,
      ap parse_directive (format_lem alias payload)
          ∙ parse_header alias payload line lines h low high k lead e,
    )
