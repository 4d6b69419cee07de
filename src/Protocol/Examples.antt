-- ===== src/Protocol/Examples.antt =====
-- Directives: the round trip at a payload of two lines, a wrong one and plain text.
use ana.Base.{◌≡◌, refl, true, Text, codes, ◌∷◌, ◌++◌, ok, err, arith}
use ana.Registry.{is_alias_char, trim_space}
use ana.Protocol.{parse_directive, format, plain, invalid_route_directive}
use ana.Protocol.Formatting.{parse_directive-format}

abbrev two_lines : Text
two_lines = codes "hi" ++ 10 ∷ codes "there"

parse_directive-format_example :
    (header : Text) × (parse_directive (format (codes "a-1") ++ 32 ∷ two_lines)
      ≡ ok (record {
        target_alias = codes "a-1";
        payload = two_lines;
        is_explicit = true;
        raw_header = header;
      }))
parse_directive-format_example =
    parse_directive-format (codes "a-1") two_lines
      (unfold is_alias_char in (refl, (refl, (refl, tt)))) (omega arith) (omega arith) (omega arith)
      refl

-- A salutation without an alias is an error, and a word that begins like one is plain text.
no_alias : parse_directive (codes "{TO }") ≡ err invalid_route_directive
unfolding parse_directive trim_space
no_alias = refl

plain_text : parse_directive (codes "{today}") ≡ ok (plain (codes "{today}"))
unfolding parse_directive trim_space
plain_text = refl
