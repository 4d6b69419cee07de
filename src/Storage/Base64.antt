-- ===== src/Storage/Base64.antt =====
-- base64.RawStdEncoding of the standard library, as the listing's cursors use it.
use ana.Base.{
  ℕ, ◌+◌, ◌-◌, ◌*◌, ◌/◌, ◌%◌, ◌<◌, ◌≡◌, ◌≢◌, refl, false, ◌||◌, ◌&&◌, List, [], ◌∷◌, map, Option,
  none, some, arith, Text, IsBytes, codes, ltb, leb, ◌==◌, if◌then◌else◌,
}

-- A-Z, a-z, 0-9, + and /
unfoldable pub alphabet : ℕ → ℕ
alphabet n =
    if ltb n 26
    then n + 65
    else if ltb n 52
    then n + 71
    else if ltb n 62
    then n - 4
    else if n == 62
    then 43
    else 47

unfoldable pub alphabet_value : ℕ → Option ℕ
alphabet_value c =
    if leb 65 c && leb c 90
    then some (c - 65)
    else if leb 97 c && leb c 122
    then some (c - 71)
    else if leb 48 c && leb c 57
    then some (c + 4)
    else if c == 43
    then some 62
    else if c == 47
    then some 63
    else none

unfoldable pub sextets : Text → List ℕ
sextets [] = []
sextets (a ∷ []) = a / 4 ∷ a % 4 * 16 ∷ []
sextets (a ∷ b ∷ []) = a / 4 ∷ (a % 4 * 16 + b / 16) ∷ b % 16 * 4 ∷ []
sextets (a ∷ b ∷ c ∷ s) = a / 4 ∷ (a % 4 * 16 + b / 16) ∷ (b % 16 * 4 + c / 64) ∷ c % 64 ∷ sextets s

unfoldable pub encode_to_string : Text → Text
unfolding sextets alphabet
encode_to_string s = map alphabet (sextets s)

-- Line ends are skipped, and any other byte that is not in the alphabet is an error.
unfoldable pub read_sextets : Text → Option (List ℕ)
unfolding alphabet_value
read_sextets [] = some []
read_sextets (c ∷ s) =
    let rest = read_sextets s in
    if c == 10 || c == 13 then rest else elim (alphabet_value c) [
      | none ↦ none
      | some n ↦ elim rest [ none ↦ none | some ns ↦ some (n ∷ ns) ]
    ]

-- A last group of one digit is an error; the surplus bits of a last group are not looked at.
unfoldable pub join_sextets : List ℕ → Option Text
join_sextets [] = some []
join_sextets (a ∷ []) = none
join_sextets (a ∷ b ∷ []) = some ((a * 4 + b / 16) ∷ [])
join_sextets (a ∷ b ∷ c ∷ []) = some ((a * 4 + b / 16) ∷ (b % 16 * 16 + c / 4) ∷ [])
join_sextets (a ∷ b ∷ c ∷ d ∷ s) = elim (join_sextets s) [
  | none ↦ none
  | some t ↦ some ((a * 4 + b / 16) ∷ (b % 16 * 16 + c / 4) ∷ (c % 4 * 64 + d) ∷ t)
]

unfoldable pub decode_string : Text → Option Text
unfolding read_sextets join_sextets
decode_string s = elim (read_sextets s) [ none ↦ none | some ns ↦ join_sextets ns ]

abbrev AllSextets : List ℕ → Type 0
AllSextets [] = Unit
AllSextets (n ∷ ns) = (n < 64) × AllSextets ns

sextets-AllSextets : (s : Text) → IsBytes s → AllSextets (sextets s)
unfolding sextets
sextets-AllSextets [] h = tt
sextets-AllSextets (a ∷ []) h = omega arith
sextets-AllSextets (a ∷ b ∷ []) h = omega arith
sextets-AllSextets (a ∷ b ∷ c ∷ s) h =
    (omega arith, (omega arith, (omega arith, (omega arith, sextets-AllSextets s h.1.1.1))))

alphabet_value-alphabet : (n : ℕ) → n < 64 → alphabet_value (alphabet n) ≡ some n
unfolding alphabet_value alphabet
alphabet_value-alphabet n h = ground arith

alphabet_ne : (n : ℕ) → (alphabet n == 10 || alphabet n == 13) ≡ false
unfolding alphabet
alphabet_ne n = ground arith

read_sextets-map : (ns : List ℕ) → AllSextets ns → read_sextets (map alphabet ns) ≡ some ns
unfolding read_sextets
read_sextets-map [] h = refl
read_sextets-map (n ∷ ns) h =
    ground (arith, alphabet_ne n, alphabet_value-alphabet n h.0, read_sextets-map ns h.1)

join_sextets-sextets : (s : Text) → IsBytes s → join_sextets (sextets s) ≡ some s
unfolding join_sextets sextets
join_sextets-sextets [] h = refl
join_sextets-sextets (a ∷ []) h = ground arith
join_sextets-sextets (a ∷ b ∷ []) h = ground arith
join_sextets-sextets (a ∷ b ∷ c ∷ s) h = ground (arith, join_sextets-sextets s h.1.1.1)

-- Decoding an encoded byte string gives it back.
pub decode_string-encode_to_string :
    (s : Text) → IsBytes s → decode_string (encode_to_string s) ≡ some s
unfolding decode_string encode_to_string
decode_string-encode_to_string s h =
    ground (arith, read_sextets-map (sextets s) (sextets-AllSextets s h), join_sextets-sextets s h)

pub encode_to_string_ne : (s : Text) → s ≢ [] → encode_to_string s ≢ []
unfolding encode_to_string
encode_to_string_ne [] h = absurd (h refl)
encode_to_string_ne (a ∷ []) h = λ e. cc
encode_to_string_ne (a ∷ b ∷ []) h = λ e. cc
encode_to_string_ne (a ∷ b ∷ c ∷ s) h = λ e. cc

encode_test : encode_to_string (codes "hello") ≡ codes "aGVsbG8"
unfolding encode_to_string
encode_test = refl

decode_test : decode_string (codes "aGVsbG8") ≡ some (codes "hello")
unfolding decode_string
decode_test = refl
