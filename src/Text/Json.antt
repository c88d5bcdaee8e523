-- ===== src/Text/Json.antt =====
-- `json.dumps(d, ensure_ascii=False)` of a dict from texts to texts.
use npp_ai.Prelude.{ℕ, ◌/◌, ◌%◌, List, [], ◌∷◌, ◌++◌, ltb, ◌==◌, if◌then◌else◌}
use npp_ai.Text.{Text, codes}
use npp_ai.Text.Hex.{hex_digit}

-- One character inside the quotes: control characters, quotes and backslashes are escaped.
unfoldable pub escape_char : ℕ → Text
unfolding hex_digit
escape_char c =
    if c == 0x22
    then 0x5C ∷ 0x22 ∷ []
    else if c == 0x5C
    then 0x5C ∷ 0x5C ∷ []
    else if c == 10
    then 0x5C ∷ b'n' ∷ []
    else if c == 13
    then 0x5C ∷ b'r' ∷ []
    else if c == 9
    then 0x5C ∷ b't' ∷ []
    else if c == 12
    then 0x5C ∷ b'f' ∷ []
    else if c == 8
    then 0x5C ∷ b'b' ∷ []
    else if ltb c 0x20
    then 0x5C ∷ b'u' ∷ b'0' ∷ b'0' ∷ hex_digit (c / 16) ∷ hex_digit (c % 16) ∷ []
    else c ∷ []

unfoldable pub escape : Text → Text
unfolding escape_char
escape [] = []
escape (c ∷ s) = escape_char c ++ escape s

unfoldable pub quoted : Text → Text
unfolding escape
quoted s = 0x22 ∷ (escape s ++ (0x22 ∷ []))

unfoldable pub members : List (Text × Text) → Text
unfolding quoted
members [] = []
members ((key, value) ∷ []) = quoted key ++ (codes ": " ++ quoted value)
members ((key, value) ∷ (next ∷ rest)) =
    quoted key ++ (codes ": " ++ (quoted value ++ (codes ", " ++ members (next ∷ rest))))

unfoldable pub dumps : List (Text × Text) → Text
unfolding members
dumps entries = b'{' ∷ (members entries ++ (b'}' ∷ []))
