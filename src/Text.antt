-- ===== src/Text.antt =====
-- Python's `str` and `bytes`: a text is the list of its code points, a byte string the list of
-- its bytes. `==`, `str.strip` as a truth value, `str.startswith`, and the children for UTF-8.
pub mod Utf8
pub mod Laws
pub mod Json
pub mod Hex
pub mod Decimal
pub mod Words
pub mod Edit
use Prim.Native.Char.{code}
use Prim.Native.String.{String}
use npp_ai.Prelude.{ℕ, ◌≡◌, Bool, true, false, not, ◌&&◌, ◌||◌, List, [], ◌∷◌, leb, all, ◌==◌}

abbrev pub Text : Type 0
Text = List ℕ

abbrev pub Bytes : Type 0
Bytes = List ℕ

-- The code points of a literal.
abbrev pub codes : String → Text
codes String.[] = []
codes (String.◌∷◌ c s) = code c ∷ codes s

-- `a == b` for texts and for byte strings.
unfoldable pub text_eq : List ℕ → List ℕ → Bool
text_eq [] [] = true
text_eq [] (b ∷ bs) = false
text_eq (a ∷ as') [] = false
text_eq (a ∷ as') (b ∷ bs) = a == b && text_eq as' bs

-- `str.isspace` of one character.
unfoldable pub is_space : ℕ → Bool
is_space c =
    (leb 9 c && leb c 13)
    || (leb 28 c && leb c 32)
    || c == 0x85
    || c == 0xA0
    || c == 0x1680
    || (leb 0x2000 c && leb c 0x200A)
    || c == 0x2028
    || c == 0x2029
    || c == 0x202F
    || c == 0x205F
    || c == 0x3000

-- `not s.strip()`: nothing is left when the white space is stripped from both ends.
unfoldable pub is_blank : Text → Bool
is_blank = all is_space

-- The truth value of a text, `if s:`.
abbrev pub nonempty : List ℕ → Bool
nonempty [] = false
nonempty (c ∷ s) = true

-- `s.startswith(p)`.
unfoldable pub starts_with : List ℕ → List ℕ → Bool
starts_with s [] = true
starts_with [] (c ∷ p) = false
starts_with (d ∷ s) (c ∷ p) = c == d && starts_with s p

-- A byte, and a byte string of such.
abbrev pub IsBytes : Bytes → Type 0
IsBytes bs = all (λ b. leb b 255) bs ≡ true
