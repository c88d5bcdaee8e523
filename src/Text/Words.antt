-- ===== src/Text/Words.antt =====
-- Reading numbers from the lines of a text file: `for line in f`, `line.split()` and `int(word)`.
use npp_ai.Prelude.{
  ℕ, ◌+◌, ◌-◌, ◌*◌, Bool, true, false, ◌&&◌, Option, none, some, List, [], ◌∷◌, ◌++◌, leb, ◌==◌,
  if◌then◌else◌,
}
use npp_ai.Python.Int.{ℤ, pos, negsuc}
use npp_ai.Text.{Text, is_space}
pub mod Laws

-- The next character belongs to the first of the pieces behind it.
unfoldable pub onto_first : ℕ → List Text → List Text
onto_first c [] = (c ∷ []) ∷ []
onto_first c (l ∷ ls) = (c ∷ l) ∷ ls

-- `for line in f`: each line with its newline, which the last may lack. The text is the one that
-- the text mode gives, with every newline as "\n".
unfoldable pub file_lines : Text → List Text
unfolding onto_first
file_lines [] = []
file_lines (c ∷ s) =
    let rest = file_lines s in if c == 10 then (10 ∷ []) ∷ rest else onto_first c rest

-- The text starts with white space, or ends.
unfoldable pub at_gap : Text → Bool
unfolding is_space
at_gap [] = true
at_gap (c ∷ s) = is_space c

-- `s.split()`
unfoldable pub split : Text → List Text
unfolding onto_first at_gap is_space
split [] = []
split (c ∷ s) =
    let rest = split s in
    if is_space c then rest else if at_gap s then (c ∷ []) ∷ rest else onto_first c rest

unfoldable pub is_digit : ℕ → Bool
is_digit c = leb 48 c && leb c 57

-- The digits of `int(word)`: underscores stand between two of them. (The digits of other scripts,
-- which `int` reads too, are left out.)
unfoldable pub scan : ℕ → Bool → Text → Option ℕ
unfolding is_digit
scan value behind_digit [] = if behind_digit then some value else none
scan value behind_digit (c ∷ s) = elim (is_digit c) [
  | true ↦ scan (value * 10 + (c - 48)) true s
  | false ↦ elim (behind_digit && c == 95) [ true ↦ scan value false s | false ↦ none ]
]

unfoldable pub negated : ℕ → ℤ
negated ℕ.zero = pos 0
negated (ℕ.suc n) = negsuc n

unfoldable pub signed : (ℕ → ℤ) → Option ℕ → Option ℤ
signed f none = none
signed f (some n) = some (f n)

-- `int(word)` for a word without white space; none is the ValueError.
unfoldable pub int : Text → Option ℤ
unfolding scan signed negated
int [] = none
int (c ∷ s) =
    if c == 43
    then signed pos (scan 0 false s)
    else if c == 45
    then signed negated (scan 0 false s)
    else signed pos (scan 0 false (c ∷ s))
