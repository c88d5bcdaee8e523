-- ===== src/Text/Edit.antt =====
-- `str.strip`, `str.replace` and a slice of the last characters.
use npp_ai.Prelude.{ℕ, zero, suc, ◌-◌, [], ◌∷◌, ◌++◌, length, drop, if◌then◌else◌}
use npp_ai.Text.{Text, is_space, starts_with}

unfoldable pub lstrip : Text → Text
lstrip [] = []
lstrip (c ∷ s) = let rest = lstrip s in if is_space c then rest else c ∷ s

unfoldable pub reverse : Text → Text
reverse [] = []
reverse (c ∷ s) = reverse s ++ (c ∷ [])

unfoldable pub strip : Text → Text
unfolding lstrip reverse
strip s = reverse (lstrip (reverse (lstrip s)))

-- `s.replace(old, new)` for an `old` that is not empty: the characters of an occurrence that are
-- still to be left out are counted.
unfoldable pub replace_from : ℕ → Text → Text → Text → Text
replace_from (suc skip) old new [] = []
replace_from (suc skip) old new (c ∷ s) = replace_from skip old new s
replace_from zero old new [] = []
replace_from zero old new (c ∷ s) =
    let inside = new ++ replace_from (length old - 1) old new s in
    let outside = c ∷ replace_from zero old new s in
    if starts_with (c ∷ s) old then inside else outside

unfoldable pub replace : Text → Text → Text → Text
unfolding replace_from
replace old new s = replace_from zero old new s

-- `s[-n:]` for a positive n.
abbrev pub last_part : ℕ → Text → Text
last_part n s = drop (length s - n) s
