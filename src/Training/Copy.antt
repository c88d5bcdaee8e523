-- ===== src/Training/Copy.antt =====
-- The copying of a name from the prompt: `alignment` of scripts/aligned_name_copy.py, and
-- `source_bounds` and `generate` of scripts/gated_copy_model.py.
use npp_ai.Prelude.{
  ℕ, zero, suc, ◌+◌, ◌-◌, Bool, true, false, not, ◌&&◌, List, [], ◌∷◌, ◌++◌, length, take, drop,
  any, ltb, leb, ◌==◌, if◌then◌else◌,
}
use npp_ai.Text.{Text, Bytes, codes, starts_with, is_space}
use npp_ai.Text.Edit.{last_part}
use npp_ai.Text.Utf8.{encode, decode}
use npp_ai.Python.Exceptions.{Result, ok, err, value_error, other_exception, require, ◌>>=◌, ◌>>◌}
use npp_ai.Training.Records.{Record, framed, frame}

-- `xs[i]`, where an index outside the sequence is an error.
unfoldable pub item : Bytes → ℕ → Result ℕ
item [] i = err (other_exception "IndexError")
item (x ∷ xs) zero = ok x
item (x ∷ xs) (suc i) = item xs i

-- `(?=\s*\()`
unfoldable pub opens : Text → Bool
opens [] = false
opens (c ∷ s) = let rest = opens s in if c == 40 then true else (is_space c && rest)

-- The starts of the matches of `(?<!\w)` name `(?=\s*\()`: what is left of a match is skipped.
unfoldable pub matches_from : (ℕ → Bool) → ℕ → Bool → ℕ → Text → Text → List ℕ
unfolding opens
matches_from is_word (suc skip) before start name [] = []
matches_from is_word (suc skip) before start name (c ∷ s) =
    matches_from is_word skip (is_word c) (start + 1) name s
matches_from is_word zero before start name [] = []
matches_from is_word zero before start name (c ∷ s) =
    let inside = start ∷ matches_from is_word (length name - 1) (is_word c) (start + 1) name s in
    let outside = matches_from is_word zero (is_word c) (start + 1) name s in
    if not before && starts_with (c ∷ s) name && opens (drop (length name) (c ∷ s))
    then inside
    else outside

-- `len(matches) != 1`
unfoldable pub only_match : List ℕ → Result ℕ
only_match (start ∷ []) = ok start
only_match _ = err (value_error "requires one explicit matching function signature")

-- `[(query + i, source + i) for i in range(len(target))]`
unfoldable pub pairs_from : ℕ → ℕ → ℕ → List (ℕ × ℕ)
pairs_from query source zero = []
pairs_from query source (suc n) = (query, source) ∷ pairs_from (query + 1) (source + 1) n

unfoldable pub check_pairs : Bytes → List (ℕ × ℕ) → Result (Unit {0})
unfolding item
check_pairs raw [] = ok tt
check_pairs raw ((query, source) ∷ rest) = do
  require (ltb source query) (value_error "source/target byte alignment differs")
  from ← item raw source
  to ← item raw (query + 1)
  require (from == to) (value_error "source/target byte alignment differs")
  check_pairs raw rest

unfoldable pub alignment : (ℕ → Bool) → Record → Result (List (ℕ × ℕ))
unfolding matches_from only_match pairs_from check_pairs
alignment is_word row = do
  (prefix, raw) ← frame row
  let name = row.function
  let target = encode name
  start ← only_match (matches_from is_word 0 false 0 name row.prompt)
  require (starts_with row.answer (codes "def " ++ (name ++ codes "(")))
      (value_error "requires one explicit matching function signature")
  let source = 8 + length (encode (take start row.prompt))
  let query = (length prefix - 1) + 4
  let pairs = pairs_from query source (length target)
  check_pairs raw pairs
  ok pairs

-- The positions of the prompt in its frame, from the first to the one behind the last.
unfoldable pub source_bounds : Text → Result (ℕ × ℕ)
source_bounds prompt = do
  require (not (any (λ c. c == 0) prompt)) (value_error "NUL in prompt")
  ok (8, 8 + length (encode prompt))

-- `[left <= i < right for i in range(n)]`, from `i`.
unfoldable pub mask_from : ℕ → ℕ → ℕ → ℕ → List Bool
mask_from left right i zero = []
mask_from left right i (suc n) = (leb left i && ltb i right) ∷ mask_from left right (i + 1) n

abbrev pub last_marks : ℕ → List Bool → List Bool
last_marks n marks = drop (length marks - n) marks

-- A gated model: its context and the token of the largest output at the last position, for tokens
-- and the marks of those that may be copied.
module _ (width : ℕ) (largest : List ℕ → List Bool → ℕ) where
  -- The loop over `range(budget)`.
  unfoldable pub generate_loop : ℕ → List ℕ → List Bool → Bytes → Bytes
  generate_loop zero tokens mask output = output
  generate_loop (suc rounds) tokens mask output =
      let token = largest (last_part width tokens) (last_marks width mask) in
      let rest =
        generate_loop rounds (tokens ++ (token ∷ [])) (mask ++ (false ∷ []))
          (output ++ (token ∷ [])) in
      if token == 0 then output else rest

  unfoldable pub generate : Text → Text → ℕ → Result Text
  unfolding generate_loop mask_from source_bounds framed
  generate prompt prefix budget = do
    let tokens = framed prompt ++ encode prefix
    require (not (ltb width (length tokens))) (value_error "prompt exceeds context")
    (left, right) ← source_bounds prompt
    ok (
        decode
          (generate_loop budget tokens (mask_from left right 0 (length tokens)) (encode prefix)))
