-- ===== src/Training/Records.antt =====
-- The records of a dataset and their frame: `frame`, `alias` and `rename` of
-- scripts/resampled_name_training.py.
use npp_ai.Prelude.{
  ℕ, zero, suc, ◌-◌, Bool, false, not, ◌&&◌, ◌||◌, List, [], ◌∷◌, ◌++◌, length, take, drop, map,
  any, ltb, ◌==◌, if◌then◌else◌,
}
use npp_ai.Text.{Text, Bytes, codes, text_eq, starts_with}
use npp_ai.Text.Utf8.{encode}
use npp_ai.Text.Hex.{hexdigest}
use npp_ai.Python.Exceptions.{Result, ok, value_error, require, ◌>>=◌, ◌>>◌}

pub record Record : Type 0 where
  pub id : Text
  pub function : Text
  pub prompt : Text
  pub answer : Text

unfoldable pub framed : Text → Bytes
framed prompt = encode (codes "[USER]: " ++ (prompt ++ (10 ∷ codes "[AI]:" ++ (10 ∷ []))))

-- `(prefix, raw)`: the reference is never cut.
unfoldable pub frame : Record → Result (Bytes × Bytes)
unfolding framed
frame row = do
  let prefix = framed row.prompt
  let body = prefix ++ encode row.answer
  let raw = body ++ (0 ∷ [])
  require (not (any (λ b. b == 0) body || ltb 256 (length raw)))
      (value_error "invalid or overflowing reference frame")
  ok (prefix, raw)

-- A token of `tokenize`: is it a name, its string, and what else `untokenize` reads.
pub record Lexer : Type 1 where
  pub Place : Type 0
  pub tokens_of : Text → Result (List (Bool × Text × Place))
  pub untokenize : List (Bool × Text × Place) → Text
  -- `\w`
  pub is_word : ℕ → Bool

module _ (sha256 : Bytes → Bytes) where
  unfoldable pub alias : Text → Text → Text
  alias key prefix = prefix ++ take 8 (hexdigest (sha256 (encode key)))

module _ (lexer : Lexer) where
  -- Is a character of a word here? No, before the text and behind it.
  abbrev pub word_first : Text → Bool
  word_first [] = false
  word_first (c ∷ s) = lexer.is_word c

  abbrev pub word_last : Bool → Text → Bool
  word_last before [] = before
  word_last before (c ∷ s) = word_last (lexer.is_word c) s

  -- `\b`, between what is before and the text behind.
  abbrev pub boundary : Bool → Text → Bool
  boundary before s = if before then not (word_first s) else word_first s

  -- `re.sub(r'\b' + re.escape(old) + r'\b', name, …)` for an `old` that is not empty: the characters
  -- of an occurrence that are still to be left out are counted.
  unfoldable pub sub_from : ℕ → Bool → Text → Text → Text → Text
  sub_from (suc skip) before old name [] = []
  sub_from (suc skip) before old name (c ∷ s) = sub_from skip (lexer.is_word c) old name s
  sub_from zero before old name [] = []
  sub_from zero before old name (c ∷ s) =
      let here = c ∷ s in
      let inside = name ++ sub_from (length old - 1) (lexer.is_word c) old name s in
      let outside = c ∷ sub_from zero (lexer.is_word c) old name s in
      if boundary before here
        && starts_with here old
        && boundary (word_last before old) (drop (length old) here)
      then inside
      else outside

  unfoldable pub rename_token : Text → Text → Bool × Text × lexer.Place → Bool × Text × lexer.Place
  rename_token old name (is_name, string, place) =
      (is_name, (if is_name && text_eq string old then name else string), place)

  unfoldable pub rename : Record → Text → Result Record
  unfolding sub_from rename_token
  rename row name = do
    let old = row.function
    tokens ← lexer.tokens_of row.answer
    let answer = lexer.untokenize (map (rename_token old name) tokens)
    let prompt = sub_from 0 false old name row.prompt
    require
        (not (text_eq prompt row.prompt)
          && starts_with answer (codes "def " ++ (name ++ codes "(")))
        (value_error "function transformation failed")
    let result : Record = record { id = row.id; function = name; prompt = prompt; answer = answer }
    checked ← frame result
    ok result
