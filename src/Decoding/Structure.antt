-- ===== src/Decoding/Structure.antt =====
-- `declaration` and `acceptable` of python_function_decoding.py, over what `ast.parse` and
-- `symtable.symtable` give.
use npp_ai.Prelude.{
  Bool, true, false, not, ◌&&◌, ◌||◌, Option, none, some, List, [], ◌∷◌, ◌++◌, all, any,
  if◌then◌else◌,
}
use npp_ai.Text.{Text, codes, text_eq, nonempty}
use npp_ai.Python.Exceptions.{Exception, Result, ok, err, other_exception}
use npp_ai.Protocol.{GenerationRequest}

-- A statement of a function's body: `return` with a value, or any other.
pub data BodyStatement : Type 0 where
  return_value other_statement : BodyStatement

-- A statement of a module: a function with its name, `ast.dump` of its arguments and its body; an
-- import; or any other.
pub data Statement : Type 0 where
  function_def : Text → Text → List BodyStatement → Statement
  import_statement : Statement
  other : Statement

-- What `ast.parse` comes to; ValueError and RecursionError are failures of the parser itself.
pub data Parsed : Type 0 where
  parsed : List Statement → Parsed
  syntax_error : Parsed
  parser_failure : Exception → Parsed

pub record Symbol : Type 0 where
  pub name : Text
  pub is_referenced : Bool
  pub is_global : Bool

mutual
  pub data Table : Type 0 where
    table : List Symbol → Tables → Table

  pub data Tables : Type 0 where
    no_tables : Tables
    child : Table → Tables → Tables

-- `symtable.symtable` gives none where it raises an exception that is caught.
pub record Language : Type 0 where
  pub parse : Text → Parsed
  pub symbols : Text → Option Table
  pub builtins : List Text
  -- `re.findall` of the signatures in a prompt.
  pub signatures : Text → List Text

-- A function's name and the dump of its arguments.
abbrev pub Signature : Type 0
Signature = Text × Text

abbrev pub contains : List Text → Text → Bool
contains names name = any (text_eq name) names

unfoldable pub names_of : List Symbol → List Text
names_of [] = []
names_of (s ∷ symbols) = s.name ∷ names_of symbols

-- `not s.is_referenced() or not s.is_global() or s.get_name() in allowed`
unfoldable pub is_allowed : List Text → Symbol → Bool
is_allowed allowed s = not s.is_referenced || not s.is_global || contains allowed s.name

unfoldable mutual
  unfolding is_allowed

  pub bound : List Text → Table → Bool
  bound allowed (table symbols children) =
      all (is_allowed allowed) symbols && all_bound allowed children

  pub all_bound : List Text → Tables → Bool
  all_bound allowed no_tables = true
  all_bound allowed (child t rest) = bound allowed t && all_bound allowed rest

-- `[n for n in tree.body if isinstance(n, ast.FunctionDef)]`
unfoldable pub functions_of : List Statement → List (Signature × List BodyStatement)
functions_of [] = []
functions_of (function_def name args body ∷ rest) = ((name, args), body) ∷ functions_of rest
functions_of (import_statement ∷ rest) = functions_of rest
functions_of (other ∷ rest) = functions_of rest

unfoldable pub is_plain : Statement → Bool
is_plain (function_def name args body) = true
is_plain import_statement = true
is_plain other = false

-- `signature and (f.name, ast.dump(f.args)) != signature`
unfoldable pub matches : Option Signature → Signature → Bool
matches none found = true
matches (some (name, args)) (name', args') = text_eq name' name && text_eq args' args

unfoldable pub one_function : Option Signature → List (Signature × List BodyStatement) → Bool
unfolding matches
one_function signature ((found, body) ∷ []) = matches signature found
one_function signature _ = false

unfoldable pub symbols_bound : List Text → Option Table → Bool
unfolding names_of bound
symbols_bound builtins none = false
symbols_bound builtins (some (table symbols children)) =
    bound (builtins ++ names_of symbols) (table symbols children)

module _ (lang : Language) where
  -- The tests of a parsed module.
  unfoldable pub acceptable_tree : Text → Option Signature → Parsed → Bool
  unfolding one_function symbols_bound
  acceptable_tree code signature (parsed body) =
      one_function signature (functions_of body)
      && all is_plain body
      && symbols_bound lang.builtins (lang.symbols code)
  acceptable_tree code signature _ = false

  unfoldable pub acceptable : Text → Option Signature → Bool
  acceptable code signature = acceptable_tree code signature (lang.parse code)

  -- What `header` declares: a header that is not one function is given up, and an empty module
  -- has no `tree.body[0]`.
  unfoldable pub declared : Text → Text → Parsed → Result (Text × Option Signature)
  declared prefix header (parsed []) = err (other_exception "IndexError")
  declared prefix header (parsed (function_def name args body ∷ [])) =
      ok (header, some (name, args))
  declared prefix header (parsed _) = ok (prefix, none)
  declared prefix header syntax_error = ok (prefix, none)
  declared prefix header (parser_failure e) = err e

  abbrev pub header_of : Text → Text
  header_of signature = codes "def " ++ (signature ++ (codes ":" ++ (10 ∷ codes "    ")))

  -- `len(set(signatures)) != 1` and `signatures[0]`
  unfoldable pub the_signature : List Text → Option Text
  the_signature [] = none
  the_signature (s ∷ rest) = if all (text_eq s) rest then some s else none

  unfoldable pub declaration : GenerationRequest → Result (Text × Option Signature)
  unfolding declared the_signature
  declaration payload =
      let prefix = payload.assistant_prefix in
      let close = codes "pass" ++ (10 ∷ []) in
      if nonempty prefix
      then declared prefix prefix (lang.parse (prefix ++ close))
      else elim (the_signature (lang.signatures payload.prompt)) [
        | none ↦ ok ([], none)
        | some s ↦ declared prefix (header_of s) (lang.parse (header_of s ++ close))
      ]
