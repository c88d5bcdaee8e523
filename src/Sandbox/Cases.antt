-- ===== src/Sandbox/Cases.antt =====
-- `load_cases` of sandbox_validate.py, on the bytes that are read.
pub mod Laws
use npp_ai.Prelude.{
  ℕ, ◌≤◌, ◌≡◌, ◌↔◌, refl, Bool, true, false, not, ◌&&◌, ◌||◌, Option, none, some, List, [], ◌∷◌,
  length, ltb, leb, ◌==◌, all, if◌then◌else◌, arith, Bool-cases, inl, inr,
}
use npp_ai.Text.{Text, Bytes, codes, text_eq}
use npp_ai.Text.Hex.{hexdigest}
use npp_ai.Python.Exceptions.{
  Exception, Result, ok, err, value_error, require, ◌>>=◌, ◌>>◌, >>=-eq-ok, require-eq-ok,
}
use npp_ai.Sandbox.{
  Json, plain, text, array, object, Items, no_items, item, Members, no_members, member, count_items,
  find_member,
}

-- `[A-Za-z_]` and `[A-Za-z0-9_]`
unfoldable pub is_letter : ℕ → Bool
is_letter c = (leb 65 c && leb c 90) || (leb 97 c && leb c 122) || c == 95

unfoldable pub is_word : ℕ → Bool
unfolding is_letter
is_word c = is_letter c || (leb 48 c && leb c 57)

-- `re.fullmatch(r'[A-Za-z_][A-Za-z0-9_]*', s)`
unfoldable pub is_identifier : Text → Bool
unfolding is_letter is_word
is_identifier [] = false
is_identifier (c ∷ s) = is_letter c && all is_word s

-- `set(case) != {'function', 'args', 'kwargs', 'expected'}`
unfoldable pub is_case_key : Text → Bool
is_case_key k =
    text_eq k (codes "function")
    || text_eq k (codes "args")
    || text_eq k (codes "kwargs")
    || text_eq k (codes "expected")

unfoldable pub keys_within : Members → Bool
unfolding is_case_key
keys_within no_members = true
keys_within (member k j rest) = is_case_key k && keys_within rest

abbrev pub is_there : Option Json → Bool
is_there none = false
is_there (some j) = true

unfoldable pub has_case_keys : Members → Bool
unfolding keys_within
has_case_keys ms =
    keys_within ms
    && is_there (find_member (codes "function") ms)
    && is_there (find_member (codes "args") ms)
    && is_there (find_member (codes "kwargs") ms)
    && is_there (find_member (codes "expected") ms)

-- The tests of the types of a case's values.
abbrev pub names_function : Option Json → Bool
names_function (some (text name)) = is_identifier name
names_function _ = false

abbrev pub is_array : Option Json → Bool
is_array (some (array items)) = true
is_array _ = false

abbrev pub is_object : Option Json → Bool
is_object (some (object ms)) = true
is_object _ = false

pub check_members : Members → Result (Unit {0})
check_members ms = do
  require (has_case_keys ms) (value_error "Each case needs function, args, kwargs, expected")
  require (names_function (find_member (codes "function") ms))
      (value_error "Test function must be a plain identifier")
  require (is_array (find_member (codes "args") ms) && is_object (find_member (codes "kwargs") ms))
      (value_error "Invalid function arguments")

unfoldable pub check_case : Json → Result (Unit {0})
unfolding check_members
check_case (object ms) = check_members ms
check_case _ = err (value_error "Each case needs function, args, kwargs, expected")

unfoldable pub check_cases : Items → Result (Unit {0})
unfolding check_case
check_cases no_items = ok tt
check_cases (item j rest) = check_case j >> check_cases rest

module _ (sha256 : Bytes → Bytes) (parse : Bytes → Result Json) where
  -- `isinstance(cases, list) and 1 <= len(cases) <= 100`
  pub listed : Json → Result Items
  listed (array cases) =
      if leb 1 (count_items cases) && leb (count_items cases) 100
      then ok cases
      else err (value_error "Configure 1..100 authored test cases")
  listed _ = err (value_error "Configure 1..100 authored test cases")

  unfoldable pub load_cases : Bytes → Result (Items × Text)
  unfolding listed
  load_cases raw = do
    require (not (ltb 65536 (length raw))) (value_error "Test cases exceed 64 KiB")
    value ← parse raw
    cases ← listed value
    check_cases cases
    ok (cases, hexdigest (sha256 raw))
