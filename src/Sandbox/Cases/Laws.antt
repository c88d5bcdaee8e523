-- ===== src/Sandbox/Cases/Laws.antt =====
-- Which test cases `load_cases` accepts.
use npp_ai.Prelude.{
  ◌≤◌, ◌≡◌, ◌↔◌, refl, ◌∙◌, ap, subst, Bool, true, false, not, ◌&&◌, Option, none, some, length,
  ltb, arith,
}
use npp_ai.Text.{Text, Bytes, codes}
use npp_ai.Text.Hex.{hexdigest}
use npp_ai.Python.Exceptions.{Result, ok, require, >>=-eq-ok, require-eq-ok}
use npp_ai.Sandbox.{
  Json, plain, text, array, object, Items, no_items, item, Members, count_items, find_member,
}
use npp_ai.Sandbox.Cases.{
  is_identifier, keys_within, has_case_keys, is_there, names_function, is_array, is_object,
  check_members, check_case, check_cases, listed, load_cases,
}

-- What the driver may be given: a plain function name, positional and named arguments, and an
-- expected value, and nothing else.
pub record IsCase (j : Json) : Type 0 where
  pub members : Members
  pub same : j ≡ object members
  pub keys : keys_within members ≡ true
  pub function : Text
  pub function_at : find_member (codes "function") members ≡ some (text function)
  pub identifier : is_identifier function ≡ true
  pub args : Items
  pub args_at : find_member (codes "args") members ≡ some (array args)
  pub kwargs : Members
  pub kwargs_at : find_member (codes "kwargs") members ≡ some (object kwargs)
  pub expected : Json
  pub expected_at : find_member (codes "expected") members ≡ some expected

abbrev pub AllCases : Items → Type 0
AllCases no_items = Unit
AllCases (item j rest) = IsCase j × AllCases rest

find_there : (o : Option Json) → is_there o ≡ true → (j : Json) × (o ≡ some j)
find_there none h = cc
find_there (some j) h = (j, refl)

find_text :
    (o : Option Json)
    → names_function o ≡ true
    → (name : Text) × (o ≡ some (text name)) × (is_identifier name ≡ true)
find_text (some (text name)) h = (name, refl, h)
find_text (some plain) h = cc
find_text (some (array items)) h = cc
find_text (some (object ms)) h = cc
find_text none h = cc

find_array : (o : Option Json) → is_array o ≡ true → (items : Items) × (o ≡ some (array items))
find_array (some (array items)) h = (items, refl)
find_array (some (text name)) h = cc
find_array (some plain) h = cc
find_array (some (object ms)) h = cc
find_array none h = cc

find_object : (o : Option Json) → is_object o ≡ true → (ms : Members) × (o ≡ some (object ms))
find_object (some (object ms)) h = (ms, refl)
find_object (some (text name)) h = cc
find_object (some plain) h = cc
find_object (some (array items)) h = cc
find_object none h = cc

five : (a b c d e : Bool) → (a && b && c && d && e) ≡ true → (a ≡ true) × (e ≡ true)
five a b c d e h = ground arith

two : (a b : Bool) → (a && b) ≡ true → (a ≡ true) × (b ≡ true)
two a b h = ground arith

check_case-IsCase : (j : Json) → check_case j ≡ ok tt → IsCase j
unfolding check_case check_members has_case_keys
check_case-IsCase (object ms) h0 =
    let (_, keyed, h1) = >>=-eq-ok (require (has_case_keys ms) _) _ h0 in
    let (_, named, h2) =
      >>=-eq-ok (require (names_function (find_member (codes "function") ms)) _) _ h1 in
    let (keys, there) =
      five (keys_within ms) _ _ _ (is_there (find_member (codes "expected") ms))
        (require-eq-ok _ _ keyed) in
    let (listed_, named_) =
      two (is_array (find_member (codes "args") ms)) _ (require-eq-ok _ _ h2) in
    let (name, name_at, plain_name) =
      find_text (find_member (codes "function") ms) (require-eq-ok _ _ named) in
    let (args, args_at) = find_array (find_member (codes "args") ms) listed_ in
    let (kwargs, kwargs_at) = find_object (find_member (codes "kwargs") ms) named_ in
    let (expected, expected_at) = find_there (find_member (codes "expected") ms) there in
    record {
      members = ms;
      same = refl;
      keys = keys;
      function = name;
      function_at = name_at;
      identifier = plain_name;
      args = args;
      args_at = args_at;
      kwargs = kwargs;
      kwargs_at = kwargs_at;
      expected = expected;
      expected_at = expected_at;
    }
check_case-IsCase plain h = cc
check_case-IsCase (text t) h = cc
check_case-IsCase (array t) h = cc

IsCase-check_case : (j : Json) → IsCase j → check_case j ≡ ok tt
unfolding check_case check_members has_case_keys
IsCase-check_case j c =
    rw (c.same) (rw (c.function_at, c.args_at, c.kwargs_at, c.expected_at, c.keys, c.identifier))

check_cases-AllCases : (js : Items) → check_cases js ≡ ok tt → AllCases js
unfolding check_cases
check_cases-AllCases no_items h = tt
check_cases-AllCases (item j rest) h =
    let (u, first, others) = >>=-eq-ok (check_case j) (λ _. check_cases rest) h in
    (check_case-IsCase j first, check_cases-AllCases rest others)

AllCases-check_cases : (js : Items) → AllCases js → check_cases js ≡ ok tt
unfolding check_cases
AllCases-check_cases no_items h = refl
AllCases-check_cases (item j rest) (c, cs) =
    rw (IsCase-check_case j c) (AllCases-check_cases rest cs)

module _ (sha256 : Bytes → Bytes) (parse : Bytes → Result Json) where
  listed-eq :
      (j : Json) (cases : Items)
      → listed sha256 parse j ≡ ok cases
      → (j ≡ array cases) × (1 ≤ count_items cases) × (count_items cases ≤ 100)
  unfolding listed
  listed-eq (array js) cases h = ground arith
  listed-eq plain cases h = cc
  listed-eq (text t) cases h = cc
  listed-eq (object ms) cases h = cc

  listed-array :
      (cases : Items)
      → 1 ≤ count_items cases
      → count_items cases ≤ 100
      → listed sha256 parse (array cases) ≡ ok cases
  unfolding listed
  listed-array cases few many = ground arith

  -- A file of test cases is accepted exactly if it has at most 64 KiB, parses as a list of 1 to
  -- 100 cases, and each of them has a plain function name, positional and named arguments, an
  -- expected value, and no other key. The result is the list with the digest of the file.
  pub load_cases_iff :
      (raw : Bytes) (cases : Items) (digest : Text)
      → (load_cases sha256 parse raw ≡ ok (cases, digest)) ↔ (
          (length raw ≤ 65536)
          × (parse raw ≡ ok (array cases))
          × (1 ≤ count_items cases)
          × (count_items cases ≤ 100)
          × AllCases cases
          × (digest ≡ hexdigest (sha256 raw)))
  unfolding load_cases
  load_cases_iff raw cases digest =
      (accepted, λ (small, parsed, few, many, good, same). accepts small parsed few many good same)
    where
      accepted :
          load_cases sha256 parse raw ≡ ok (cases, digest)
          → (length raw ≤ 65536)
            × (parse raw ≡ ok (array cases))
            × (1 ≤ count_items cases)
            × (count_items cases ≤ 100)
            × AllCases cases
            × (digest ≡ hexdigest (sha256 raw))
      accepted h0 =
          let (_, small, h1) = >>=-eq-ok (require (not (ltb 65536 (length raw))) _) _ h0 in
          let (value, parsed, h2) = >>=-eq-ok (parse raw) _ h1 in
          let (js, found, h3) = >>=-eq-ok (listed sha256 parse value) _ h2 in
          let (_, good, h4) = >>=-eq-ok (check_cases js) _ h3 in
          let (same, few, many) = listed-eq value js found in
          let items : js ≡ cases = cc in
          (
            ground (arith, require-eq-ok _ _ small),
            parsed ∙ ap ok (same ∙ ap array items),
            subst (λ x. 1 ≤ count_items x) items few,
            subst (λ x. count_items x ≤ 100) items many,
            subst AllCases items (check_cases-AllCases js good),
            cc,
          )

      accepts :
          length raw ≤ 65536
          → parse raw ≡ ok (array cases)
          → 1 ≤ count_items cases
          → count_items cases ≤ 100
          → AllCases cases
          → digest ≡ hexdigest (sha256 raw)
          → load_cases sha256 parse raw ≡ ok (cases, digest)
      accepts small parsed few many good same =
          let fits : ltb 65536 (length raw) ≡ false = ground arith in
          rw (fits, parsed)
            (rw (listed-array cases few many) (rw (AllCases-check_cases cases good, same) refl))
