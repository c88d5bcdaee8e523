-- ===== src/Tests/Sandbox.antt =====
-- A file of one test case, and a validation of a source that passes, in sandbox_validate.py.
use npp_ai.Prelude.{ℕ, ◌≤◌, ◌≡◌, ◌↔◌, true, false, Option, none, some, List, [], ◌∷◌, ◌++◌}
use npp_ai.Text.{Text, Bytes, codes}
use npp_ai.Text.Utf8.{encode}
use npp_ai.Text.Hex.{hexdigest}
use npp_ai.Python.Int.{pos}
use npp_ai.Python.Exceptions.{Result, ok}
use npp_ai.Sandbox.{
  Json, plain, text, array, object, Items, no_items, item, Members, no_members, member, count_items,
}
use npp_ai.Sandbox.Cases.{load_cases}
use npp_ai.Sandbox.Cases.Laws.{AllCases, load_cases_iff}
use npp_ai.Sandbox.Watch.{Reader, fresh_reader, Round, Watched}
use npp_ai.Sandbox.Validate.{Setting, Course, Action, validate}

abbrev one_case : Items
one_case =
    item
      (object (
        member (codes "function") (text (codes "f")) (
          member (codes "args") (array no_items) (
            member (codes "kwargs") (object no_members)
              (member (codes "expected") plain no_members)))))
      no_items

abbrev parse_one : Bytes → Result Json
parse_one raw = ok (array one_case)

abbrev same_hash : Bytes → Bytes
same_hash b = b

load_cases_iff_example : (load_cases same_hash parse_one (91 ∷ []) ≡ ok (one_case, codes "5b")) ↔ (
    (1 ≤ 65536)
    × (parse_one (91 ∷ []) ≡ ok (array one_case))
    × (1 ≤ count_items one_case)
    × (count_items one_case ≤ 100)
    × AllCases one_case
    × (codes "5b" ≡ hexdigest (91 ∷ [])))
load_cases_iff_example = load_cases_iff same_hash parse_one (91 ∷ []) one_case (codes "5b")

abbrev waiting : Round
waiting = record { received = []; poll = none; cancelled = false; clock = 3 }

abbrev late : Round
late = record { received = []; poll = none; cancelled = false; clock = 12 }

abbrev setting : Setting
setting = record {
  docker = codes "docker";
  host = codes "unix:///run/docker.sock";
  name = codes "nppai-1";
  receipt = codes "r";
  environ = (codes "PATH", codes "/bin") ∷ (codes "KEY", codes "k") ∷ [];
  upper = λ s. s;
  supervisor = codes "s";
}

-- The supervisor prints its line and ends with 0.
abbrev finished : Round
finished = record { received = []; poll = some (pos 0); cancelled = false; clock = 4 }

abbrev course : Course
course = record {
  cancelled_first = false;
  starts = true;
  deadline = 12;
  rounds = waiting ∷ finished ∷ [];
  tail = (encode (codes "NPPAI:r:tests:1") ++ (10 ∷ [])) ∷ [];
  alive = false;
  exits = true;
}

abbrev image : Text
image = codes "sha256:0000000000000000000000000000000000000000000000000000000000000000"

abbrev validated : Option (Result (ℕ × Text) × List Action)
validated = validate setting (codes "tests") 1 course (codes "def f(): pass") image

abbrev actions : List Action
actions = elim validated [ some (answer, done) ↦ done | none ↦ [] ]

abbrev passed : Text
passed = codes "tests passed (1 authored cases configured)"
