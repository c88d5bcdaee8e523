-- ===== src/Tests/Sequential.antt =====
-- A run of the sequential decoder that copies the name of "f()".
use npp_ai.Prelude.{
  ℕ, ◌≤◌, ◌+◌, ◌≡◌, refl, Bool, true, false, not, some, List, [], ◌∷◌, length, ◌==◌, if◌then◌else◌,
  arith, ◌<◌,
}
use npp_ai.Text.{Text, Bytes, codes}
use npp_ai.Text.Edit.{last_part}
use npp_ai.Text.Utf8.{is_text, encode}
use npp_ai.Python.Exceptions.{ok}
use npp_ai.Training.Records.{framed}
use npp_ai.Training.Sequential.{Probability, Outputs, CursorEvent, copy, exit, generate_with_events}
use npp_ai.Training.Sequential.Audit.{audit_events}
use npp_ai.Training.Sequential.Decision.{IsNetwork}
use npp_ai.Training.Sequential.Runs.{generate_with_events-audited}
use npp_ai.Training.Sequential.Copied.{Slice, copies, audit_events-copied}

-- A probability that is 0 or 1.
abbrev certain : Probability
certain = record { Float = Bool; is_half = λ p. p; is_finite = λ p. true; in_unit = λ p. true }

-- It spells "def " behind the frame, points at the first byte of the prompt, leaves the name
-- there, and ends behind a space.
abbrev spelled : Bytes → ℕ
spelled [] = 0
spelled (b ∷ bs) =
    if b == 10
    then 100
    else if b == 100
    then 101
    else if b == 101
    then 102
    else if b == 102
    then 32
    else 0

abbrev small_model : List ℕ → List Bool → Outputs certain
small_model x mask = record {
  base_byte = spelled (last_part 1 x);
  peak = 8;
  exit_probability = λ c. not (c == 8);
}

small_model-IsNetwork : IsNetwork certain small_model
small_model-IsNetwork = record {
  low = λ x mask. spelled-low (last_part 1 x);
  finite = λ x mask c. refl;
  unit = λ x mask c. refl;
}
  where
    spelled-low : (bs : Bytes) → spelled bs < 256
    spelled-low [] = omega arith
    spelled-low (b ∷ bs) = ground arith

abbrev copied_f : Text × List (CursorEvent certain) × Bytes
copied_f = (
  codes "def f ",
  record {
    response_query = 4;
    kind = copy;
    cursor = 8;
    base_byte = 0;
    chosen = 102;
    decided = some (102, false);
  }
      ∷ (record {
        response_query = 5;
        kind = exit;
        cursor = 9;
        base_byte = 32;
        chosen = 32;
        decided = some (40, true);
      }
          ∷ []),
  codes "def f ",
)

is_text-f : is_text (codes "f()") ≡ true
unfolding is_text npp_ai.Text.Utf8.is_scalar
is_text-f = refl

length-framed_f : length (framed (codes "f()")) ≤ 256
unfolding framed encode
length-framed_f = omega arith

audited_f : audit_events certain (codes "f()") copied_f ≡ ok tt
unfolding audit_events npp_ai.Text.text_eq npp_ai.Text.starts_with npp_ai.Text.Utf8.decode encode
    framed npp_ai.Training.Sequential.Audit.audit_each_event
audited_f = refl

generated_f : generate_with_events certain 256 small_model (codes "f()") 160 ≡ ok copied_f
unfolding generate_with_events npp_ai.Training.Sequential.answer_loop npp_ai.Text.Utf8.decode encode
    framed npp_ai.Training.Copy.mask_from npp_ai.Training.Copy.source_bounds npp_ai.Text.text_eq
generated_f = refl

generate_with_events-audited_example :
    (answer : Text × List (CursorEvent certain) × Bytes) × (generate_with_events certain 256
        small_model
        (codes "f()")
        160
      ≡ ok answer)
    × (audit_events certain (codes "f()") answer ≡ ok tt)
generate_with_events-audited_example =
    generate_with_events-audited certain small_model (codes "f()") small_model-IsNetwork is_text-f
      refl length-framed_f

audit_events-copied_example :
    (start : ℕ) × Slice certain
      (framed (codes "f()"))
      8
      (8 + length (encode (codes "f()")))
      (codes "def f ")
      (copies certain (copied_f.1))
      4
      start
audit_events-copied_example =
    audit_events-copied certain (codes "f()") (codes "def f ") (copied_f.1) (codes "def f ")
      audited_f
