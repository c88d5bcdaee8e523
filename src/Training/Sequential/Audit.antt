-- ===== src/Training/Sequential/Audit.antt =====
-- `audit_events` of scripts/protected_sequential.py: the recorded answer of a sequential decoder,
-- checked without the model.
use npp_ai.Prelude.{
  ℕ, ◌+◌, ◌-◌, Bool, true, false, not, ◌&&◌, ◌||◌, Option, none, some, List, [], ◌∷◌, length, all,
  ltb, leb, ◌==◌, if◌then◌else◌,
}
use npp_ai.Text.{Text, Bytes, codes, text_eq, starts_with}
use npp_ai.Text.Utf8.{encode, decode}
use npp_ai.Python.Exceptions.{Result, ok, err, value_error, other_exception, require, ◌>>◌}
use npp_ai.Training.Records.{framed}
use npp_ai.Training.Transition.{at}
use npp_ai.Training.Sequential.{Probability, Kind, at_boundary, exit, copy, CursorEvent, nonzero}

unfoldable pub is_copy : Kind → Bool
is_copy copy = true
is_copy at_boundary = false
is_copy exit = false

module _ (P : Probability) where
  -- The first event comes at query 4.
  unfoldable pub is_timely : Option (CursorEvent P) → CursorEvent P → Bool
  is_timely none event = event.response_query == 4
  is_timely (some previous) event = true

  -- Each other event comes behind a copied byte, a query and a byte on.
  unfoldable pub follows_on : Option (CursorEvent P) → CursorEvent P → Bool
  unfolding is_copy
  follows_on none event = true
  follows_on (some previous) event =
      is_copy previous.kind
      && event.response_query == previous.response_query + 1
      && event.cursor == previous.cursor + 1

  -- The byte of the frame under a cursor that is `valid`.
  unfoldable pub valid_byte : Bytes → ℕ → ℕ → ℕ → ℕ → Option ℕ
  unfolding at nonzero
  valid_byte frame left right offset cursor =
      if leb left cursor && ltb cursor right && leb offset cursor
      then nonzero (at frame cursor)
      else none

  abbrev pub is_none : Option ℕ → Bool
  is_none none = true
  is_none (some byte) = false

  -- The kind that an exit or a copy is to have.
  abbrev pub is_kind : Kind → Bool → Bool
  is_kind exit exit_name = exit_name
  is_kind copy exit_name = not exit_name
  is_kind at_boundary exit_name = false

  unfoldable pub check_decision : CursorEvent P → Option ℕ → ℕ → P.Float → Result (Unit {0})
  check_decision event none source p =
      err (value_error "sequential prompt source/probability differs")
  check_decision event (some byte) source p = do
    require (source == byte && P.is_finite p && P.in_unit p)
        (value_error "sequential prompt source/probability differs")
    require
        (is_kind event.kind (P.is_half p)
          && event.chosen == (if P.is_half p then event.base_byte else byte))
        (value_error "sequential exit decision differs")

  -- The event against the byte under its cursor, if it is valid.
  unfoldable pub check_source :
      CursorEvent P → Option ℕ → Kind → Option (ℕ × P.Float) → Result (Unit {0})
  unfolding check_decision
  check_source event valid at_boundary decided =
      require (is_none valid && event.chosen == event.base_byte)
        (value_error "sequential source boundary differs")
  check_source event valid kind none = err (other_exception "KeyError")
  check_source event valid kind (some (source, p)) = check_decision event valid source p

  -- `output_bytes[query] if query < len(output_bytes) else 0`
  unfoldable pub emitted : Bytes → ℕ → ℕ
  unfolding at
  emitted output query = elim (at output query) [ some byte ↦ byte | none ↦ 0 ]

  -- The guards of one event, in the order of the source.
  unfoldable pub audit_event :
      Bytes → ℕ → ℕ → Bytes → Option (CursorEvent P) → CursorEvent P → Result (Unit {0})
  unfolding is_timely follows_on valid_byte check_source emitted
  audit_event frame left right output previous event =
      let query = event.response_query in
      let offset = (length frame + query) - 256 in
      do
        require
            (leb 4 query
              && ltb query 160
              && leb query (length output)
              && is_timely previous event
              && ltb event.base_byte 256)
            (value_error "sequential event timing differs")
        require (follows_on previous event) (value_error "sequential cursor transition differs")
        check_source event (valid_byte frame left right offset event.cursor) event.kind
            event.decided
        require (event.chosen == emitted output query)
            (value_error "sequential emitted byte differs")

  unfoldable pub audit_each_event :
      Bytes → ℕ → ℕ → Bytes → Option (CursorEvent P) → List (CursorEvent P) → Result (Unit {0})
  unfolding audit_event
  audit_each_event frame left right output previous [] = ok tt
  audit_each_event frame left right output previous (event ∷ events) = do
    audit_event frame left right output previous event
    audit_each_event frame left right output (some event) events

  abbrev pub no_events : List (CursorEvent P) → Bool
  no_events [] = true
  no_events (event ∷ events) = false

  -- A recorded case: its output, its events and its bytes.
  unfoldable pub audit_events : Text → Text × List (CursorEvent P) × Bytes → Result (Unit {0})
  unfolding audit_each_event framed
  audit_events prompt (output, events, output_bytes) = do
    require
        (leb (length output_bytes) 160
          && all (λ b. leb 1 b && leb b 255) output_bytes
          && text_eq (decode output_bytes) output)
        (value_error "sequential raw output bytes differ")
    audit_each_event (framed prompt) 8 (8 + length (encode prompt)) output_bytes none events
    require (no_events events || starts_with output (codes "def "))
        (value_error "sequential autonomous trigger differs")
