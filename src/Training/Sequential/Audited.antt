-- ===== src/Training/Sequential/Audited.antt =====
-- What the sequential decoder records, audited.
use npp_ai.Prelude.{
  ℕ, ◌+◌, ◌-◌, ◌<◌, ◌≤◌, ◌≡◌, refl, sym, ap, subst, Bool, true, ◌&&◌, ◌||◌, Bool-cases, inl, inr,
  Option, none, some, List, ◌++◌, all, any, length, length-append, ltb, leb, ◌==◌, arith, if_intro,
}
use npp_ai.Text.{Bytes, codes, text_eq, starts_with, IsBytes}
use npp_ai.Text.Laws.{eq_of_text_eq}
use npp_ai.Python.Exceptions.{ok}
use npp_ai.Training.Sequential.{
  Probability, State, waiting, copying, ended, Outputs, CursorEvent, triggered, entered,
}
use npp_ai.Training.Sequential.Audit.{
  is_copy, is_timely, follows_on, valid_byte, check_source, emitted, audit_event, audit_each_event,
  no_events,
}
use npp_ai.Training.Sequential.Decision.{IsNetwork, is_answer_byte, Decides}

module _ (P : Probability) (model : List ℕ → List Bool → Outputs P) (network : IsNetwork P model)
    (frame : Bytes) (left right : ℕ) (inside : right ≤ length frame) (bytes : IsBytes frame) where
  -- The last event, if there is one, is a copy of the byte before the cursor in the query before.
  unfoldable pub Behind : Bytes → Option (CursorEvent P) → ℕ → Type 0
  Behind output none cursor = length output ≡ 4
  Behind output (some e) cursor =
      (is_copy e.kind ≡ true) × (length output ≡ e.response_query + 1) × (cursor ≡ e.cursor + 1)

  -- The state that the decoder is in, for the answer so far and the last event.
  unfoldable pub Fits : Bytes → Option (CursorEvent P) → State → Type 0
  unfolding Behind starts_with
  Fits output previous waiting = previous ≡ none
  Fits output previous (copying cursor) =
      Behind output previous cursor
      × (4 ≤ length output)
      × (starts_with output (codes "def ") ≡ true)
  Fits output previous ended = Unit {0}

  -- What is recorded from an answer on.
  pub record Recorded (output : Bytes) (previous : Option (CursorEvent P)) (rounds : ℕ)
      (r : Bytes × List (CursorEvent P)) : Type 0 where
    pub more : Bytes
    pub extends : r.0 ≡ output ++ more
    pub audited : audit_each_event P frame left right r.0 previous r.1 ≡ ok tt
    pub trigger : (no_events P r.1 || starts_with r.0 (codes "def ")) ≡ true
    pub short : length r.0 ≤ length output + rounds
    pub valid : all is_answer_byte r.0 ≡ true

  triggered-Fits :
      (outputs : Outputs P) (mask : List Bool) (offset : ℕ) (output : Bytes)
      → Fits output none (triggered P outputs mask offset output)
  unfolding triggered
  triggered-Fits outputs mask offset output = elim (Bool-cases (text_eq output (codes "def "))) [
    | inr other ↦ rw other (unfold Fits in refl)
    | inl def ↦
        let e = eq_of_text_eq output (codes "def ") def in
        rw def (
          if_intro (Fits output none) (any (λ b. b) mask)
            (λ _.
              unfold Fits Behind starts_with in
              (ap length e, omega (arith, ap length e), rw e refl))
            (λ _. unfold Fits in tt))
  ]

  -- The trigger keeps the state fit.
  pub entered-Fits :
      (outputs : Outputs P) (mask : List Bool) (offset : ℕ) (output : Bytes)
      (previous : Option (CursorEvent P)) (state : State)
      → Fits output previous state
      → Fits output previous (entered P outputs mask offset output state)
  unfolding entered
  entered-Fits outputs mask offset output previous waiting h =
      let first : none ≡ previous = sym (unfold Fits in h) in
      subst (λ o. Fits output o (triggered P outputs mask offset output)) first
        (triggered-Fits outputs mask offset output)
  entered-Fits outputs mask offset output previous (copying cursor) h = h
  entered-Fits outputs mask offset output previous ended h = h

  -- The event of a decision, audited: it is timely, follows on, and gives the byte that comes next.
  module _ (output final : Bytes) (previous : Option (CursorEvent P)) (cursor base_byte : ℕ)
      (d : ℕ × CursorEvent P × State)
      (k : Decides P base_byte
        (length output)
        cursor
        (valid_byte P frame left right (length (frame ++ output) - 256) cursor)
        d)
      (behind : Behind output previous cursor) (late : 4 ≤ length output) where
    is_timely-decision : is_timely P previous d.1 ≡ true
    is_timely-decision = at previous behind
      where
        at : (o : Option (CursorEvent P)) → Behind output o cursor → is_timely P o d.1 ≡ true
        at none h = unfold Behind is_timely in ground (arith, k.at_query)
        at (some e) h = unfold is_timely in refl

    follows_on-decision : follows_on P previous d.1 ≡ true
    follows_on-decision = at previous behind
      where
        at : (o : Option (CursorEvent P)) → Behind output o cursor → follows_on P o d.1 ≡ true
        at none h = unfold follows_on in refl
        at (some e) h = unfold Behind follows_on in ground (arith, k.at_query, k.at_cursor)

    source-decision :
        check_source P d.1
          (valid_byte P frame left right ((length frame + d.1.response_query) - 256) d.1.cursor)
          d.1.kind
          d.1.decided
        ≡ ok tt
    unfolding check_source
    source-decision =
        let place : length (frame ++ output) ≡ length frame + d.1.response_query =
          omega (arith, length-append frame output, k.at_query) in
        rw (k.at_cursor, ← place) k.source

    pub audit_event-decision :
        base_byte < 256
        → length output < 160
        → length output ≤ length final
        → emitted P final (length output) ≡ d.0
        → audit_event P frame left right final previous d.1 ≡ ok tt
    unfolding audit_event
    audit_event-decision low early long next =
        let timing : (leb 4 d.1.response_query
              && ltb d.1.response_query 160
              && leb d.1.response_query (length final)
              && is_timely P previous d.1
              && ltb d.1.base_byte 256)
            ≡ true =
          ground (arith, k.at_query, k.base, is_timely-decision) in
        let given : (d.1.chosen == emitted P final d.1.response_query) ≡ true =
          rw (k.at_query, next, k.chose) (ground arith) in
        rw (audit_event, timing, follows_on-decision, source-decision, given)
