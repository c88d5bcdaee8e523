-- ===== src/Training/Sequential/Recorded.antt =====
-- The rounds of the sequential decoder, audited.
use npp_ai.Prelude.{
  ℕ, zero, suc, ◌+◌, ◌-◌, ◌≤◌, ◌≡◌, refl, sym, ap, ◌∙◌, Bool, true, false, ◌&&◌, Bool-cases, inl,
  inr, Option, none, some, List, [], ◌∷◌, ◌++◌, append_assoc, append-nil, all, all-append, length,
  length-append, drop, ltb, leb, ◌==◌, arith, if_intro,
}
use npp_ai.Text.{Bytes, codes, starts_with, IsBytes}
use npp_ai.Python.Exceptions.{ok}
use npp_ai.Training.Copy.{mask_from}
use npp_ai.Training.Transition.{at}
use npp_ai.Training.Sequential.{
  Probability, State, waiting, copying, ended, Outputs, CursorEvent, nonzero, entered, decided_in,
  finish, answer_loop,
}
use npp_ai.Training.Sequential.Audit.{valid_byte, emitted, audit_event, audit_each_event}
use npp_ai.Training.Sequential.Window.{at-out, at-length_append, at-all, source_byte-valid_byte}
use npp_ai.Training.Sequential.Decision.{
  IsNetwork, is_answer_byte, starts_with-append, Decides, copy_decision-Decides,
}
use npp_ai.Training.Sequential.Audited.{Behind, Fits, Recorded, entered-Fits, audit_event-decision}

module _ (P : Probability) (model : List ℕ → List Bool → Outputs P) (network : IsNetwork P model)
    (frame : Bytes) (left right : ℕ) (inside : right ≤ length frame) (bytes : IsBytes frame) where
  abbrev KeptRun : Bytes → Option (CursorEvent P) → ℕ → Bytes × List (CursorEvent P) → Type 0
  KeptRun = Recorded P model network frame left right inside bytes

  emitted-out : (output : Bytes) → emitted P output (length output) ≡ 0
  unfolding emitted
  emitted-out output = rw (emitted, at-out output (length output) (omega arith))

  emitted-next :
      (output more : Bytes) (token : ℕ)
      → emitted P (output ++ (token ∷ more)) (length output) ≡ token
  unfolding emitted at
  emitted-next output more token = rw (emitted, at-length_append output (token ∷ more))

  module _ (output : Bytes) (previous : Option (CursorEvent P)) (rounds token : ℕ)
      (r : Bytes × List (CursorEvent P)) (answer : all is_answer_byte output ≡ true) where
    -- A round with no event.
    finish_quiet :
        ((token == 0) ≡ false → KeptRun (output ++ (token ∷ [])) previous rounds r)
        → KeptRun output previous (suc rounds) (finish P token none output r)
    unfolding finish
    finish_quiet rest =
        if_intro (KeptRun output previous (suc rounds)) (token == 0)
          (λ over. record {
            more = [];
            extends = sym (append-nil output);
            audited = unfold audit_each_event in refl;
            trigger = refl;
            short = omega arith;
            valid = answer;
          })
          (λ on.
            let k = rest on in
            record {
              more = token ∷ k.more;
              extends = k.extends ∙ append_assoc output (token ∷ []) k.more;
              audited = k.audited;
              trigger = k.trigger;
              short = omega (arith, k.short, length-append output (token ∷ []));
              valid = k.valid;
            })

    -- A round with an event, which is audited wherever the answer goes on with the byte.
    finish_event :
        (event : CursorEvent P)
        → ((final : Bytes)
            → length output ≤ length final
            → emitted P final (length output) ≡ token
            → audit_event P frame left right final previous event ≡ ok tt)
        → starts_with output (codes "def ") ≡ true
        → ((token == 0) ≡ false → KeptRun (output ++ (token ∷ [])) (some event) rounds r)
        → KeptRun output previous (suc rounds) (finish P token (some event) output r)
    unfolding finish audit_each_event
    finish_event event audited def rest =
        if_intro (KeptRun output previous (suc rounds)) (token == 0)
          (λ over.
            let nothing : emitted P output (length output) ≡ token =
              emitted-out output ∙ ground arith in
            record {
              more = [];
              extends = sym (append-nil output);
              audited = rw (audited output (omega arith) nothing);
              trigger = def;
              short = omega arith;
              valid = answer;
            })
          (λ on.
            let k = rest on in
            let whole : r.0 ≡ output ++ (token ∷ k.more) =
              k.extends ∙ append_assoc output (token ∷ []) k.more in
            let long : length output ≤ length r.0 =
              omega (arith, ap length whole, length-append output (token ∷ k.more)) in
            let next : emitted P r.0 (length output) ≡ token =
              rw whole (emitted-next output k.more token) in
            record {
              more = token ∷ k.more;
              extends = whole;
              audited = rw (audited r.0 long next) k.audited;
              trigger = rw whole (starts_with-append output (token ∷ k.more) (codes "def ") def);
              short = omega (arith, k.short, length-append output (token ∷ []));
              valid = k.valid;
            })

  nonzero-some : (o : Option ℕ) (b : ℕ) → nonzero o ≡ some b → o ≡ some b
  unfolding nonzero
  nonzero-some none b h = h
  nonzero-some (some c) b h = ground arith

  valid_byte-low :
      (offset cursor b : ℕ)
      → valid_byte P frame left right offset cursor ≡ some b
      → leb b 255 ≡ true
  unfolding valid_byte
  valid_byte-low offset cursor b e =
      elim (Bool-cases (leb left cursor && ltb cursor right && leb offset cursor)) [
        | inl within ↦
            at-all (λ c. leb c 255) frame cursor b bytes
              (nonzero-some (at frame cursor) b (rw (valid_byte, within) at e))
        | inr out ↦ absurd (cc (rw (valid_byte, out) at e))
      ]

  module _ (rounds : ℕ) (output : Bytes) (previous : Option (CursorEvent P))
      (budget : length output + suc rounds ≤ 160) (answer : all is_answer_byte output ≡ true) where
    abbrev here : List ℕ
    here = drop (length (frame ++ output) - 256) (frame ++ output)

    abbrev marks : List Bool
    marks = mask_from left right (length (frame ++ output) - 256) (length here)

    -- The rounds behind a byte and a state.
    abbrev rest : ℕ → State → Bytes × List (CursorEvent P)
    rest token state =
        answer_loop P 256 model rounds (length output + 1) left right
          ((frame ++ output) ++ (token ∷ [])) (output ++ (token ∷ [])) state

    abbrev Goes : Type 0
    Goes =
        (token : ℕ) (state : State) (last : Option (CursorEvent P))
        → (token == 0) ≡ false
        → leb token 255 ≡ true
        → Fits P model network frame left right inside bytes (output ++ (token ∷ [])) last state
        → KeptRun (output ++ (token ∷ [])) last rounds (rest token state)

    abbrev outputs : Outputs P
    outputs = model here marks

    module _ (cursor : ℕ) (d : ℕ × CursorEvent P × State)
        (k : Decides P outputs.base_byte
          (length output)
          cursor
          (valid_byte P frame left right (length (frame ++ output) - 256) cursor)
          d) where
      decided_low : leb d.0 255 ≡ true
      decided_low = elim k.from [
        | inl e ↦ ground (arith, e, network.low here marks)
        | inr e ↦ valid_byte-low (length (frame ++ output) - 256) cursor d.0 e
      ]

      decided-Fits :
          4 ≤ length output
          → starts_with output (codes "def ") ≡ true
          → Fits P model network frame left right inside bytes (output ++ (d.0 ∷ [])) (some d.1) d.2
      unfolding Fits Behind
      decided-Fits late def =
          let longer = length-append output (d.0 ∷ []) in
          elim k.next [
            | inl e ↦ rw e tt
            | inr (copied, e) ↦ rw e (
              (copied, omega (arith, longer, k.at_query), omega (arith, k.at_cursor)),
              omega (arith, longer),
              starts_with-append output (d.0 ∷ []) (codes "def ") def,
            )
          ]

      -- A decision at the cursor, and the rounds behind it.
      copying_round :
          Behind P model network frame left right inside bytes output previous cursor
          → 4 ≤ length output
          → starts_with output (codes "def ") ≡ true
          → Goes
          → KeptRun output previous (suc rounds) (finish P d.0 (some d.1) output (rest d.0 d.2))
      copying_round behind late def goes =
          finish_event output previous rounds d.0 (rest d.0 d.2) answer d.1
            (λ final long next.
              audit_event-decision P model network frame left right inside bytes output final
                previous cursor outputs.base_byte d k behind late (network.low here marks)
                (omega arith) long next)
            def (λ on. goes d.0 d.2 (some d.1) on decided_low (decided-Fits late def))

    round :
        (state : State)
        → Fits P model network frame left right inside bytes output previous state
        → Goes
        → KeptRun output previous (suc rounds) (
            let (token, event, state') =
              decided_in P outputs
                (length output)
                here
                marks
                (length (frame ++ output) - 256)
                state in
            finish P token event output (rest token state'))
    unfolding decided_in
    round waiting fits goes =
        finish_quiet output previous rounds outputs.base_byte (rest outputs.base_byte waiting)
          answer
          (λ on.
            goes outputs.base_byte waiting previous on (ground (arith, network.low here marks))
              (unfold Fits in fits))
    round ended fits goes =
        finish_quiet output previous rounds outputs.base_byte (rest outputs.base_byte ended) answer
          (λ on.
            goes outputs.base_byte ended previous on (ground (arith, network.low here marks))
              (unfold Fits in tt))
    round (copying cursor) fits goes =
        rw
          (source_byte-valid_byte P frame output left right (length (frame ++ output) - 256) cursor
            inside)
          (let (behind, late, def) : Behind P model network frame left right inside bytes output
                  previous cursor
                × (4 ≤ length output)
                × (starts_with output (codes "def ") ≡ true) =
              unfold Fits in fits in
            copying_round cursor _
              (copy_decision-Decides P outputs.base_byte (length output) cursor outputs _ _ refl
                (network.finite here marks) (network.unit here marks))
              behind late def goes)

  goes_on :
      (rounds : ℕ) (output : Bytes) (token : ℕ) (state : State) (last : Option (CursorEvent P))
      → (token == 0) ≡ false
      → leb token 255 ≡ true
      → length output + suc rounds ≤ 160
      → all is_answer_byte output ≡ true
      → (length (output ++ (token ∷ [])) + rounds ≤ 160
          → all is_answer_byte (output ++ (token ∷ [])) ≡ true
          → KeptRun (output ++ (token ∷ [])) last rounds (
              answer_loop P 256 model rounds
                (length (output ++ (token ∷ [])))
                left
                right
                (frame ++ (output ++ (token ∷ [])))
                (output ++ (token ∷ []))
                state))
      → KeptRun (output ++ (token ∷ [])) last rounds (
          answer_loop P 256 model rounds
            (length output + 1)
            left
            right
            ((frame ++ output) ++ (token ∷ []))
            (output ++ (token ∷ []))
            state)
  goes_on rounds output token state last on low budget answer go =
      let longer = length-append output (token ∷ []) in
      let query : length output + 1 ≡ length (output ++ (token ∷ [])) = omega (arith, longer) in
      let byte : all is_answer_byte (token ∷ []) ≡ true = ground arith in
      let valid : all is_answer_byte (output ++ (token ∷ [])) ≡ true =
        all-append is_answer_byte output (token ∷ []) ∙ (rw (answer, byte)) in
      rw (query, append_assoc frame output (token ∷ [])) (go (omega (arith, longer)) valid)

  -- What the loop records from a fit state on.
  pub answer_loop-Recorded :
      (rounds : ℕ) (output : Bytes) (previous : Option (CursorEvent P)) (state : State)
      → Fits P model network frame left right inside bytes output previous state
      → length output + rounds ≤ 160
      → all is_answer_byte output ≡ true
      → KeptRun output previous rounds
          (answer_loop P 256 model rounds (length output) left right (frame ++ output) output state)
  unfolding answer_loop
  answer_loop-Recorded zero output previous state fits budget answer = record {
    more = [];
    extends = sym (append-nil output);
    audited = unfold audit_each_event in refl;
    trigger = refl;
    short = omega arith;
    valid = answer;
  }
  answer_loop-Recorded (suc rounds) output previous state fits budget answer =
      round rounds output previous budget answer
        (entered P (outputs rounds output previous budget answer)
          (marks rounds output previous budget answer) (length (frame ++ output) - 256) output
          state)
        (entered-Fits P model network frame left right inside bytes
          (outputs rounds output previous budget answer)
          (marks rounds output previous budget answer) (length (frame ++ output) - 256) output
          previous state fits)
        (λ token next last on low fits'.
          goes_on rounds output token next last on low budget answer
            (answer_loop-Recorded rounds (output ++ (token ∷ [])) last next fits'))
