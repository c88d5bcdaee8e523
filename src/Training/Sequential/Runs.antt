-- ===== src/Training/Sequential/Runs.antt =====
-- A whole run of the sequential decoder, audited.
use npp_ai.Prelude.{
  ℕ, ◌+◌, ◌≤◌, ◌≡◌, refl, ap, subst, ◌∙◌, Bool, true, false, not, ◌&&◌, ◌||◌, Bool-cases, inl, inr,
  none, List, [], ◌∷◌, ◌++◌, all, all-append, any, length, length-append, ltb, leb, both,
  append-nil, ◌==◌, arith,
}
use npp_ai.Text.{Text, Bytes, codes, text_eq, starts_with, IsBytes}
use npp_ai.Text.Laws.{text_eq_refl}
use npp_ai.Text.Utf8.{is_scalar, is_text, encode, decode}
use npp_ai.Text.Utf8.RoundTrip.{encode-append, encode-IsBytes, decode-encode_append}
use npp_ai.Python.Exceptions.{ok}
use npp_ai.Training.Records.{framed}
use npp_ai.Training.Copy.{source_bounds}
use npp_ai.Training.Sequential.{
  Probability, waiting, Outputs, CursorEvent, answer_loop, generate_with_events,
}
use npp_ai.Training.Sequential.Audit.{audit_each_event, no_events, audit_events}
use npp_ai.Training.Sequential.Decision.{IsNetwork, is_answer_byte}
use npp_ai.Training.Sequential.Audited.{Fits, Recorded}
use npp_ai.Training.Sequential.Recorded.{answer_loop-Recorded}

starts_with-split : (s p : Text) → starts_with s p ≡ true → (rest : Text) × (s ≡ p ++ rest)
unfolding starts_with
starts_with-split s [] h = (s, refl)
starts_with-split [] (c ∷ p) h = absurd (cc h)
starts_with-split (d ∷ s) (c ∷ p) h =
    let (same, later) = both (c == d) (starts_with s p) h in
    let (rest, e) = starts_with-split s p later in
    let head : d ≡ c = ground arith in (rest, λ i. head i ∷ e i)

-- An answer whose bytes start with "def " is decoded to a text that does.
decode-def :
    (bs : Bytes)
    → starts_with bs (codes "def ") ≡ true
    → starts_with (decode bs) (codes "def ") ≡ true
decode-def bs h =
    let (rest, e) = starts_with-split bs (codes "def ") h in
    let shown : decode (codes "def " ++ rest) ≡ codes "def " ++ decode rest =
      unfold encode is_text npp_ai.Text.Utf8.is_scalar in
      decode-encode_append (codes "def ") rest refl in
    rw (e, shown) (unfold starts_with in refl)

abbrev answer_head : Text
answer_head = 10 ∷ codes "[AI]:" ++ (10 ∷ [])

pub framed-IsBytes : (prompt : Text) → is_text prompt ≡ true → IsBytes (framed prompt)
unfolding framed is_text npp_ai.Text.Utf8.is_scalar
framed-IsBytes prompt text =
    let whole : is_text (codes "[USER]: " ++ (prompt ++ answer_head)) ≡ true =
      all-append is_scalar prompt answer_head ∙ rw text in
    encode-IsBytes (codes "[USER]: " ++ (prompt ++ answer_head)) whole

pub framed-inside : (prompt : Text) → 8 + length (encode prompt) ≤ length (framed prompt)
unfolding framed encode
framed-inside prompt =
    let parts = encode-append prompt answer_head in
    omega (arith, ap length parts, length-append (encode prompt) (encode answer_head))

generate_with_events-returns :
    (P : Probability) (model : List ℕ → List Bool → Outputs P) (prompt : Text)
    → not (ltb 256 (length (framed prompt))) ≡ true
    → any (λ c. c == 0) prompt ≡ false
    → let r =
        answer_loop P 256 model 160 0 8 (8 + length (encode prompt)) (framed prompt) [] waiting in
      generate_with_events P 256 model prompt 160 ≡ ok (decode r.0, r.1, r.0)
unfolding generate_with_events source_bounds
generate_with_events-returns P model prompt roomy clean = rw (roomy, clean)

audit_events-passes :
    (P : Probability) (prompt : Text) (output : Bytes) (events : List (CursorEvent P))
    → length output ≤ 160
    → all is_answer_byte output ≡ true
    → audit_each_event P (framed prompt) 8 (8 + length (encode prompt)) output none events ≡ ok tt
    → (no_events P events || starts_with output (codes "def ")) ≡ true
    → audit_events P prompt (decode output, events, output) ≡ ok tt
unfolding audit_events
audit_events-passes P prompt output events short valid each trigger =
    let raw : (leb (length output) 160
          && all (λ b. leb 1 b && leb b 255) output
          && text_eq (decode output) (decode output))
        ≡ true =
      ground (arith, text_eq_refl (decode output)) in
    let autonomous : (no_events P events || starts_with (decode output) (codes "def ")) ≡ true =
      elim (Bool-cases (no_events P events)) [
        | inl silent ↦ rw silent
        | inr told ↦ rw told (decode-def output (rw told at trigger))
      ] in
    rw (raw, each, autonomous)

-- A network whose bytes lie below 256 and whose exit values are finite probabilities answers every
-- prompt of scalar values with no NUL that fits the context of 256 bytes, within the budget of 160;
-- and the audit of the recorded answer, which has no access to the network, raises nothing.
pub generate_with_events-audited :
    (P : Probability) (model : List ℕ → List Bool → Outputs P) (prompt : Text)
    → IsNetwork P model
    → is_text prompt ≡ true
    → any (λ c. c == 0) prompt ≡ false
    → length (framed prompt) ≤ 256
    → (answer : Text × List (CursorEvent P) × Bytes) × (generate_with_events P 256 model prompt 160
        ≡ ok answer)
      × (audit_events P prompt answer ≡ ok tt)
generate_with_events-audited P model prompt network text clean fits =
    let right = 8 + length (encode prompt) in
    let bytes = framed-IsBytes prompt text in
    let inside = framed-inside prompt in
    let r = answer_loop P 256 model 160 0 8 right (framed prompt) [] waiting in
    let k : Recorded P model network (framed prompt) 8 right inside bytes [] none 160 r =
      subst
        (λ l.
          Recorded P model network (framed prompt) 8 right inside bytes [] none 160
            (answer_loop P 256 model 160 0 8 right l [] waiting))
        (append-nil (framed prompt))
        (answer_loop-Recorded P model network (framed prompt) 8 right inside bytes 160 [] none
          waiting (unfold Fits in refl) (omega arith) refl) in
    let roomy : not (ltb 256 (length (framed prompt))) ≡ true = ground arith in
    (
      (decode r.0, r.1, r.0),
      generate_with_events-returns P model prompt roomy clean,
      audit_events-passes P prompt r.0 r.1 k.short k.valid k.audited k.trigger,
    )
