-- ===== src/Training/Diagnosis/Steps.antt =====
-- The points that a replay records, audited.
use npp_ai.Prelude.{
  ℕ, ◌+◌, ◌-◌, ◌<◌, ◌≤◌, ◌≡◌, refl, sym, ap, ◌∙◌, Bool, true, ◌&&◌, Option, none, some, List, ◌++◌,
  all, length, ltb, leb, lt→ltb, arith, if◌then◌else◌, if_intro, all-append,
}
use npp_ai.Text.{Bytes}
use npp_ai.Text.Edit.{last_part}
use npp_ai.Text.Utf8.{encode}
use npp_ai.Python.Exceptions.{ok}
use npp_ai.Training.Records.{Record}
use npp_ai.Training.Copy.{last_marks}
use npp_ai.Training.Transition.{
  at, Plan, Readout, Parts, entry, logs, Point, target_of, aligned_of, point, step,
}
use npp_ai.Training.Sequential.Window.{at-append_left, at-all, at-drop, length-drop}
use npp_ai.Training.Diagnosis.{
  Measures, is_byte, target_probabilities, aligned_probabilities, probabilities_of, in_prompt,
  check_mixture, audit_point,
}
use npp_ai.Training.Diagnosis.Laws.{
  IsSound, at-some, length-logs, due-target, due-aligned, in_prompt_of, audit_point-of,
}

module _ (R : Readout) (M : Measures R) (width : ℕ) (components : List ℕ → List Bool → Parts R)
    (sound : IsSound R M components) (wide : 0 < width) (p : Plan) (row : Record)
    (inside : 8 + length (encode row.prompt) ≤ length p.prefix)
    (prefix_bytes : all (λ b. ltb b 256) p.prefix ≡ true) where
  -- Tokens that start with the prefix, and marks of nothing but the prompt.
  pub record Framed (tokens : List ℕ) (marks : List Bool) : Type 0 where
    pub more : Bytes
    pub whole : tokens ≡ p.prefix ++ more
    pub low : all (λ b. ltb b 256) tokens ≡ true
    pub size : length marks ≡ length tokens
    pub filled : 0 < length tokens
    pub prompt : (i : ℕ) → at marks i ≡ some true → (8 ≤ i) × (i < 8 + length (encode row.prompt))

  module _ (tokens : List ℕ) (marks : List Bool) (f : Framed tokens marks)
      (expected source : Option ℕ) where
    abbrev x : List ℕ
    x = last_part width tokens

    abbrev offset : ℕ
    offset = length tokens - length x

    abbrev parts : Parts R
    parts = components x (last_marks width marks)

    abbrev peak : ℕ
    peak = R.argmax parts.attention

    length-x : length x ≡ length tokens - (length tokens - width)
    length-x = length-drop (length tokens - width) tokens

    window : offset ≡ length tokens - width
    window = omega (arith, length-x)

    peak_low : peak < length x
    peak_low =
        let size = sound.attention_size x (last_marks width marks) in
        let some_token : 0 < length parts.attention =
          omega (arith, size, length-x, f.filled, wide) in
        omega (arith, sound.largest parts.attention some_token, size)

    -- The byte under the peak, in the window and in all tokens.
    peak_at : at x peak ≡ at tokens (peak + offset)
    peak_at =
        let place : length tokens - width + peak ≡ peak + offset = omega (arith, window) in
        at-drop (length tokens - width) peak tokens ∙ ap (at tokens) place

    mark-at : at (last_marks width marks) peak ≡ at marks (peak + offset)
    mark-at =
        let place : length marks - width + peak ≡ peak + offset = omega (arith, window, f.size) in
        at-drop (length marks - width) peak marks ∙ ap (at marks) place

    abbrev pub the_point : Point R
    the_point = step R width components tokens marks expected source

    in_prompt-step : in_prompt R M p.prefix (8 + length (encode row.prompt)) the_point ≡ true
    unfolding step point
    in_prompt-step =
        let (b, e) = at-some x peak peak_low in
        in_prompt_of R M p.prefix (8 + length (encode row.prompt)) b the_point e (λ positive.
          let marked = sym mark-at ∙ sound.on_marks x (last_marks width marks) peak positive in
          let (low, high) = f.prompt (peak + offset) marked in
          let here : peak + offset < length p.prefix = omega (arith, high, inside) in
          (
            low,
            high,
            sym (at-append_left p.prefix f.more (peak + offset) here)
                ∙ ap (λ l. at l (peak + offset)) (sym f.whole)
                ∙ sym peak_at
                ∙ e,
          ))

    peak_is_byte : is_byte (at x peak) ≡ true
    peak_is_byte =
        let (b, e) = at-some x peak peak_low in
        ap is_byte e
        ∙ (unfold is_byte in
            at-all (λ c. ltb c 256) tokens (peak + offset) b f.low (sym peak_at ∙ e))

    pub predicted_low : ltb the_point.predicted 256 ≡ true
    unfolding step point
    predicted_low =
        let size = length-logs R parts.mixed ∙ sound.mixed_size x (last_marks width marks) in
        lt→ltb _ 256 (omega (arith, size, sound.largest (logs R parts.mixed) (omega (arith, size))))

    vocab_low : ltb the_point.vocab_predicted 256 ≡ true
    unfolding step point
    vocab_low =
        let size = sound.vocab_size x (last_marks width marks) in
        lt→ltb _ 256 (omega (arith, size, sound.largest parts.vocab (omega (arith, size))))

    pointer_low : ltb the_point.pointer_predicted 256 ≡ true
    unfolding step point
    pointer_low =
        let size = sound.copy_size x (last_marks width marks) in
        lt→ltb _ 256 (omega (arith, size, sound.largest parts.copy (omega (arith, size))))

    target_units :
        (e : Option ℕ)
        → all M.is_probability (target_probabilities R M (target_of R parts e)) ≡ true
    unfolding target_probabilities target_of
    target_units none = refl
    target_units (some e) = rw (
      sound.mixed_unit x (last_marks width marks) e,
      sound.vocab_unit x (last_marks width marks) e,
      sound.copy_unit x (last_marks width marks) e,
    )

    aligned_units :
        (e : Option ℕ)
        → all M.is_probability (aligned_probabilities R M (aligned_of R parts x offset e)) ≡ true
    unfolding aligned_probabilities aligned_of
    aligned_units none = refl
    aligned_units (some e) =
        let unit : M.is_probability (
              if leb offset e && ltb (e - offset) (length x)
              then entry R parts.attention (e - offset)
              else R.zero_float)
            ≡ true =
          if_intro (λ v. M.is_probability v ≡ true) (leb offset e && ltb (e - offset) (length x))
            (λ _. sound.attention_unit x (last_marks width marks) (e - offset))
            (λ _. sound.zero_unit) in
        rw unit

    units : all M.is_probability (probabilities_of R M the_point) ≡ true
    unfolding step point probabilities_of
    units =
        let rest =
          all-append M.is_probability (target_probabilities R M (target_of R parts expected))
            (aligned_probabilities R M (aligned_of R parts x offset source)) in
        rw (
          sound.gate_unit x (last_marks width marks),
          sound.attention_unit x (last_marks width marks) peak,
          sound.mixed_unit x (last_marks width marks) (R.argmax (logs R parts.mixed)),
          sound.vocab_unit x (last_marks width marks) (R.argmax (logs R parts.mixed)),
          sound.copy_unit x (last_marks width marks) (R.argmax (logs R parts.mixed)),
          rest,
          target_units expected,
          aligned_units source,
        )

    target_mixes : (e : Option ℕ) → check_mixture R M the_point (target_of R parts e) ≡ ok tt
    unfolding step point check_mixture target_of
    target_mixes none = refl
    target_mixes (some e) = rw (sound.mixes x (last_marks width marks) e)

    bytes_low :
        (ltb the_point.predicted 256
          && ltb the_point.vocab_predicted 256
          && ltb the_point.pointer_predicted 256
          && is_byte the_point.peak_byte)
        ≡ true
    bytes_low =
        let peak_byte : is_byte the_point.peak_byte ≡ true = unfold step point in peak_is_byte in
        rw (predicted_low, vocab_low, pointer_low, peak_byte)

    mixes :
        M.is_close the_point.predicted_probability (
          M.mixture the_point.gate the_point.predicted_vocab_probability
            the_point.predicted_pointer_probability)
        ≡ true
    unfolding step point
    mixes = sound.mixes x (last_marks width marks) (R.argmax (logs R parts.mixed))

    -- A point that the replay of a framed answer records passes the audit.
    pub audit_point-step :
        audit_point R M p row (step R width components tokens marks expected source) expected source
        ≡ ok tt
    audit_point-step =
        let (no_target, target) = due-target R M parts x offset expected in
        let (no_source, aligned) = due-aligned R M parts x offset source in
        unfold step point in
        audit_point-of R M p row the_point expected source no_target no_source bytes_low target
          aligned units in_prompt-step mixes (target_mixes expected)
