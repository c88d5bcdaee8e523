-- ===== src/Training/Diagnosis/Points.antt =====
-- One point of a scaffolded name, audited, and the tokens behind it.
use npp_ai.Prelude.{
  ℕ, zero, suc, ◌+◌, ◌<◌, ◌≤◌, ◌≡◌, refl, sym, ap, subst, ◌∙◌, Bool, true, false, not, ◌&&◌, ◌||◌,
  Option, none, some, List, [], ◌∷◌, ◌++◌, append_assoc, all, all-append, take, take-append, length,
  length-append, ltb, leb, ◌==◌, if◌then◌else◌, arith,
}
use npp_ai.Text.{Bytes, text_eq}
use npp_ai.Text.Utf8.{encode}
use npp_ai.Python.Int.{ℤ, pos, negsuc}
use npp_ai.Python.Exceptions.{ok}
use npp_ai.Training.Records.{Record}
use npp_ai.Training.Transition.{at, Plan, Readout, Parts, step}
use npp_ai.Training.Replay.{Traced, last_peak, delta, ends_name}
use npp_ai.Training.Diagnosis.{
  Measures, audit_point, same_bool, same_delta, peak_of, is_intact, audit_traced, audit_trace_from,
}
use npp_ai.Training.Diagnosis.Laws.{IsSound}
use npp_ai.Training.Diagnosis.Steps.{Framed, audit_point-step}

at-unmarked :
    (mask : List Bool) (i : ℕ) → at (mask ++ (false ∷ [])) i ≡ some true → at mask i ≡ some true
unfolding at
at-unmarked [] zero h = absurd (cc h)
at-unmarked [] (suc i) h = absurd (cc h)
at-unmarked (b ∷ mask) zero h = h
at-unmarked (b ∷ mask) (suc i) h = at-unmarked mask i h

module _ (R : Readout) (M : Measures R) where
  pub same_bool_refl : (b : Bool) → same_bool R M b b ≡ true
  unfolding same_bool
  same_bool_refl true = refl
  same_bool_refl false = refl

  same_delta_refl : (d : Option ℤ) → same_delta R M d d ≡ true
  unfolding same_delta
  same_delta_refl none = refl
  same_delta_refl (some (pos n)) = ground arith
  same_delta_refl (some (negsuc n)) = ground arith

  pub last_peak-append :
      (trace : List (Traced R)) (t : Traced R)
      → last_peak R (trace ++ (t ∷ [])) ≡ some t.point.peak_position
  unfolding last_peak
  last_peak-append [] t = refl
  last_peak-append (a ∷ []) t = refl
  last_peak-append (a ∷ b ∷ trace) t = last_peak-append (b ∷ trace) t

  pub goes_on :
      (is_last : Bool) (token : ℕ)
      → ends_name R token ≡ false
      → (is_last || not (ends_name R token)) ≡ true
  goes_on true token h = refl
  goes_on false token h = rw h refl

  audit_traced-of :
      (p : Plan) (row : Record) (bytes : Bytes) (i : ℕ) (is_last : Bool)
      (before : Option (Traced R)) (t : Traced R)
      → let intact = is_intact R M p bytes i in
        audit_point R M p row t.point
            (if intact then at p.target i else none)
            (if intact then at p.sources i else none)
          ≡ ok tt
        → (t.offset == i) ≡ true
        → same_bool R M t.intact (is_intact R M p bytes i) ≡ true
        → same_bool R M t.peak_in_name (
            leb p.start t.point.peak_position
            && ltb (t.point.peak_position + 1) (p.start + length p.target))
          ≡ true
        → same_delta R M t.peak_delta (delta R (peak_of R M before) t.point.peak_position) ≡ true
        → (is_last || not (ends_name R t.point.predicted)) ≡ true
        → audit_traced R M p row bytes i is_last before t ≡ ok tt
  unfolding audit_traced
  audit_traced-of p row bytes i is_last before t a b c d e g = rw (a, b, c, d, e, g)

  pub audit_trace_from-append :
      (p : Plan) (row : Record) (bytes : Bytes) (i : ℕ) (before : Option (Traced R)) (t : Traced R)
      (rest : List (Traced R))
      → ((is_last : Bool) → audit_traced R M p row bytes i is_last before t ≡ ok tt)
      → audit_trace_from R M p row bytes (i + 1) (some t) rest ≡ ok tt
      → audit_trace_from R M p row bytes i before (t ∷ rest) ≡ ok tt
  unfolding audit_trace_from
  audit_trace_from-append p row bytes i before t [] first later = first true
  audit_trace_from-append p row bytes i before t (t' ∷ rest) first later = rw (first false, later)

  module _ (width : ℕ) (components : List ℕ → List Bool → Parts R) (sound : IsSound R M components)
      (wide : 0 < width) (p : Plan) (row : Record)
      (inside : 8 + length (encode row.prompt) ≤ length p.prefix)
      (prefix_bytes : all (λ b. ltb b 256) p.prefix ≡ true) where
    abbrev pub Ready : List ℕ → List Bool → Type 0
    Ready = Framed R M width components sound wide p row inside prefix_bytes

    -- The point that the loop records in a round.
    unfoldable pub traced_at : ℕ → List ℕ → List Bool → Bytes → List (Traced R) → Traced R
    traced_at offset tokens mask bytes trace =
        let intact = text_eq bytes (take offset p.target) && ltb offset (length p.target) in
        let item =
          step R width components tokens mask (if intact then at p.target offset else none)
            (if intact then at p.sources offset else none) in
        let peak = item.peak_position in
        record {
          point = item;
          offset = offset;
          intact = intact;
          peak_in_name = leb p.start peak && ltb (peak + 1) (p.start + length p.target);
          peak_delta = delta R (last_peak R trace) peak;
        }

    is_intact-append :
        (offset : ℕ) (bytes more : Bytes)
        → length bytes ≡ offset
        → is_intact R M p (bytes ++ more) offset
          ≡ (text_eq bytes (take offset p.target) && ltb offset (length p.target))
    unfolding is_intact
    is_intact-append offset bytes more e =
        let head : take offset (bytes ++ more) ≡ bytes =
          subst (λ n. take n (bytes ++ more) ≡ bytes) e (take-append bytes more) in
        ap (λ l. text_eq l (take offset p.target) && ltb offset (length p.target)) head

    pub audit_traced-at :
        (offset : ℕ) (tokens : List ℕ) (mask : List Bool) (bytes more : Bytes)
        (trace : List (Traced R)) (before : Option (Traced R)) (is_last : Bool)
        → length bytes ≡ offset
        → Ready tokens mask
        → peak_of R M before ≡ last_peak R trace
        → let t = traced_at offset tokens mask bytes trace in
          (is_last || not (ends_name R t.point.predicted)) ≡ true
          → audit_traced R M p row (bytes ++ more) offset is_last before t ≡ ok tt
    unfolding traced_at
    audit_traced-at offset tokens mask bytes more trace before is_last place ready last goes =
        let t = traced_at offset tokens mask bytes trace in
        let intact = text_eq bytes (take offset p.target) && ltb offset (length p.target) in
        let same : is_intact R M p (bytes ++ more) offset ≡ intact =
          is_intact-append offset bytes more place in
        let here : (offset == offset) ≡ true = ground arith in
        let passes : audit_point R M p row t.point
              (if is_intact R M p (bytes ++ more) offset then at p.target offset else none)
              (if is_intact R M p (bytes ++ more) offset then at p.sources offset else none)
            ≡ ok tt =
          subst
            (λ b.
              audit_point R M p row t.point (if b then at p.target offset else none)
                (if b then at p.sources offset else none)
              ≡ ok tt)
            (sym same)
            (audit_point-step R M width components sound wide p row inside prefix_bytes tokens mask
              ready (if intact then at p.target offset else none)
              (if intact then at p.sources offset else none)) in
        audit_traced-of p row (bytes ++ more) offset is_last before t passes here
          (subst (λ b. same_bool R M intact b ≡ true) (sym same) (same_bool_refl intact))
          (same_bool_refl t.peak_in_name)
          (subst (λ l. same_delta R M t.peak_delta (delta R l t.point.peak_position) ≡ true)
            (sym last) (same_delta_refl t.peak_delta))
          goes

    -- The next token of a framed answer.
    pub step-Framed :
        (tokens : List ℕ) (mask : List Bool) (token : ℕ)
        → Ready tokens mask
        → ltb token 256 ≡ true
        → Ready (tokens ++ (token ∷ [])) (mask ++ (false ∷ []))
    step-Framed tokens mask token f small = record {
      more = f.more ++ (token ∷ []);
      whole = ap (λ l. l ++ (token ∷ [])) f.whole ∙ append_assoc p.prefix f.more (token ∷ []);
      low = all-append (λ b. ltb b 256) tokens (token ∷ []) ∙ rw (f.low, small);
      size =
          length-append mask (false ∷ [])
          ∙ ap (λ n. n + 1) f.size
          ∙ sym (length-append tokens (token ∷ []));
      filled = omega (arith, length-append tokens (token ∷ []), f.filled);
      prompt = λ i h. f.prompt i (at-unmarked mask i h);
    }
