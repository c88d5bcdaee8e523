-- ===== src/Training/Diagnosis/Loop.antt =====
-- The loop of a scaffolded name, whose trace is audited from any place.
use npp_ai.Prelude.{
  ℕ, zero, suc, ◌+◌, ◌<◌, ◌≤◌, ◌≡◌, refl, sym, subst, ◌∙◌, Bool, true, false, ◌&&◌, Bool-cases, inl,
  inr, Option, none, some, List, [], ◌∷◌, ◌++◌, append_assoc, append-nil, all, map, take, length,
  length-append, ltb, if◌then◌else◌, arith,
}
use npp_ai.Text.{Bytes, text_eq}
use npp_ai.Text.Utf8.{encode}
use npp_ai.Python.Exceptions.{ok}
use npp_ai.Training.Records.{Record}
use npp_ai.Training.Transition.{at, Plan, Readout, Parts, step}
use npp_ai.Training.Replay.{Traced, last_peak, ends_name, scaffold_loop}
use npp_ai.Training.Diagnosis.{Measures, peak_of, audit_traced, audit_trace_from}
use npp_ai.Training.Diagnosis.Laws.{IsSound}
use npp_ai.Training.Diagnosis.Steps.{predicted_low}
use npp_ai.Training.Diagnosis.Points.{
  audit_trace_from-append, goes_on, last_peak-append, audit_traced-at, step-Framed, traced_at,
  Ready,
}

module _ (R : Readout) (M : Measures R) (width : ℕ) (components : List ℕ → List Bool → Parts R)
    (sound : IsSound R M components) (wide : 0 < width) (p : Plan) (row : Record)
    (inside : 8 + length (encode row.prompt) ≤ length p.prefix)
    (prefix_bytes : all (λ b. ltb b 256) p.prefix ≡ true) where
  -- What the loop adds to the bytes and to the trace.
  pub record Grown (rounds offset : ℕ) (bytes : Bytes) (trace : List (Traced R))
      (before : Option (Traced R)) (r : Bytes × List (Traced R)) : Type 0 where
    pub added : List (Traced R)
    pub bytes_grow : r.0 ≡ bytes ++ map (λ (t : Traced R). t.point.predicted) added
    pub trace_grows : r.1 ≡ trace ++ added
    pub few : length added ≤ rounds
    pub some_point : 0 < rounds → 0 < length added
    pub audited :
        audit_trace_from R M p row
          (bytes ++ map (λ (t : Traced R). t.point.predicted) added)
          offset
          before
          added
        ≡ ok tt

  no_round :
      (offset : ℕ) (bytes : Bytes) (trace : List (Traced R)) (before : Option (Traced R))
      → Grown 0 offset bytes trace before (bytes, trace)
  no_round offset bytes trace before = record {
    added = [];
    bytes_grow = sym (append-nil bytes);
    trace_grows = sym (append-nil trace);
    few = omega arith;
    some_point = λ h. h;
    audited = unfold audit_trace_from in refl;
  }

  module _ (rounds offset : ℕ) (bytes : Bytes) (trace : List (Traced R))
      (before : Option (Traced R)) (t : Traced R) where
    last_round :
        (audit_traced R M p row (bytes ++ (t.point.predicted ∷ [])) offset true before t ≡ ok tt)
        → Grown
            (suc rounds)
            offset
            bytes
            trace
            before
            (bytes ++ (t.point.predicted ∷ []), trace ++ (t ∷ []))
    last_round h = record {
      added = t ∷ [];
      bytes_grow = refl;
      trace_grows = refl;
      few = omega arith;
      some_point = λ h. omega arith;
      audited = unfold audit_trace_from in h;
    }

    next_round :
        (r : Bytes × List (Traced R))
        → ((more : Bytes) (is_last : Bool)
            → audit_traced R M p row (bytes ++ more) offset is_last before t ≡ ok tt)
        → Grown rounds
            (offset + 1)
            (bytes ++ (t.point.predicted ∷ []))
            (trace ++ (t ∷ []))
            (some t)
            r
        → Grown (suc rounds) offset bytes trace before r
    next_round r first later =
        let tail = map (λ (t : Traced R). t.point.predicted) later.added in
        let same : (bytes ++ (t.point.predicted ∷ [])) ++ tail
            ≡ bytes ++ (t.point.predicted ∷ tail) =
          append_assoc bytes (t.point.predicted ∷ []) tail in
        record {
          added = t ∷ later.added;
          bytes_grow = later.bytes_grow ∙ same;
          trace_grows = later.trace_grows ∙ append_assoc trace (t ∷ []) later.added;
          few = omega (arith, later.few);
          some_point = λ h. omega arith;
          audited =
              audit_trace_from-append R M p row (bytes ++ (t.point.predicted ∷ tail)) offset before
                t later.added (first (t.point.predicted ∷ tail))
                (subst (λ l. audit_trace_from R M p row l (offset + 1) (some t) later.added ≡ ok tt)
                  same later.audited);
        }

  scaffold_loop-suc :
      (rounds offset : ℕ) (tokens : List ℕ) (mask : List Bool) (bytes : Bytes)
      (trace : List (Traced R))
      → let t =
          traced_at R M width components sound wide p row inside prefix_bytes offset tokens mask
            bytes trace in
        let token = t.point.predicted in
        scaffold_loop R p (step R width components) (suc rounds) offset tokens mask bytes trace
        ≡ (elim (ends_name R token) [
          | true ↦ (bytes ++ (token ∷ []), trace ++ (t ∷ []))
          | false ↦
              scaffold_loop R p
                (step R width components)
                rounds
                (offset + 1)
                (tokens ++ (token ∷ []))
                (mask ++ (false ∷ []))
                (bytes ++ (token ∷ []))
                (trace ++ (t ∷ []))
        ])
  unfolding scaffold_loop traced_at
  scaffold_loop-suc rounds offset tokens mask bytes trace = refl

  pub scaffold_loop-Grown :
      (rounds offset : ℕ) (tokens : List ℕ) (mask : List Bool) (bytes : Bytes)
      (trace : List (Traced R)) (before : Option (Traced R))
      → length bytes ≡ offset
      → Ready R M width components sound wide p row inside prefix_bytes tokens mask
      → peak_of R M before ≡ last_peak R trace
      → Grown rounds offset bytes trace before
          (scaffold_loop R p (step R width components) rounds offset tokens mask bytes trace)
  scaffold_loop-Grown zero offset tokens mask bytes trace before place ready last =
      unfold scaffold_loop in no_round offset bytes trace before
  scaffold_loop-Grown (suc rounds) offset tokens mask bytes trace before place ready last =
      let t =
        traced_at R M width components sound wide p row inside prefix_bytes offset tokens mask bytes
          trace in
      let token = t.point.predicted in
      let intact = text_eq bytes (take offset p.target) && ltb offset (length p.target) in
      let small : ltb token 256 ≡ true =
        unfold traced_at in
        predicted_low R M width components sound wide p row inside prefix_bytes tokens mask ready
          (if intact then at p.target offset else none)
          (if intact then at p.sources offset else none) in
      let r =
        scaffold_loop R p (step R width components) rounds (offset + 1) (tokens ++ (token ∷ []))
          (mask ++ (false ∷ [])) (bytes ++ (token ∷ [])) (trace ++ (t ∷ [])) in
      subst (Grown (suc rounds) offset bytes trace before)
        (sym (scaffold_loop-suc rounds offset tokens mask bytes trace))
        (elim (Bool-cases (ends_name R token)) [
          | inl ends ↦ rw ends (
              last_round rounds offset bytes trace before t (
                audit_traced-at R M width components sound wide p row inside prefix_bytes offset
                  tokens mask bytes (token ∷ []) trace before true place ready last refl))
          | inr goes ↦ rw goes (
              next_round rounds offset bytes trace before t r
                (λ more is_last.
                  audit_traced-at R M width components sound wide p row inside prefix_bytes offset
                    tokens mask bytes more trace before is_last place ready last
                    (goes_on R M is_last token goes))
                (scaffold_loop-Grown rounds (offset + 1) (tokens ++ (token ∷ []))
                  (mask ++ (false ∷ [])) (bytes ++ (token ∷ [])) (trace ++ (t ∷ [])) (some t)
                  (omega (arith, length-append bytes (token ∷ []), place))
                  (step-Framed R M width components sound wide p row inside prefix_bytes tokens mask
                    token ready small)
                  (sym (last_peak-append R M trace t))))
        ])
