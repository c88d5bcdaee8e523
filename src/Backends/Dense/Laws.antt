-- ===== src/Backends/Dense/Laws.antt =====
-- What greedy decoding returns.
use npp_ai.Prelude.{
  ℕ, zero, suc, ◌+◌, ◌≤◌, ◌≡◌, ◌≢◌, refl, ◌∙◌, sym, subst, true, false, List, [], ◌∷◌, ◌++◌,
  append_assoc, append-nil, length, length-append, all, ltb, ◌==◌, Bool-cases, inl, inr, arith,
}
use npp_ai.Text.{Text, Bytes}
use npp_ai.Text.Utf8.{is_text, encode, decode}
use npp_ai.Text.Utf8.RoundTrip.{decode-encode_append}
use npp_ai.Text.Utf8.Bounds.{is_text-decode, length-decode}
use npp_ai.Python.Exceptions.{ok}
use npp_ai.Protocol.{
  GenerationRequest, GenerationResponse, FinishReason, eos, length_limit, format_prompt,
}
use npp_ai.Protocol.Laws.{IsRequest, IsResponse, make_response_valid}
use npp_ai.Backends.Dense.{Network, Decoded, argmax, greedy, generate}

module _ (net : Network) where
  -- A greedy decoding, said without accumulators: behind `tokens`, with so many rounds left, the
  -- model emits these bytes, and stops at a zero byte or for want of rounds.
  pub data Emits : List ℕ → ℕ → Bytes → ℕ → FinishReason → Type 0 where
    stop :
        {tokens : List ℕ} {rounds : ℕ}
        → argmax net (net.logits tokens) ≡ 0
        → Emits tokens (suc rounds) [] 1 eos
    spent : {tokens : List ℕ} → Emits tokens zero [] 0 length_limit
    next :
        {tokens : List ℕ} {rounds count : ℕ} {bytes : Bytes} {reason : FinishReason} (token : ℕ)
        → argmax net (net.logits tokens) ≡ token
        → token ≢ 0
        → Emits (tokens ++ (token ∷ [])) rounds bytes count reason
        → Emits tokens (suc rounds) (token ∷ bytes) (suc count) reason

  -- The loop that starts behind `output` has decoded greedily.
  pub record Run (rounds : ℕ) (tokens : List ℕ) (output : Bytes) (count : ℕ) (d : Decoded)
      : Type 0 where
    pub new : Bytes
    pub used : ℕ
    pub emitted : Emits tokens rounds new used d.reason
    pub bytes : d.bytes ≡ output ++ new
    pub counted : d.count ≡ count + used

  Emits-bound :
      {tokens : List ℕ} {rounds : ℕ} {bytes : Bytes} {count : ℕ} {reason : FinishReason}
      → Emits tokens rounds bytes count reason
      → (count ≤ rounds) × (length bytes ≤ count)
  Emits-bound (stop h) = (omega arith, omega arith)
  Emits-bound spent = (omega arith, omega arith)
  Emits-bound (next token e n rest) = let (x, y) = Emits-bound rest in (omega arith, omega arith)

  module _ (finite : (tokens : List ℕ) → all net.is_finite (net.logits tokens) ≡ true) where
    greedy-Run :
        (rounds : ℕ) (tokens : List ℕ) (output : Bytes) (count : ℕ)
        → (d : Decoded) × (greedy net rounds tokens output count ≡ ok d)
          × Run rounds tokens output count d
    unfolding greedy
    greedy-Run zero tokens output count = (
      record { bytes = output; count = count; reason = length_limit },
      refl,
      record { new = []; used = 0; emitted = spent; bytes = rw append-nil; counted = omega arith },
    )
    greedy-Run (suc rounds) tokens output count =
        elim (Bool-cases (argmax net (net.logits tokens) == 0)) [
          | inl done ↦ (
            record { bytes = output; count = count + 1; reason = eos },
            rw (finite tokens, done),
            record {
              new = [];
              used = 1;
              emitted = stop (ground arith);
              bytes = rw append-nil;
              counted = refl;
            },
          )
          | inr more ↦
              let token = argmax net (net.logits tokens) in
              let (d, same, run) =
                greedy-Run rounds (tokens ++ (token ∷ [])) (output ++ (token ∷ [])) (count + 1) in
              (
                d,
                rw (finite tokens, more) same,
                record {
                  new = token ∷ run.new;
                  used = suc run.used;
                  emitted = next token refl (ground arith) run.emitted;
                  bytes = run.bytes ∙ append_assoc output (token ∷ []) run.new;
                  counted = run.counted ∙ omega arith;
                },
              )
        ]

    module _ (model_id : Text) (prompt_bytes : ℕ) where
      -- What a request gets: a response that meets the protocol, and is the prefix that was asked
      -- for with the greedy bytes of the model behind it.
      pub record Answers (payload : GenerationRequest) (text : Text) (r : GenerationResponse)
          : Type 0 where
        pub valid : IsResponse r
        pub identity : r.model_id ≡ model_id
        pub budget : r.generated_tokens ≤ payload.max_new_tokens
        pub bytes : Bytes
        pub output : r.output ≡ payload.assistant_prefix ++ decode bytes
        pub greedy_bytes :
            Emits
              (encode (text ++ payload.assistant_prefix))
              payload.max_new_tokens
              bytes
              r.generated_tokens
              r.finish_reason

      -- A valid request whose prompt fits the context is answered: with finite logits the loop
      -- ends, the response passes its own validation, keeps the prefix, stays in the budget, and
      -- holds what greedy decoding emits.
      pub generate-Answers :
          (payload : GenerationRequest) (text : Text)
          → is_text model_id ≡ true
          → 1 ≤ length model_id
          → length model_id ≤ 128
          → IsRequest payload
          → format_prompt payload prompt_bytes ≡ ok text
          → length (encode (text ++ payload.assistant_prefix)) ≤ net.context
          → (r : GenerationResponse) × (generate net model_id prompt_bytes payload ≡ ok r)
            × Answers payload text r
      unfolding generate
      generate-Answers payload text id low high valid formatted fits =
          let prefix = payload.assistant_prefix in
          let tokens = encode (text ++ prefix) in
          let (d, same, run) = greedy-Run payload.max_new_tokens tokens (encode prefix) 0 in
          let (spent_, short) = Emits-bound run.emitted in
          let output : decode d.bytes ≡ prefix ++ decode run.new =
            rw run.bytes (decode-encode_append prefix run.new valid.prefix_text) in
          let sized : length (decode d.bytes) ≤ 2048 = rw output (
            omega (
              arith,
              length-append prefix (decode run.new),
              length-decode run.new,
              valid.prefix_max,
              valid.tokens_max,
              spent_,
              short,
            )) in
          let r : GenerationResponse = record {
            model_id = model_id;
            output = decode d.bytes;
            generated_tokens = d.count;
            finish_reason = d.reason;
          } in
          let counted : d.count ≡ run.used = run.counted ∙ omega arith in
          let response : IsResponse r = record {
            id_text = id;
            output_text = is_text-decode d.bytes;
            id_min = low;
            id_max = high;
            output_max = sized;
            tokens_max = omega (arith, counted, spent_, valid.tokens_max);
          } in
          let room : ltb net.context (length tokens) ≡ false = ground arith in
          (
            r,
            rw (formatted, room, same) (make_response_valid r response),
            record {
              valid = response;
              identity = refl;
              budget = omega (arith, counted, spent_);
              bytes = run.new;
              output = output;
              greedy_bytes =
                  subst (λ n. Emits tokens payload.max_new_tokens run.new n d.reason) (sym counted)
                    run.emitted;
            },
          )
