-- ===== src/Decoding/Generate/Laws.antt =====
-- What an answer of Decoding/Generate comes from: the legacy attempt or the search.
use npp_ai.Prelude.{
  ℕ, ◌≡◌, refl, sym, subst, ◌∙◌, ◌⊎◌, inl, inr, Option, none, some, List, [], ◌∷◌, ◌++◌, length,
  not, ltb, arith,
}
use npp_ai.Text.{Text, Bytes}
use npp_ai.Text.Utf8.{encode, decode}
use npp_ai.Python.Exceptions.{ok, require, >>=-eq-ok}
use npp_ai.Protocol.{GenerationRequest, GenerationResponse, format_prompt}
use npp_ai.Backends.Dense.{Network}
use npp_ai.Decoding.Structure.{Language, Signature, acceptable, declaration}
use npp_ai.Decoding.Legacy.{legacy_function}
use npp_ai.Decoding.Beam.{Scored, Candidate, root, search, choose}
use npp_ai.Decoding.Beam.Laws.{Won, search-Searched, choose-Won}
use npp_ai.Decoding.Beam.Rounds.{Open}
use npp_ai.Decoding.Generate.{code_of, respond, decode_beam, generate}
use npp_ai.Decoding.Legacy.Laws.{make_response-fields, Direct, legacy_function-Direct}

module _ (net : Network) (model : Scored) (lang : Language) (model_id : Text) where
  -- An answer of the search: the search from `prefix`, its winner, and the code of that.
  pub record Found (limit : ℕ) (header : Text) (signature : Option Signature)
      (r : GenerationResponse) : Type 0 where
    pub prefix : List ℕ
    pub left : List (Candidate model) × List (Candidate model) × Option (Candidate model)
    pub searched :
        search model
          (λ body. acceptable lang (code_of net model lang model_id header body) signature)
          prefix
          limit
          (root model ∷ [])
          []
          none
        ≡ ok left
    pub winner : Candidate model
    pub output : r.output ≡ header ++ decode winner.body
    pub tokens : r.generated_tokens ≡ winner.count
    pub won :
        Won model
          (λ body. acceptable lang (header ++ decode body) signature)
          limit
          left.1
          (winner, r.finish_reason)

  decode_beam-Found :
      (prompt_bytes : ℕ) (payload : GenerationRequest) (header : Text)
      (signature : Option Signature)
      → (r : GenerationResponse)
      → decode_beam net model lang model_id prompt_bytes payload header signature ≡ ok r
      → Found payload.max_new_tokens header signature r
  unfolding decode_beam respond Open
  decode_beam-Found prompt_bytes payload header signature r h =
      let accepts = λ (body : Bytes). acceptable lang (header ++ decode body) signature in
      let (text, formatted, rest) = >>=-eq-ok (format_prompt payload prompt_bytes) _ h in
      let prefix = encode (text ++ header) in
      let (u, fits, rest') = >>=-eq-ok (require (not (ltb net.context (length prefix))) _) _ rest in
      let (left, searched, rest'') =
        >>=-eq-ok (search model accepts prefix payload.max_new_tokens (root model ∷ []) [] none) _
          rest' in
      let (chosen, picked, made) = >>=-eq-ok (choose model left.0 left.1 left.2) _ rest'' in
      let s =
        search-Searched model accepts prefix payload.max_new_tokens 0 payload.max_new_tokens
          (root model ∷ []) [] none (omega arith) ((refl, refl), tt) tt tt (omega arith) left
          searched in
      let (o, n, f) =
        make_response-fields model_id (header ++ decode chosen.0.body) chosen.0.count chosen.1 r
          made in
      record {
        prefix = prefix;
        left = left;
        searched = searched;
        winner = chosen.0;
        output = o;
        tokens = n;
        won =
            subst (λ reason. Won model accepts payload.max_new_tokens left.1 (chosen.0, reason))
              (sym f)
              (choose-Won model accepts payload.max_new_tokens left.0 left.1 left.2 s chosen
                picked);
      }

  -- What is done behind the legacy attempt.
  attempted :
      (prompt_bytes : ℕ) (payload : GenerationRequest) (header : Text)
      (signature : Option Signature)
      → (r : GenerationResponse) (legacy : Option GenerationResponse)
      → legacy_function net lang model_id payload signature ≡ ok legacy
      → elim legacy [
        | some r ↦ ok r
        | none ↦ decode_beam net model lang model_id prompt_bytes payload header signature
      ]
        ≡ ok r
      → ((s : Signature) × (signature ≡ some s)
          × Direct net lang model_id payload.max_new_tokens s r)
        ⊎ Found payload.max_new_tokens header signature r
  attempted prompt_bytes payload header signature r none tried h =
      inr (decode_beam-Found prompt_bytes payload header signature r h)
  attempted prompt_bytes payload header signature r (some r') tried h =
      let same : legacy_function net lang model_id payload signature ≡ ok (some r) = tried ∙ (cc) in
      inl (legacy_function-Direct net lang model_id payload signature r same)

  -- An answer belongs to the header and the signature that the request declares. Either the legacy
  -- attempt made it: it is ended by the model, a declared function that the checks accept, with a
  -- return of a value, within the token limit; or the search did: it is the header and the decoded
  -- bytes of a winner, counted as the winner is. A winner ended by the model has one token more
  -- than bytes, within the limit, and is accepted if the search finished any candidate; one that is
  -- cut has as many bytes and tokens as the limit, and the search finished none.
  pub generate-answer :
      (prompt_bytes : ℕ) (payload : GenerationRequest) (r : GenerationResponse)
      → generate net model lang model_id prompt_bytes payload ≡ ok r
      → (header : Text) × (signature : Option Signature) × (declaration lang payload
          ≡ ok (header, signature))
        × (((s : Signature) × (signature ≡ some s)
              × Direct net lang model_id payload.max_new_tokens s r)
            ⊎ Found payload.max_new_tokens header signature r)
  unfolding generate
  generate-answer prompt_bytes payload r h =
      let ((header, signature), declared, rest) = >>=-eq-ok (declaration lang payload) _ h in
      let (legacy, tried, ended) =
        >>=-eq-ok (legacy_function net lang model_id payload signature) _ rest in
      (
        header,
        signature,
        declared,
        attempted prompt_bytes payload header signature r legacy tried ended,
      )
