-- ===== src/Tests/Decoding.antt =====
-- An answer of python_function_decoding.py: the legacy attempt gives up, and the search finds a body.
use npp_ai.Prelude.{ℕ, ◌+◌, ◌≡◌, refl, ◌⊎◌, true, Option, some, [], ◌∷◌, length, ltb, if◌then◌else◌}
use npp_ai.Text.{Text, codes, text_eq}
use npp_ai.Text.Utf8.{encode}
use npp_ai.Python.Exceptions.{Result, ok}
use npp_ai.Protocol.{GenerationRequest, GenerationResponse, eos}
use npp_ai.Backends.Dense.{Network}
use npp_ai.Decoding.Structure.{
  Language, Signature, parsed, function_def, other_statement, table, no_tables, declaration,
}
use npp_ai.Decoding.Beam.{Scored}
use npp_ai.Decoding.Generate.{generate}
use npp_ai.Decoding.Legacy.Laws.{Direct}
use npp_ai.Decoding.Generate.Laws.{Found, generate-answer}

abbrev payload : GenerationRequest
payload = record {
  prompt = codes "p";
  context = [];
  assistant_prefix = codes "def f():";
  max_new_tokens = 3;
}

-- Its legacy attempt meets the end byte at once.
abbrev silent : Network
silent = record {
  Float = ℕ;
  less = ltb;
  is_finite = λ x. true;
  context = 256;
  logits = λ tokens. 1 ∷ 0 ∷ [];
}

-- It ranks "1" first for less than 31 tokens, and the end byte first from there on.
abbrev ranking : Scored
ranking = record {
  Score = ℕ;
  less = ltb;
  add = λ a b. a + b;
  zero_score = 0;
  ranked = λ tokens.
      some (if ltb (length tokens) 31 then (49, 2) ∷ (0, 0) ∷ [] else (0, 2) ∷ (49, 0) ∷ []);
}

-- One function without a return, whose names are all bound.
abbrev lang_f : Language
lang_f = record {
  parse = λ code. parsed (function_def (codes "f") [] (other_statement ∷ []) ∷ []);
  symbols = λ code. some (table [] no_tables);
  builtins = [];
  signatures = λ prompt. [];
}

abbrev generated : Result GenerationResponse
generated = generate silent ranking lang_f (codes "m") 0 payload

abbrev answer_f : GenerationResponse
answer_f = record {
  model_id = codes "m";
  output = codes "def f():11";
  generated_tokens = 3;
  finish_reason = eos;
}

generated_f : generated ≡ ok answer_f
unfolding generate npp_ai.Decoding.Generate.decode_beam npp_ai.Decoding.Generate.respond
    npp_ai.Decoding.Structure.declaration npp_ai.Decoding.Structure.declared
    npp_ai.Decoding.Structure.acceptable npp_ai.Decoding.Structure.acceptable_tree
    npp_ai.Decoding.Structure.one_function npp_ai.Decoding.Structure.functions_of
    npp_ai.Decoding.Structure.matches npp_ai.Decoding.Structure.is_plain
    npp_ai.Decoding.Structure.symbols_bound npp_ai.Decoding.Structure.names_of
    npp_ai.Decoding.Structure.bound npp_ai.Decoding.Legacy.legacy_function
    npp_ai.Decoding.Legacy.legacy_loop npp_ai.Decoding.Legacy.settle
    npp_ai.Decoding.Legacy.returns_value npp_ai.Decoding.Legacy.first_returns
    npp_ai.Decoding.Legacy.is_return npp_ai.Backends.Dense.argmax npp_ai.Backends.Dense.argmax_from
    npp_ai.Decoding.Beam.search npp_ai.Decoding.Beam.expand_beam npp_ai.Decoding.Beam.add_tokens
    npp_ai.Decoding.Beam.add_token npp_ai.Decoding.Beam.better npp_ai.Decoding.Beam.next_beam
    npp_ai.Decoding.Beam.sort_from npp_ai.Decoding.Beam.place npp_ai.Decoding.Beam.is_over
    npp_ai.Decoding.Beam.best_of npp_ai.Decoding.Beam.choose npp_ai.Protocol.format_prompt
    npp_ai.Protocol.prompt_text npp_ai.Protocol.system_header npp_ai.Protocol.user_header
    npp_ai.Protocol.ai_header npp_ai.Protocol.make_response npp_ai.Protocol.text_field
    npp_ai.Protocol.int_field npp_ai.Text.Utf8.encode npp_ai.Text.Utf8.encode_char
    npp_ai.Text.Utf8.decode npp_ai.Text.Utf8.is_text npp_ai.Text.Utf8.is_scalar text_eq
generated_f = refl

generate-answer_example :
    (header : Text) × (signature : Option Signature) × (declaration lang_f payload
      ≡ ok (header, signature))
    × (((s : Signature) × (signature ≡ some s) × Direct silent lang_f (codes "m") 3 s answer_f)
        ⊎ Found silent ranking lang_f (codes "m") 3 header signature answer_f)
generate-answer_example =
    generate-answer silent ranking lang_f (codes "m") 0 payload answer_f generated_f
