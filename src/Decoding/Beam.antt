-- ===== src/Decoding/Beam.antt =====
-- The beam search of `generate` in python_function_decoding.py, up to the choice of the winner.
pub mod Rounds
pub mod Laws
use npp_ai.Prelude.{
  ℕ, zero, suc, ◌+◌, Bool, true, false, not, ◌&&◌, ◌||◌, Option, none, some, List, [], ◌∷◌, ◌++◌,
  take, all, ltb, ◌==◌, if◌then◌else◌,
}
use npp_ai.Text.{Text, Bytes}
use npp_ai.Text.Utf8.{decode}
use npp_ai.Protocol.{FinishReason, eos, length_limit}
use npp_ai.Python.Exceptions.{Result, ok, err, runtime_error, value_error}

-- A scored model: its scores are floats that are not NaN, with their order and sum, and `ranked`
-- gives the tokens by falling log probability, each with that; none where a logit is not finite.
pub record Scored : Type 1 where
  pub Score : Type 0
  pub less : Score → Score → Bool
  pub add : Score → Score → Score
  pub zero_score : Score
  pub ranked : List ℕ → Option (List (ℕ × Score))

module _ (model : Scored) where
  -- `(score, body, count)`
  pub record Candidate : Type 0 where
    pub score : model.Score
    pub body : Bytes
    pub count : ℕ

  abbrev pub root : Candidate
  root = record { score = model.zero_score; body = []; count = 0 }

  -- `expanded`, `finished` and `fallback`.
  pub record Found : Type 0 where
    pub expanded : List Candidate
    pub finished : List Candidate
    pub fallback : Option Candidate

  -- `max(rest, key=…)`, with a first best: a later one must be better.
  unfoldable pub best_of : Candidate → List Candidate → Candidate
  best_of best [] = best
  best_of best (c ∷ rest) = best_of (if model.less best.score c.score then c else best) rest

  -- `if fallback is None or candidate[0] > fallback[0]: fallback = candidate`
  unfoldable pub better : Option Candidate → Candidate → Candidate
  better none c = c
  better (some f) c = if model.less f.score c.score then c else f

  -- A stable sort by falling score.
  unfoldable pub place : Candidate → List Candidate → List Candidate
  place c [] = c ∷ []
  place c (d ∷ rest) =
      let later = place c rest in if model.less d.score c.score then c ∷ (d ∷ rest) else d ∷ later

  unfoldable pub sort_from : List Candidate → List Candidate → List Candidate
  unfolding place
  sort_from sorted [] = sorted
  sort_from sorted (c ∷ rest) = sort_from (place c sorted) rest

  -- `sorted(expanded, key=…, reverse=True)[:8]`
  unfoldable pub next_beam : List Candidate → List Candidate
  unfolding sort_from
  next_beam expanded = take 8 (sort_from [] expanded)

  module _ (accepts : Bytes → Bool) where
    -- The rest of the loop body for one token.
    unfoldable pub add_token : Candidate → Found → ℕ × model.Score → Found
    unfolding better
    add_token parent s (token, logp) =
        let score = model.add parent.score logp in
        if token == 0
        then (let c : Candidate = record {
          score = score;
          body = parent.body;
          count = parent.count + 1;
        } in
            record {
              expanded = s.expanded;
              finished = if accepts c.body then s.finished ++ (c ∷ []) else s.finished;
              fallback = some (better s.fallback c);
            })
        else record {
          expanded =
              s.expanded
              ++ (record {
                score = score;
                body = parent.body ++ (token ∷ []);
                count = parent.count + 1;
              }
                  ∷ []);
          finished = s.finished;
          fallback = s.fallback;
        }

    unfoldable pub add_tokens : Candidate → Found → List (ℕ × model.Score) → Found
    unfolding add_token
    add_tokens parent s [] = s
    add_tokens parent s (t ∷ rest) = add_tokens parent (add_token parent s t) rest

    -- The loop over the beam; none where the logits are not finite.
    unfoldable pub expand_beam : List ℕ → List Candidate → Found → Option Found
    unfolding add_tokens
    expand_beam prefix [] s = some s
    expand_beam prefix (c ∷ beam) s = elim (model.ranked (prefix ++ c.body)) [
      | none ↦ none
      | some tokens ↦ expand_beam prefix beam (add_tokens c s (take 8 tokens))
    ]

    -- `finished and (not beam or max(…) >= beam[0][0])`, or `not beam`.
    unfoldable pub is_over : List Candidate → List Candidate → Bool
    is_over finished [] = true
    is_over [] (b ∷ beam) = false
    is_over (f ∷ finished) (b ∷ beam) = not (model.less (best_of f finished).score b.score)

    -- What the search leaves: the beam, and what was found.
    unfoldable pub search :
        List ℕ
        → ℕ
        → List Candidate
        → List Candidate
        → Option Candidate
        → Result (List Candidate × List Candidate × Option Candidate)
    unfolding expand_beam next_beam is_over
    search prefix zero beam finished fallback = ok (beam, finished, fallback)
    search prefix (suc rounds) beam finished fallback =
        elim (expand_beam prefix beam
          (record { expanded = []; finished = finished; fallback = fallback })) [
            | none ↦ err (runtime_error "Non-finite model logits")
            | some s ↦
                let beam' = next_beam s.expanded in
                let rest = search prefix rounds beam' s.finished s.fallback in
                if is_over s.finished beam' then ok (beam', s.finished, s.fallback) else rest
          ]

  -- The winner with the reason: the best of the finished ones; else the best of the beam and the
  -- fallback, which is taken where nothing in the beam is better.
  unfoldable pub choose :
      List Candidate → List Candidate → Option Candidate → Result (Candidate × FinishReason)
  unfolding best_of
  choose beam (f ∷ finished) fallback = ok (best_of f finished, eos)
  choose [] [] none = err (value_error "max() arg is an empty sequence")
  choose [] [] (some f) = ok (f, eos)
  choose (b ∷ beam) [] none = ok (best_of b beam, length_limit)
  choose (b ∷ beam) [] (some f) =
      let best = best_of b beam in
      if model.less f.score best.score then ok (best, length_limit) else ok (f, eos)
