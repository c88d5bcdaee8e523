-- ===== src/Decoding/Beam/Rounds.antt =====
-- One round of the search in Decoding/Beam: its candidates, those of the beam, those that met the
-- end token, and the finished ones.
use npp_ai.Prelude.{
  ℕ, suc, ◌+◌, ◌≤◌, ◌≡◌, inl, inr, Bool, true, if_intro, Option, Option-cases, none, some, List, [],
  ◌∷◌, ◌++◌, length, length-append, take, ◌==◌, if◌then◌else◌, Each, Within, Each-append, Each-take,
  arith,
}
use mathlib.Core.Path.{subst}
use mathlib.Core.Option.{some-injective}
use npp_ai.Text.{Bytes}
use npp_ai.Decoding.Beam.{
  Scored, Candidate, Found, best_of, better, place, sort_from, next_beam, add_token, add_tokens,
  expand_beam,
}

module _ (model : Scored) where
  module _ (P : Candidate model → Type 0) where
    pub Each-best :
        (best : Candidate model) (rest : List (Candidate model))
        → P best
        → Each P rest
        → P (best_of model best rest)
    unfolding best_of
    Each-best best [] p h = p
    Each-best best (c ∷ rest) p (q, h) =
        Each-best (if model.less best.score c.score then c else best) rest
          (if_intro P (model.less best.score c.score) (λ _. q) (λ _. p)) h

    Within-better :
        (o : Option (Candidate model)) (c : Candidate model)
        → Within P o
        → P c
        → P (better model o c)
    unfolding better
    Within-better none c h q = q
    Within-better (some f) c p q = if_intro P (model.less f.score c.score) (λ _. q) (λ _. p)

    Each-place :
        (c : Candidate model) (xs : List (Candidate model))
        → P c
        → Each P xs
        → Each P (place model c xs)
    unfolding place
    Each-place c [] p h = (p, tt)
    Each-place c (d ∷ rest) p (q, h) =
        if_intro (Each P) (model.less d.score c.score) (λ _. (p, (q, h)))
          (λ _. (q, Each-place c rest p h))

    Each-sort :
        (sorted xs : List (Candidate model))
        → Each P sorted
        → Each P xs
        → Each P (sort_from model sorted xs)
    unfolding sort_from
    Each-sort sorted [] h h' = h
    Each-sort sorted (c ∷ rest) h (p, h') =
        Each-sort (place model c sorted) rest (Each-place c sorted p h) h'

    pub Each-next : (xs : List (Candidate model)) → Each P xs → Each P (next_beam model xs)
    unfolding next_beam
    Each-next xs h = Each-take P 8 (sort_from model [] xs) (Each-sort [] xs tt h)

  -- A candidate of the beam behind `rounds` rounds.
  unfoldable pub Open : ℕ → Candidate model → Type 0
  Open rounds c = (c.count ≡ rounds) × (length c.body ≡ rounds)

  -- One that met the end token in one of `rounds` rounds.
  unfoldable pub Ended : ℕ → Candidate model → Type 0
  Ended rounds c = (c.count ≡ suc (length c.body)) × (c.count ≤ rounds)

  module _ (accepts : Bytes → Bool) where
    unfoldable pub Finished : ℕ → Candidate model → Type 0
    Finished rounds c = Ended rounds c × (accepts c.body ≡ true)

    -- The lists inside the round behind `rounds` rounds.
    unfoldable pub Holds : ℕ → Found model → Type 0
    Holds rounds s =
        Each (Open (suc rounds)) s.expanded
        × Each (Finished (suc rounds)) s.finished
        × Within (Ended (suc rounds)) s.fallback

    add_token-Holds :
        (rounds : ℕ) (parent : Candidate model) (s : Found model) (token : ℕ) (logp : model.Score)
        → Open rounds parent
        → Holds rounds s
        → Holds rounds (add_token model accepts parent s (token, logp))
    unfolding add_token Open Ended Finished Holds
    add_token-Holds rounds parent s token logp o (e, f, b) =
        let c : Candidate model = record {
          score = model.add parent.score logp;
          body = parent.body;
          count = parent.count + 1;
        } in
        let ended : Ended (suc rounds) c = (omega (arith, o), omega (arith, o)) in
        let open_body = length-append parent.body (token ∷ []) in
        if_intro (Holds rounds) (token == 0)
          (λ _. (
            e,
            if_intro (Each (Finished (suc rounds))) (accepts c.body)
                (λ a. Each-append (Finished (suc rounds)) s.finished (c ∷ []) f ((ended, a), tt))
                (λ _. f),
            Within-better (Ended (suc rounds)) s.fallback c b ended,
          ))
          (λ _. (
            Each-append (Open (suc rounds)) s.expanded _ e
                ((omega (arith, o), omega (arith, o, open_body)), tt),
            f,
            b,
          ))

    add_tokens-Holds :
        (rounds : ℕ) (parent : Candidate model) (s : Found model) (tokens : List (ℕ × model.Score))
        → Open rounds parent
        → Holds rounds s
        → Holds rounds (add_tokens model accepts parent s tokens)
    unfolding add_tokens
    add_tokens-Holds rounds parent s [] o h = h
    add_tokens-Holds rounds parent s ((token, logp) ∷ rest) o h =
        add_tokens-Holds rounds parent (add_token model accepts parent s (token, logp)) rest o
          (add_token-Holds rounds parent s token logp o h)

    pub expand_beam-Holds :
        (rounds : ℕ) (prefix : List ℕ) (beam : List (Candidate model)) (s s' : Found model)
        → Each (Open rounds) beam
        → Holds rounds s
        → expand_beam model accepts prefix beam s ≡ some s'
        → Holds rounds s'
    unfolding expand_beam
    expand_beam-Holds rounds prefix [] s s' o h same =
        subst (Holds rounds) (some-injective (_) (_) same) h
    expand_beam-Holds rounds prefix (c ∷ beam) s s' (o, os) h found =
        elim (Option-cases (model.ranked (prefix ++ c.body))) [
          | inl missing ↦ absurd (cc (rw (expand_beam, missing) at found))
          | inr (tokens, ranked) ↦
              expand_beam-Holds rounds prefix beam (add_tokens model accepts c s (take 8 tokens)) s'
                os (add_tokens-Holds rounds c s (take 8 tokens) o h)
                (rw (expand_beam, ranked) at found)
        ]
