-- ===== src/Decoding/Beam/Laws.antt =====
-- The search in Decoding/Beam and its choice: what they leave behind all rounds.
use npp_ai.Prelude.{
  ℕ, zero, suc, ◌+◌, ◌≤◌, ◌≡◌, ◌≢◌, sym, ◌⊎◌, inl, inr, refl, Bool, true, Bool-cases, Option,
  Option-cases, none, some, List, [], ◌∷◌, length, length-take_le, Each, Within, Each-map,
  Within-map, arith,
}
use mathlib.Core.Path.{subst}
use npp_ai.Text.{Bytes}
use npp_ai.Protocol.{FinishReason, eos, length_limit}
use npp_ai.Python.Exceptions.{ok}
use npp_ai.Decoding.Beam.{
  Scored, Candidate, Found, best_of, sort_from, next_beam, expand_beam, is_over, search, choose,
}
use npp_ai.Decoding.Beam.Rounds.{
  Open, Ended, Finished, Holds, Each-best, Each-next, expand_beam-Holds,
}

module _ (model : Scored) where
  module _ (accepts : Bytes → Bool) where
    -- Where the search stops: behind some of its rounds, the whole of them or with an empty beam or
    -- with something finished.
    pub record Searched (rounds : ℕ)
        (left : List (Candidate model) × List (Candidate model) × Option (Candidate model))
        : Type 0 where
      pub done : ℕ
      pub few : done ≤ rounds
      pub opened : Each (Open model done) left.0
      pub closed : Each (Finished model accepts done) left.1
      pub spare : Within (Ended model done) left.2
      pub narrow : length left.0 ≤ 8
      pub full : left.1 ≡ [] → (left.0 ≡ []) ⊎ (done ≡ rounds)

    is_over-why :
        (finished beam : List (Candidate model))
        → is_over model accepts finished beam ≡ true
        → finished ≡ []
        → beam ≡ []
    unfolding is_over
    is_over-why finished [] h none_yet = refl
    is_over-why [] (b ∷ beam) h none_yet = absurd (cc h)
    is_over-why (f ∷ finished) (b ∷ beam) h none_yet = absurd (cc none_yet)

    -- What was found before stands in a later round too.
    later-Ended : (done : ℕ) (c : Candidate model) → Ended model done c → Ended model (suc done) c
    unfolding Ended
    later-Ended done c (same, few) = (same, omega arith)

    later-Finished :
        (done : ℕ) (c : Candidate model)
        → Finished model accepts done c
        → Finished model accepts (suc done) c
    unfolding Finished
    later-Finished done c (e, a) = (later-Ended done c e, a)

    pub search-Searched :
        (prefix : List ℕ) (rounds done total : ℕ) (beam finished : List (Candidate model))
        → (fallback : Option (Candidate model)) → done + rounds ≡ total
        → Each (Open model done) beam
        → Each (Finished model accepts done) finished
        → Within (Ended model done) fallback
        → length beam ≤ 8
        → (left : List (Candidate model) × List (Candidate model) × Option (Candidate model))
        → search model accepts prefix rounds beam finished fallback ≡ ok left
        → Searched total left
    unfolding search Holds
    search-Searched prefix zero done total beam finished fallback sum o f b small left h =
        subst (Searched total) {x = (beam, finished, fallback)} {y = left} (cc) (record {
          done = done;
          few = omega arith;
          opened = o;
          closed = f;
          spare = b;
          narrow = small;
          full = λ _. inr (omega arith);
        })
    search-Searched prefix (suc rounds) done total beam finished fallback sum o f b small left h =
        let s : Found model = record { expanded = []; finished = finished; fallback = fallback } in
        elim (Option-cases (expand_beam model accepts prefix beam s)) [
          | inl failed ↦ absurd (cc (rw (search, failed) at h))
          | inr (s', expanded) ↦
              let holds : Holds model accepts done s' =
                expand_beam-Holds model accepts done prefix beam s s' o
                  (
                    tt,
                    Each-map (Finished model accepts done) (Finished model accepts (suc done))
                        (later-Finished done) finished f,
                    Within-map (Ended model done) (Ended model (suc done)) (later-Ended done)
                        fallback b,
                  )
                  expanded in
              let small' = length-take_le 8 (sort_from model [] s'.expanded) in
              let beam' = next_beam model s'.expanded in
              let o' = Each-next model (Open model (suc done)) s'.expanded holds.0 in
              elim (Bool-cases (is_over model accepts s'.finished beam')) [
                | inl over ↦
                    subst (Searched total) {x = (beam', s'.finished, s'.fallback)} {y = left}
                      (cc (rw (search, expanded, over) at h))
                      (record {
                        done = suc done;
                        few = omega arith;
                        opened = o';
                        closed = holds.1;
                        spare = holds.2;
                        narrow = small';
                        full = λ e. inl (is_over-why s'.finished beam' over e);
                      })
                | inr goes_on ↦
                    search-Searched prefix rounds (suc done) total beam' s'.finished s'.fallback
                      (omega arith) o' holds.1 holds.2 small' left
                      (rw (search, expanded, goes_on) at h)
              ]
        ]

    -- What is known of a winner: it met the end token, or it is as long as the limit.
    pub data Won (rounds : ℕ) (finished : List (Candidate model))
        : Candidate model × FinishReason → Type 0 where
      ended :
          (c : Candidate model)
          → Ended model rounds c
          → (finished ≢ [] → accepts c.body ≡ true)
          → Won rounds finished (c, eos)
      cut :
          (c : Candidate model)
          → Open model rounds c
          → finished ≡ []
          → Won rounds finished (c, length_limit)

    later-Ended_le :
        (done rounds : ℕ) (c : Candidate model)
        → done ≤ rounds
        → Ended model done c
        → Ended model rounds c
    unfolding Ended
    later-Ended_le done rounds c few (same, early) = (same, omega arith)

    -- The beam is not empty, so the search took all its rounds.
    Open-full :
        (done rounds : ℕ) (b c : Candidate model) (beam : List (Candidate model))
        → (Path (List (Candidate model)) [] [] → (b ∷ beam ≡ []) ⊎ (done ≡ rounds))
        → Open model done c
        → Open model rounds c
    unfolding Open
    Open-full done rounds b c beam full o = elim (full refl) [
      | inl e ↦ absurd (cc e)
      | inr e ↦ rw (sym e) o
    ]

    pub choose-Won :
        (rounds : ℕ) (beam finished : List (Candidate model)) (fallback : Option (Candidate model))
        → Searched rounds (beam, finished, fallback)
        → (chosen : Candidate model × FinishReason)
        → choose model beam finished fallback ≡ ok chosen
        → Won rounds finished chosen
    unfolding choose Finished
    choose-Won rounds beam (f ∷ finished) fallback s chosen h =
        let best : Finished model accepts s.done (best_of model f finished) =
          Each-best model (Finished model accepts s.done) f finished s.closed.0 s.closed.1 in
        subst (Won rounds (f ∷ finished)) {x = (best_of model f finished, eos)} {y = chosen} (cc) (
          ended (best_of model f finished)
            (later-Ended_le s.done rounds (best_of model f finished) s.few best.0) (λ _. best.1))
    choose-Won rounds [] [] none s chosen h = absurd (cc h)
    choose-Won rounds [] [] (some f) s chosen h =
        subst (Won rounds []) {x = (f, eos)} {y = chosen} (cc) (
          ended f (later-Ended_le s.done rounds f s.few s.spare)
            (λ some_finished. absurd (some_finished refl)))
    choose-Won rounds (b ∷ beam) [] none s chosen h =
        let best = best_of model b beam in
        subst (Won rounds []) {x = (best, length_limit)} {y = chosen} (cc) (
          cut best
            (Open-full s.done rounds b best beam s.full
              (Each-best model (Open model s.done) b beam s.opened.0 s.opened.1))
            refl)
    choose-Won rounds (b ∷ beam) [] (some f) s chosen h =
        let best = best_of model b beam in
        elim (Bool-cases (model.less f.score best.score)) [
          | inl beaten ↦
              subst (Won rounds []) {x = (best, length_limit)} {y = chosen}
                (cc (rw (choose, beaten) at h))
                (cut best
                  (Open-full s.done rounds b best beam s.full
                    (Each-best model (Open model s.done) b beam s.opened.0 s.opened.1))
                  refl)
          | inr kept ↦
              subst (Won rounds []) {x = (f, eos)} {y = chosen} (cc (rw (choose, kept) at h)) (
                ended f (later-Ended_le s.done rounds f s.few s.spare)
                  (λ some_finished. absurd (some_finished refl)))
        ]
