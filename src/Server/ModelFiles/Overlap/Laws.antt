-- ===== src/Server/ModelFiles/Overlap/Laws.antt =====
-- Calls of `model_version` that overlap, while the model file stays the same.
use npp_ai.Prelude.{
  ℕ, ◌+◌, ◌-◌, ◌≤◌, ◌≡◌, refl, sym, ap, subst, ◌∙◌, ◌⊎◌, inl, inr, Bool-cases, Option, none, some,
  List, [], ◌∷◌, ◌==◌, ==_iff, if◌then◌else◌, if_intro, arith,
}
use npp_ai.Text.{Text, Bytes}
use npp_ai.Server.ModelFiles.{ModelFile, Cache, stat_of, key_matches, version_from, version_of}
use npp_ai.Server.ModelFiles.Overlap.{
  VersionCall, starting, found, looked, matched, chosen, missed, hashed, keyed, clearing, cleared,
  returned, failed, advance, Shared, turn, run, all_starting,
}

-- The steps that a call has left at most.
abbrev left : VersionCall → ℕ
left starting = 7
left found = 6
left (looked stat) = 5
left (matched stat) = 4
left (missed stat) = 3
left (hashed stat version) = 2
left (keyed version) = 1
left chosen = 1
left clearing = 2
left cleared = 1
left (returned version) = 0
left failed = 0

-- How often a call takes a step.
unfoldable pub turns : ℕ → List (ℕ × Option ModelFile) → ℕ
turns i [] = 0
turns i ((j, disk) ∷ rest) = (if j == i then 1 else 0) + turns i rest

-- Each step finds this file.
abbrev pub AllFind : ModelFile → List (ℕ × Option ModelFile) → Type 0
AllFind f [] = Unit
AllFind f ((i, disk) ∷ rest) = (disk ≡ some f) × AllFind f rest

module _ (sha256 : Bytes → Bytes) (f : ModelFile) where
  abbrev current : Text
  current = version_of sha256 f

  -- The value is the version of the file, or there is none.
  abbrev pub IsCurrent : Cache → Type 0
  IsCurrent cache = (cache.value ≡ none) ⊎ (cache.value ≡ some (version_of sha256 f))

  -- What the locals of a call say, with the shared value.
  abbrev IsGood : Option Text → VersionCall → Type 0
  IsGood value starting = Unit
  IsGood value found = Unit
  IsGood value (looked stat) = stat ≡ stat_of f
  IsGood value (matched stat) = stat ≡ stat_of f
  IsGood value (missed stat) = stat ≡ stat_of f
  IsGood value (hashed stat version) = (stat ≡ stat_of f) × (version ≡ current)
  IsGood value (keyed version) = version ≡ current
  IsGood value chosen = value ≡ some current
  IsGood value clearing = ⊥
  IsGood value cleared = ⊥
  IsGood value (returned version) = version ≡ some current
  IsGood value failed = ⊥

  -- A value that is the version stays so.
  IsGood-stays :
      (value value' : Option Text) (c : VersionCall)
      → (value ≡ some current → value' ≡ some current)
      → IsGood value c
      → IsGood value' c
  IsGood-stays value value' starting h g = g
  IsGood-stays value value' found h g = g
  IsGood-stays value value' (looked stat) h g = g
  IsGood-stays value value' (matched stat) h g = g
  IsGood-stays value value' (missed stat) h g = g
  IsGood-stays value value' (hashed stat version) h g = g
  IsGood-stays value value' (keyed version) h g = g
  IsGood-stays value value' chosen h g = h g
  IsGood-stays value value' clearing h g = g
  IsGood-stays value value' cleared h g = g
  IsGood-stays value value' (returned version) h g = g
  IsGood-stays value value' failed h g = g

  record Stepped (c : VersionCall) (cache : Cache) (r : VersionCall × Cache) : Type 0 where
    good : IsGood r.1.value r.0
    is_current : IsCurrent r.1
    keeps : cache.value ≡ some current → r.1.value ≡ some current
    fewer : left r.0 ≤ left c - 1

  same_cache :
      (c c' : VersionCall) (cache : Cache)
      → IsGood cache.value c'
      → IsCurrent cache
      → left c' ≤ left c - 1
      → Stepped c cache (c', cache)
  same_cache c c' cache g k n = record { good = g; is_current = k; keeps = λ h. h; fewer = n }

  tested :
      (stat : ℕ × ℕ) (cache : Cache) (value : Option Text)
      → cache.value ≡ value
      → stat ≡ stat_of f
      → IsCurrent cache
      → Stepped
          (matched stat)
          cache
          (elim value [ none ↦ (missed stat, cache) | some version ↦ (chosen, cache) ])
  tested stat cache none e g k = same_cache (matched stat) (missed stat) cache g k (omega arith)
  tested stat cache (some version) e g (inl empty) = absurd (cc (e, empty))
  tested stat cache (some version) e g (inr held) =
      same_cache (matched stat) chosen cache held (inr held) (omega arith)

  advance-Stepped :
      (c : VersionCall) (cache : Cache)
      → IsGood cache.value c
      → IsCurrent cache
      → Stepped c cache (advance sha256 (some f) c cache)
  unfolding advance
  advance-Stepped starting cache g k = same_cache starting found cache tt k (omega arith)
  advance-Stepped found cache g k = same_cache found (looked (stat_of f)) cache refl k (omega arith)
  advance-Stepped (looked stat) cache g k =
      if_intro (λ c. Stepped (looked stat) cache (c, cache)) (key_matches cache.key stat)
        (λ _. same_cache (looked stat) (matched stat) cache g k (omega arith))
        (λ _. same_cache (looked stat) (missed stat) cache g k (omega arith))
  advance-Stepped (matched stat) cache g k = tested stat cache cache.value refl g k
  advance-Stepped chosen cache g k =
      same_cache chosen (returned cache.value) cache g k (omega arith)
  advance-Stepped (missed stat) cache g k =
      same_cache (missed stat) (hashed stat (version_from sha256 stat f.content)) cache
        (g, ap (λ s. version_from sha256 s f.content) g ∙ (unfold version_of in refl)) k
        (omega arith)
  advance-Stepped (hashed stat version) cache (g, e) k = record {
    good = e;
    is_current = k;
    keeps = λ h. h;
    fewer = omega arith;
  }
  advance-Stepped (keyed version) cache g k = record {
    good = ap some g;
    is_current = inr (ap some g);
    keeps = λ _. ap some g;
    fewer = omega arith;
  }
  advance-Stepped clearing cache g k = absurd g
  advance-Stepped cleared cache g k = absurd g
  advance-Stepped (returned version) cache g k =
      same_cache (returned version) (returned version) cache g k (omega arith)
  advance-Stepped failed cache g k = absurd g

  -- All calls are good, and the shared value is.
  record IsSound (s : Shared sha256) : Type 0 where
    is_current : IsCurrent s.cache
    good : (i : ℕ) → IsGood s.cache.value (s.calls i)

  turn-IsSound :
      (i : ℕ) (s : Shared sha256)
      → IsSound s
      → IsSound (turn sha256 i (some f) s)
        × ((j : ℕ)
            → left ((turn sha256 i (some f) s).calls j)
              ≤ left (s.calls j) - (if i == j then 1 else 0))
  unfolding turn
  turn-IsSound i s sound =
      let r = advance sha256 (some f) (s.calls i) s.cache in
      let t = advance-Stepped (s.calls i) s.cache (sound.good i) sound.is_current in
      (
        record {
          is_current = t.is_current;
          good = λ j.
              if_intro (IsGood r.1.value) (i == j) (λ _. t.good)
                (λ _. IsGood-stays s.cache.value r.1.value (s.calls j) t.keeps (sound.good j));
        },
        λ j. elim (Bool-cases (i == j)) [
          | inl same ↦
              let here : i ≡ j = (==_iff i j).0 same in
              rw same (subst (λ k. left r.0 ≤ left (s.calls k) - 1) here t.fewer)
          | inr other ↦ rw other (omega arith)
        ],
      )

  run-IsSound :
      (schedule : List (ℕ × Option ModelFile)) (s : Shared sha256)
      → AllFind f schedule
      → IsSound s
      → IsSound (run sha256 schedule s)
        × ((j : ℕ) → left ((run sha256 schedule s).calls j) ≤ left (s.calls j) - turns j schedule)
  unfolding run turns
  run-IsSound [] s finds sound = (sound, λ j. omega arith)
  run-IsSound ((i, disk) ∷ rest) s (e, finds) sound =
      let (sound', fewer) =
        subst
          (λ d.
            IsSound (turn sha256 i d s)
            × ((j : ℕ)
                → left ((turn sha256 i d s).calls j)
                  ≤ left (s.calls j) - (if i == j then 1 else 0)))
          (sym e) (turn-IsSound i s sound) in
      let (final, fewest) = run-IsSound rest (turn sha256 i disk s) finds sound' in
      (final, λ j. omega (arith, fewer j, fewest j))

  over :
      (value : Option Text) (c : VersionCall)
      → IsGood value c
      → left c ≤ 0
      → c ≡ returned (some current)
  over value starting g h = absurd (omega arith)
  over value found g h = absurd (omega arith)
  over value (looked stat) g h = absurd (omega arith)
  over value (matched stat) g h = absurd (omega arith)
  over value (missed stat) g h = absurd (omega arith)
  over value (hashed stat version) g h = absurd (omega arith)
  over value (keyed version) g h = absurd (omega arith)
  over value chosen g h = absurd (omega arith)
  over value clearing g h = absurd g
  over value cleared g h = absurd g
  over value (returned version) g h = ap returned g
  over value failed g h = absurd g

  returns_current :
      (value : Option Text) (c : VersionCall) (version : Option Text)
      → IsGood value c
      → c ≡ returned version
      → version ≡ some current
  returns_current value c version g e = subst (IsGood value) e g

  -- While the model file stays the same, and from a cache that holds its version or no value, any
  -- number of calls that overlap in any order of their steps: a call that has taken seven steps has
  -- returned, and a call that has returned has given the version of the file.
  pub overlapping-current :
      (cache : Cache) (schedule : List (ℕ × Option ModelFile))
      → IsCurrent cache
      → AllFind f schedule
      → (i : ℕ)
      → let c = (run sha256 schedule (all_starting sha256 cache)).calls i in
        (7 ≤ turns i schedule → c ≡ returned (some (version_of sha256 f)))
        × ((version : Option Text) → c ≡ returned version → version ≡ some (version_of sha256 f))
  overlapping-current cache schedule k finds i =
      let start : IsSound (all_starting sha256 cache) = record { is_current = k; good = λ j. tt } in
      let (sound, fewer) = run-IsSound schedule (all_starting sha256 cache) finds start in
      let s = run sha256 schedule (all_starting sha256 cache) in
      (
        λ enough. over s.cache.value (s.calls i) (sound.good i) (omega (arith, fewer i, enough)),
        λ version e. returns_current s.cache.value (s.calls i) version (sound.good i) e,
      )
