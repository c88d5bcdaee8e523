-- ===== src/Server/RateLimit/Laws.antt =====
-- `admit` of Server/RateLimit against a reference, and the wait that `retry_after` names.
use npp_ai.Prelude.{
  ℕ, ◌+◌, ◌*◌, ◌≤◌, ◌<◌, ◌≡◌, refl, ap, subst, Bool, true, false, Bool-cases, inl, inr, List, [],
  ◌∷◌, ◌++◌, length, leb, ltb, if◌then◌else◌, arith,
}
use npp_ai.Server.RateLimit.{limited, second, expire, retry_after, admit}
use npp_ai.Server.RateLimit.History.{
  recent, is_admitted, Sorted, Past, length-expire_le, Past-expire, Tracks, Tracks-expire,
  Tracks-recent, Tracks-snoc,
}

module _ (limit window : ℕ) where
  -- The verdicts of the deque on requests at these times, `true` for an admitted one.
  unfoldable pub verdicts : List ℕ → List ℕ → List Bool
  verdicts deque [] = []
  verdicts deque (now ∷ times) =
      is_admitted (admit limit window now deque).0 ∷ verdicts (admit limit window now deque).1 times

  -- The reference keeps every admitted time, and admits while fewer than `limit` are recent.
  unfoldable pub reference : List ℕ → List ℕ → List Bool
  reference history [] = []
  reference history (now ∷ times) =
      let fits = ltb (recent now window history) limit in
      fits ∷ reference (if fits then history ++ (now ∷ []) else history) times

  same_verdicts :
      (last : ℕ) (history deque times : List ℕ)
      → Tracks window last history deque
      → Sorted (last ∷ times)
      → verdicts deque times ≡ reference history times
  unfolding verdicts reference admit
  same_verdicts last history deque [] t s = refl
  same_verdicts last history deque (now ∷ times) t (h, s) =
      let kept = expire now window deque in
      let t' = Tracks-expire window last now history deque h t in
      let count : length kept ≡ recent now window history =
        Tracks-recent window now history deque t' t.sorted in
      elim (Bool-cases (leb limit (length kept))) [
        | inl full ↦
            let refused : ltb (recent now window history) limit ≡ false = ground arith in
            rw (full, refused) (ap (λ l. false ∷ l) (same_verdicts now history kept times t' s))
        | inr free ↦
            let fits : ltb (recent now window history) limit ≡ true = ground arith in
            rw (free, fits)
              (ap (λ l. true ∷ l)
                (same_verdicts now (history ++ (now ∷ [])) (kept ++ (now ∷ [])) times
                  (Tracks-snoc window now history kept t') s))
      ]

  -- On requests in the order of a monotonic clock, the deque, which forgets expired times, gives
  -- the verdicts of the reference, which forgets none: a request is admitted exactly while fewer
  -- than `limit` requests were admitted within the window before it.
  pub verdicts-eq-reference :
      (times : List ℕ) → Sorted times → verdicts [] times ≡ reference [] times
  verdicts-eq-reference [] s = unfold verdicts reference in refl
  verdicts-eq-reference (now ∷ times) s =
      same_verdicts now [] [] (now ∷ times)
        (record {
          older = [];
          whole = refl;
          expired = unfold recent in refl;
          sorted = tt;
          past = tt;
        })
        (omega arith, s)

  after_wait :
      (now later : ℕ) (kept : List ℕ)
      → 1 ≤ length kept
      → Past now kept
      → now + retry_after now window kept * second ≤ later
      → (1 ≤ retry_after now window kept) × (length (expire later window kept) < length kept)
  unfolding retry_after expire
  after_wait now later [] few past waited = absurd (omega arith)
  after_wait now later (oldest ∷ rest) few (p, past) waited =
      let gone : leb (oldest + window) later ≡ true = ground arith in
      (omega arith, rw gone (omega (arith, length-expire_le window later rest)))

  -- A client that is refused, and waits for as many seconds as `Retry-After` says, is admitted if
  -- it has sent nothing meanwhile.
  pub retry_after-admits :
      (now later wait : ℕ) (hits kept : List ℕ)
      → 1 ≤ limit
      → length hits ≤ limit
      → Past now hits
      → admit limit window now hits ≡ (limited wait, kept)
      → now + wait * second ≤ later
      → (1 ≤ wait) × (is_admitted (admit limit window later kept).0 ≡ true)
  unfolding admit
  retry_after-admits now later wait hits kept low few past h waited =
      let full : leb limit (length (expire now window hits)) ≡ true = ground arith in
      let same : expire now window hits ≡ kept = ground (arith, full) in
      let said : retry_after now window kept ≡ wait = ground (arith, full) in
      let room : length kept ≤ limit =
        subst (λ l. length l ≤ limit) same (omega (arith, length-expire_le window now hits)) in
      let some_kept : 1 ≤ length kept = subst (λ l. 1 ≤ length l) same (ground arith) in
      let (least, fewer) =
        after_wait now later kept some_kept
          (subst (Past now) same (Past-expire window now now hits past)) (rw said waited) in
      (rw said at least, ground arith)
