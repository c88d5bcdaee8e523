-- ===== src/Server/RateLimit/History.antt =====
-- The deque of a client against the full history of its admitted requests.
use npp_ai.Prelude.{
  ℕ, suc, ◌+◌, ◌≤◌, ◌<◌, ◌≡◌, refl, ap, sym, ◌∙◌, Bool, true, false, Bool-cases, inl, inr, List, [],
  ◌∷◌, ◌++◌, length, leb, if◌then◌else◌, if_intro, append_assoc, arith,
}
use npp_ai.Server.RateLimit.{Verdict, admitted, limited, expire}

-- How many of the admitted requests lie within the window before `now`.
unfoldable pub recent : ℕ → ℕ → List ℕ → ℕ
recent now window [] = 0
recent now window (t ∷ history) =
    if leb (t + window) now then recent now window history else suc (recent now window history)

-- The reference: a request is admitted while fewer than `limit` admitted ones are recent.
abbrev pub is_admitted : Verdict → Bool
is_admitted admitted = true
is_admitted (limited n) = false

abbrev pub Sorted : List ℕ → Type 0
Sorted [] = Unit
Sorted (t ∷ []) = Unit
Sorted (t ∷ (u ∷ rest)) = (t ≤ u) × Sorted (u ∷ rest)

-- No time lies behind `now`.
abbrev pub Past : ℕ → List ℕ → Type 0
Past now [] = Unit
Past now (t ∷ rest) = (t ≤ now) × Past now rest

module _ (window : ℕ) where
  pub length-expire_le : (now : ℕ) (xs : List ℕ) → length (expire now window xs) ≤ length xs
  unfolding expire
  length-expire_le now [] = omega arith
  length-expire_le now (t ∷ xs) = ground (arith, length-expire_le now xs)

  pub Past-expire : (now then' : ℕ) (xs : List ℕ) → Past now xs → Past now (expire then' window xs)
  unfolding expire
  Past-expire now then' [] h = h
  Past-expire now then' (t ∷ xs) (h, hs) =
      if_intro (Past now) (leb (t + window) then') (λ _. Past-expire now then' xs hs) (λ _. (h, hs))

  Sorted-tail : (t : ℕ) (xs : List ℕ) → Sorted (t ∷ xs) → Sorted xs
  Sorted-tail t [] h = tt
  Sorted-tail t (u ∷ xs) h = h.1

  Sorted-expire : (now : ℕ) (xs : List ℕ) → Sorted xs → Sorted (expire now window xs)
  unfolding expire
  Sorted-expire now [] h = h
  Sorted-expire now (t ∷ xs) h =
      if_intro Sorted (leb (t + window) now) (λ _. Sorted-expire now xs (Sorted-tail t xs h))
        (λ _. h)

  -- Behind a recent time all times are recent.
  recent-eq-length :
      (now t : ℕ) (xs : List ℕ)
      → Sorted (t ∷ xs)
      → now < t + window
      → recent now window (t ∷ xs) ≡ suc (length xs)
  unfolding recent
  recent-eq-length now t [] h k = ground arith
  recent-eq-length now t (u ∷ xs) (h, hs) k = ground (arith, recent-eq-length now u xs hs)

  length-expire :
      (now : ℕ) (xs : List ℕ) → Sorted xs → length (expire now window xs) ≡ recent now window xs
  unfolding expire recent
  length-expire now [] h = refl
  length-expire now (t ∷ xs) h =
      ground (arith, length-expire now xs (Sorted-tail t xs h), recent-eq-length now t xs h)

  recent-append :
      (now : ℕ) (xs ys : List ℕ)
      → recent now window (xs ++ ys) ≡ recent now window xs + recent now window ys
  unfolding recent
  recent-append now [] ys = omega arith
  recent-append now (t ∷ xs) ys = ground (arith, recent-append now xs ys)

  Sorted-snoc : (now : ℕ) (xs : List ℕ) → Sorted xs → Past now xs → Sorted (xs ++ (now ∷ []))
  Sorted-snoc now [] h p = tt
  Sorted-snoc now (t ∷ []) h (p, ps) = (p, tt)
  Sorted-snoc now (t ∷ (u ∷ xs)) (h, hs) (p, ps) = (h, Sorted-snoc now (u ∷ xs) hs ps)

  Past-later : (now later : ℕ) (xs : List ℕ) → now ≤ later → Past now xs → Past later xs
  Past-later now later [] h p = tt
  Past-later now later (t ∷ xs) h (p, ps) = (omega arith, Past-later now later xs h ps)

  -- Times that have expired stay so.
  recent_of_expired :
      (now later : ℕ) (xs : List ℕ)
      → now ≤ later
      → recent now window xs ≡ 0
      → recent later window xs ≡ 0
  unfolding recent
  recent_of_expired now later [] h e = refl
  recent_of_expired now later (t ∷ xs) h e = ground (arith, recent_of_expired now later xs)

  -- What `expire` drops is not recent.
  expire-split :
      (now : ℕ) (xs : List ℕ)
      → (dropped : List ℕ) × (xs ≡ dropped ++ expire now window xs)
        × (recent now window dropped ≡ 0)
  unfolding expire recent
  expire-split now [] = ([], refl, refl)
  expire-split now (t ∷ xs) = elim (Bool-cases (leb (t + window) now)) [
    | inl old ↦
        let (dropped, e, r) = expire-split now xs in
        (t ∷ dropped, rw old (ap (λ l. t ∷ l) e), rw old r)
    | inr new ↦ ([], rw new refl, refl)
  ]

  -- The deque is the end of the history, and the rest of the history has expired.
  pub record Tracks (now : ℕ) (history deque : List ℕ) : Type 0 where
    pub older : List ℕ
    pub whole : history ≡ older ++ deque
    pub expired : recent now window older ≡ 0
    pub sorted : Sorted deque
    pub past : Past now deque

  pub Tracks-expire :
      (last now : ℕ) (history deque : List ℕ)
      → last ≤ now
      → Tracks last history deque
      → Tracks now history (expire now window deque)
  Tracks-expire last now history deque h t =
      let (dropped, e, r) = expire-split now deque in
      record {
        older = t.older ++ dropped;
        whole =
            t.whole
            ∙ ap (λ l. t.older ++ l) e
            ∙ sym (append_assoc t.older dropped (expire now window deque));
        expired =
            recent-append now t.older dropped
            ∙ omega (arith, r, recent_of_expired last now t.older h t.expired);
        sorted = Sorted-expire now deque t.sorted;
        past = Past-expire now now deque (Past-later last now deque h t.past);
      }

  pub Tracks-recent :
      (now : ℕ) (history deque : List ℕ)
      → Tracks now history (expire now window deque)
      → Sorted deque
      → length (expire now window deque) ≡ recent now window history
  Tracks-recent now history deque t s =
      let kept = expire now window deque in
      let (dropped, e, r) = expire-split now deque in
      omega (
        arith,
        length-expire now deque s,
        ap (recent now window) e,
        recent-append now dropped kept,
        ap (recent now window) t.whole,
        recent-append now t.older kept,
        t.expired,
      )

  Past-snoc : (now : ℕ) (xs : List ℕ) → Past now xs → Past now (xs ++ (now ∷ []))
  Past-snoc now [] p = (omega arith, tt)
  Past-snoc now (t ∷ xs) (p, ps) = (p, Past-snoc now xs ps)

  pub Tracks-snoc :
      (now : ℕ) (history deque : List ℕ)
      → Tracks now history deque
      → Tracks now (history ++ (now ∷ [])) (deque ++ (now ∷ []))
  Tracks-snoc now history deque t = record {
    older = t.older;
    whole = ap (λ l. l ++ (now ∷ [])) t.whole ∙ append_assoc t.older deque (now ∷ []);
    expired = t.expired;
    sorted = Sorted-snoc now deque t.sorted t.past;
    past = Past-snoc now deque t.past;
  }
