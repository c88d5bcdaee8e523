-- ===== src/Server/BodyLimit/Laws.antt =====
-- Which requests pass the middleware of Server/BodyLimit.
use npp_ai.Prelude.{
  ℕ, ◌+◌, ◌≤◌, ◌≡◌, refl, ◌∙◌, ap, ◌⊎◌, inl, inr, true, false, Bool-cases, Option, none, some, List,
  [], ◌∷◌, ◌++◌, append-nil, append_assoc, length, length-append, ltb, if◌then◌else◌, arith,
}
use npp_ai.Text.{Text, Bytes}
use npp_ai.Python.Int.{ℤ, pos, ◌≤ℤᵇ◌}
use npp_ai.Server.BodyLimit.{max_request_bytes, too_large, handled, receive, request_size_limit}

-- `b"".join(chunks)`
unfoldable pub join : List Bytes → Bytes
join [] = []
join (chunk ∷ chunks) = chunk ++ join chunks

module _ {A : Type 0} (call_next : Bytes → A) where
  receive-join :
      (total : ℕ) (body : Bytes) (chunks : List Bytes)
      → total ≤ max_request_bytes
      → receive call_next total body chunks ≡ (
          if ltb max_request_bytes (total + length (join chunks))
          then too_large
          else handled (call_next (body ++ join chunks)))
  unfolding receive join
  receive-join total body [] h =
      let fits : ltb max_request_bytes (total + 0) ≡ false = ground arith in
      rw fits (ap (λ b. handled (call_next b)) (rw append-nil refl))
  receive-join total body (chunk ∷ chunks) h =
      let sum = length-append chunk (join chunks) in
      elim (Bool-cases (ltb max_request_bytes (total + length chunk))) [
        | inl over ↦
            let all_over : ltb max_request_bytes (total + length (chunk ++ join chunks)) ≡ true =
              ground (arith, sum) in
            rw (over, all_over)
        | inr fits ↦
            let same : total + length chunk + length (join chunks)
                ≡ total + length (chunk ++ join chunks) =
              omega (arith, sum) in
            rw fits (
              receive-join (total + length chunk) (body ++ chunk) chunks (ground arith)
              ∙ rw (same, append_assoc))
      ]

  received :
      (chunks : List Bytes) (answer : A)
      → receive call_next 0 [] chunks ≡ handled answer
      → (length (join chunks) ≤ max_request_bytes) × (answer ≡ call_next (join chunks))
  received chunks answer h = elim (Bool-cases (ltb max_request_bytes (length (join chunks)))) [
    | inl over ↦ absurd (ground (arith, receive-join 0 [] chunks, over))
    | inr fits ↦ (ground (arith, fits), ground (arith, receive-join 0 [] chunks, fits))
  ]

  receives :
      (chunks : List Bytes)
      → length (join chunks) ≤ max_request_bytes
      → receive call_next 0 [] chunks ≡ handled (call_next (join chunks))
  receives chunks h = ground (arith, receive-join 0 [] chunks)

  module _ (parse_int : Text → Option ℤ) where
    request_size_limit-cases :
        (header : Option Text) (chunks : List Bytes)
        → ((answer : A)
            → request_size_limit call_next parse_int header chunks ≡ handled answer
            → (length (join chunks) ≤ max_request_bytes) × (answer ≡ call_next (join chunks)))
          × (length (join chunks) ≤ max_request_bytes
              → (request_size_limit call_next parse_int header chunks
                  ≡ handled (call_next (join chunks)))
                ⊎ ((text : Text) × (header ≡ some text)
                    × ((parse_int text ≡ none)
                        ⊎ ((z : ℤ) × (parse_int text ≡ some z)
                            × (z ≤ℤᵇ pos max_request_bytes ≡ false)))))
    unfolding request_size_limit
    request_size_limit-cases none chunks = (received chunks, λ h. inl (receives chunks h))
    request_size_limit-cases (some []) chunks = (received chunks, λ h. inl (receives chunks h))
    request_size_limit-cases (some (c ∷ text)) chunks = declared (parse_int (c ∷ text)) refl
      where
        declared :
            (o : Option ℤ)
            → parse_int (c ∷ text) ≡ o
            → ((answer : A)
                → request_size_limit call_next parse_int (some (c ∷ text)) chunks ≡ handled answer
                → (length (join chunks) ≤ max_request_bytes) × (answer ≡ call_next (join chunks)))
              × (length (join chunks) ≤ max_request_bytes
                  → (request_size_limit call_next parse_int (some (c ∷ text)) chunks
                      ≡ handled (call_next (join chunks)))
                    ⊎ ((t : Text) × (◌≡◌ {A = Option Text} (some (c ∷ text)) (some t))
                        × ((parse_int t ≡ none)
                            ⊎ ((z : ℤ) × (parse_int t ≡ some z)
                                × (z ≤ℤᵇ pos max_request_bytes ≡ false)))))
        declared none e = (
          λ answer h. absurd (cc (rw (e, request_size_limit) at h)),
          λ h. inr (c ∷ text, refl, inl e),
        )
        declared (some z) e = elim (Bool-cases (z ≤ℤᵇ pos max_request_bytes)) [
          | inl low ↦ (
            λ answer h. received chunks answer (rw (e, request_size_limit, low) at h),
            λ h. inl (rw (e, request_size_limit, low) (receives chunks h)),
          )
          | inr high ↦ (
            λ answer h. absurd (cc (rw (e, request_size_limit, high) at h)),
            λ h. inr (c ∷ text, refl, inr (z, e, high)),
          )
        ]

    -- A request that reaches the handlers does so with its whole body, of at most 2 MiB.
    pub request_size_limit-handled :
        (header : Option Text) (chunks : List Bytes) (answer : A)
        → request_size_limit call_next parse_int header chunks ≡ handled answer
        → (length (join chunks) ≤ max_request_bytes) × (answer ≡ call_next (join chunks))
    request_size_limit-handled header chunks = (request_size_limit-cases header chunks).0

    -- Every request with a body of at most 2 MiB reaches the handlers, unless its Content-Length
    -- is present, not an integer or more than 2 MiB.
    pub request_size_limit-answers :
        (header : Option Text) (chunks : List Bytes)
        → length (join chunks) ≤ max_request_bytes
        → (request_size_limit call_next parse_int header chunks ≡ handled (call_next (join chunks)))
          ⊎ ((text : Text) × (header ≡ some text)
              × ((parse_int text ≡ none)
                  ⊎ ((z : ℤ) × (parse_int text ≡ some z) × (z ≤ℤᵇ pos max_request_bytes ≡ false))))
    request_size_limit-answers header chunks = (request_size_limit-cases header chunks).1
