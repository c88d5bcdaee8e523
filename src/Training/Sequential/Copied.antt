-- ===== src/Training/Sequential/Copied.antt =====
-- What an audited answer of the sequential decoder copied.
use npp_ai.Prelude.{
  ℕ, zero, suc, ◌+◌, ◌-◌, ◌<◌, ◌≤◌, ◌≡◌, refl, sym, ap, subst, ◌∙◌, Bool, true, false, ◌&&◌,
  Bool-cases, inl, inr, ◌⊎◌, Option, none, some, List, [], ◌∷◌, take, drop, length, all, ltb, leb,
  leb→le, ltb→lt, both, ◌==◌, ==_iff, if◌then◌else◌, if_intro, arith,
}
use npp_ai.Text.{Text, Bytes, text_eq}
use npp_ai.Text.Utf8.{encode, decode}
use npp_ai.Python.Exceptions.{ok, value_error, require, >>=-eq-ok, require-eq-ok}
use npp_ai.Training.Records.{framed}
use npp_ai.Training.Transition.{at}
use npp_ai.Training.Sequential.{Probability, Kind, at_boundary, exit, copy, CursorEvent, nonzero}
use npp_ai.Training.Sequential.Audit.{
  is_copy, is_timely, follows_on, valid_byte, is_kind, check_source, check_decision, emitted,
  audit_event, audit_each_event, audit_events,
}

take-at :
    (n i : ℕ) (xs : Bytes) (b : ℕ)
    → at xs i ≡ some b
    → take (suc n) (drop i xs) ≡ b ∷ take n (drop (i + 1) xs)
unfolding at
take-at n i [] b h = absurd (cc h)
take-at n zero (x ∷ xs) b h = let same : x ≡ b = ground arith in ap (λ c. c ∷ take n xs) same
take-at n (suc i) (x ∷ xs) b h =
    let next : suc i + 1 ≡ suc (i + 1) = omega arith in rw next (take-at n i xs b h)

module _ (P : Probability) where
  -- The events that copied a byte.
  pub copies : List (CursorEvent P) → ℕ
  copies [] = 0
  copies (event ∷ events) = if is_copy event.kind then suc (copies events) else copies events

  chosen_byte :
      (kind : Kind) (half : Bool) (chosen base_byte byte : ℕ)
      → kind ≡ copy
      → (is_kind P kind half && chosen == (if half then base_byte else byte)) ≡ true
      → some byte ≡ some chosen
  chosen_byte kind true chosen base_byte byte k h = absurd (cc (rw k at h))
  chosen_byte kind false chosen base_byte byte k h =
      let (_, same) = both (is_kind P kind false) (chosen == byte) h in
      ap some (sym ((==_iff chosen byte).0 same))

  check_decision-copy :
      (event : CursorEvent P) (valid : Option ℕ) (source : ℕ) (p : P.Float) (u : Unit {0})
      → event.kind ≡ copy
      → check_decision P event valid source p ≡ ok u
      → valid ≡ some event.chosen
  unfolding check_decision
  check_decision-copy event none source p u k h = cc
  check_decision-copy event (some byte) source p u k h =
      let (u1, _, h1) =
        >>=-eq-ok (require (source == byte && P.is_finite p && P.in_unit p) _) _ h in
      let passed = require-eq-ok _ _ h1 in
      chosen_byte event.kind (P.is_half p) event.chosen event.base_byte byte k passed

  check_source-copy :
      (event : CursorEvent P) (valid : Option ℕ) (decided : Option (ℕ × P.Float)) (u : Unit {0})
      → event.kind ≡ copy
      → check_source P event valid copy decided ≡ ok u
      → valid ≡ some event.chosen
  unfolding check_source
  check_source-copy event valid none u k h = cc
  check_source-copy event valid (some (source, p)) u k h =
      check_decision-copy event valid source p u k h

  nonzero-some : (o : Option ℕ) (b : ℕ) → nonzero o ≡ some b → (o ≡ some b) × ((b == 0) ≡ false)
  unfolding nonzero
  nonzero-some none b h = absurd (cc h)
  nonzero-some (some c) b h = ground arith

  valid_byte-at :
      (frame : Bytes) (left right offset cursor b : ℕ)
      → valid_byte P frame left right offset cursor ≡ some b
      → (at frame cursor ≡ some b) × ((b == 0) ≡ false) × (left ≤ cursor) × (cursor < right)
  unfolding valid_byte
  valid_byte-at frame left right offset cursor b h =
      elim (Bool-cases (leb left cursor && ltb cursor right && leb offset cursor)) [
        | inl inside ↦
            let (first, _) =
              both (leb left cursor && ltb cursor right) (leb offset cursor) inside in
            let (low, high) = both (leb left cursor) (ltb cursor right) first in
            let (found, other) = nonzero-some (at frame cursor) b (rw (valid_byte, inside) at h) in
            (found, other, leb→le left cursor low, ltb→lt cursor right high)
        | inr outside ↦ absurd (cc (rw (valid_byte, outside) at h))
      ]

  emitted-some :
      (output : Bytes) (q b : ℕ) → emitted P output q ≡ b → (b == 0) ≡ false → at output q ≡ some b
  unfolding emitted
  emitted-some output q b h other = at_byte (at output q) refl
    where
      at_byte : (o : Option ℕ) → at output q ≡ o → at output q ≡ some b
      at_byte none e = absurd (ground (arith, rw (emitted, e) at h))
      at_byte (some c) e = e ∙ ap some (rw (emitted, e) at h)

  kind_copy : (kind : Kind) → is_copy kind ≡ true → kind ≡ copy
  unfolding is_copy
  kind_copy copy h = refl
  kind_copy at_boundary h = absurd (cc h)
  kind_copy exit h = absurd (cc h)

  follows_on-steps :
      (previous event : CursorEvent P)
      → follows_on P (some previous) event ≡ true
      → (is_copy previous.kind ≡ true)
        × (event.response_query ≡ previous.response_query + 1)
        × (event.cursor ≡ previous.cursor + 1)
  unfolding follows_on
  follows_on-steps previous event h =
      let (first, cursor) =
        both (is_copy previous.kind && event.response_query == previous.response_query + 1)
          (event.cursor == previous.cursor + 1) h in
      let (kind, query) =
        both (is_copy previous.kind) (event.response_query == previous.response_query + 1) first in
      (
        kind,
        (==_iff event.response_query (previous.response_query + 1)).0 query,
        (==_iff event.cursor (previous.cursor + 1)).0 cursor,
      )

  module _ (frame : Bytes) (left right : ℕ) (output : Bytes) where
    abbrev timing : Option (CursorEvent P) → CursorEvent P → Bool
    timing previous event =
        leb 4 event.response_query
        && ltb event.response_query 160
        && leb event.response_query (length output)
        && is_timely P previous event
        && ltb event.base_byte 256

    audit_event-first :
        (event : CursorEvent P) (u : Unit {0})
        → audit_event P frame left right output none event ≡ ok u
        → event.response_query ≡ 4
    unfolding audit_event is_timely
    audit_event-first event u h =
        let (u1, p1, _) =
          >>=-eq-ok (require (timing none event) (value_error "sequential event timing differs")) _
            h in
        let (early, _) = both _ (ltb event.base_byte 256) (require-eq-ok _ _ p1) in
        let (_, first) = both _ (is_timely P none event) early in
        (==_iff event.response_query 4).0 first

    -- The guards that an audited event has passed.
    audit_event-guards :
        (previous : Option (CursorEvent P)) (event : CursorEvent P) (u : Unit {0})
        → audit_event P frame left right output previous event ≡ ok u
        → (follows_on P previous event ≡ true)
          × ((u' : Unit {0}) × (check_source P event
                  (valid_byte P frame left right
                    ((length frame + event.response_query) - 256)
                    event.cursor)
                  event.kind
                  event.decided
                ≡ ok u'))
          × (event.chosen ≡ emitted P output event.response_query)
    unfolding audit_event
    audit_event-guards previous event u h =
        let (u1, p1, h1) =
          >>=-eq-ok
            (require (timing previous event) (value_error "sequential event timing differs")) _ h in
        let (u2, p2, h2) = >>=-eq-ok (require (follows_on P previous event) _) _ h1 in
        let (u3, p3, h3) = >>=-eq-ok (check_source P event _ event.kind event.decided) _ h2 in
        (
          require-eq-ok _ _ p2,
          (u3, p3),
          (==_iff event.chosen (emitted P output event.response_query)).0 (require-eq-ok _ _ h3),
        )

    -- An audited copy: the byte of the answer at its query is the one of the prompt at its cursor.
    audit_event-copy :
        (previous : Option (CursorEvent P)) (event : CursorEvent P) (u : Unit {0})
        → is_copy event.kind ≡ true
        → audit_event P frame left right output previous event ≡ ok u
        → (at output event.response_query ≡ some event.chosen)
          × (at frame event.cursor ≡ some event.chosen)
          × (left ≤ event.cursor)
          × (event.cursor < right)
    audit_event-copy previous event u k h =
        let (_, (u', source), given) = audit_event-guards previous event u h in
        let kind = kind_copy event.kind k in
        let valid = check_source-copy event _ event.decided u' kind (
          subst
            (λ a.
              check_source P event
                (valid_byte P frame left right ((length frame + event.response_query) - 256)
                  event.cursor)
                a event.decided
              ≡ ok u')
            kind source) in
        let (found, other, low, high) =
          valid_byte-at frame left right ((length frame + event.response_query) - 256) event.cursor
            event.chosen valid in
        (emitted-some output event.response_query event.chosen (sym given) other, found, low, high)

    audit_event-follows :
        (previous event : CursorEvent P) (u : Unit {0})
        → audit_event P frame left right output (some previous) event ≡ ok u
        → (is_copy previous.kind ≡ true)
          × (event.response_query ≡ previous.response_query + 1)
          × (event.cursor ≡ previous.cursor + 1)
    audit_event-follows previous event u h =
        let (behind, _, _) = audit_event-guards (some previous) event u h in
        follows_on-steps previous event behind

    -- Bytes of the answer from a query on, and of the frame from a cursor on.
    abbrev pub Slice : ℕ → ℕ → ℕ → Type 0
    Slice n query cursor =
        (take n (drop query output) ≡ take n (drop cursor frame))
        × ((n ≡ 0) ⊎ ((left ≤ cursor) × (cursor + n ≤ right)))

    Slice-suc :
        (n query cursor b : ℕ)
        → at output query ≡ some b
        → at frame cursor ≡ some b
        → left ≤ cursor
        → cursor < right
        → Slice n (query + 1) (cursor + 1)
        → Slice (suc n) query cursor
    Slice-suc n query cursor b eo ef low high (same, place) = (
      take-at n query output b eo ∙ ap (λ l. b ∷ l) same ∙ sym (take-at n cursor frame b ef),
      inr (low, bound place),
    )
      where
        bound : (n ≡ 0) ⊎ ((left ≤ cursor + 1) × (cursor + 1 + n ≤ right)) → cursor + suc n ≤ right
        bound (inl last) = omega arith
        bound (inr (_, h)) = omega arith

    audit_each_event-Slice :
        (previous : Option (CursorEvent P)) (event : CursorEvent P) (events : List (CursorEvent P))
        (u : Unit {0})
        → audit_each_event P frame left right output previous (event ∷ events) ≡ ok u
        → Slice (copies (event ∷ events)) event.response_query event.cursor
    unfolding audit_each_event copies
    audit_each_event-Slice previous event [] u h =
        let (u1, audited, _) =
          >>=-eq-ok (audit_event P frame left right output previous event) _ h in
        if_intro (λ n. Slice n event.response_query event.cursor) (is_copy event.kind)
          (λ k.
            let (eo, ef, low, high) = audit_event-copy previous event u1 k audited in
            Slice-suc 0 event.response_query event.cursor event.chosen eo ef low high
              (refl, inl refl))
          (λ _. (refl, inl refl))
    audit_each_event-Slice previous event (event' ∷ events) u h =
        let (u1, audited, h1) =
          >>=-eq-ok (audit_event P frame left right output previous event) _ h in
        let (u2, audited', _) =
          >>=-eq-ok (audit_event P frame left right output (some event) event') _ h1 in
        let (k, query, cursor) = audit_event-follows event event' u2 audited' in
        let (eo, ef, low, high) = audit_event-copy previous event u1 k audited in
        let later = audit_each_event-Slice (some event) event' events u h1 in
        rw k (
          Slice-suc _ event.response_query event.cursor event.chosen eo ef low high (
            subst (λ q. Slice (copies (event' ∷ events)) q (event.cursor + 1)) query
              (subst (λ c. Slice (copies (event' ∷ events)) event'.response_query c) cursor later)))

    pub audit_each_event-copied :
        (events : List (CursorEvent P)) (u : Unit {0})
        → audit_each_event P frame left right output none events ≡ ok u
        → (start : ℕ) × Slice (copies events) 4 start
    unfolding audit_each_event copies
    audit_each_event-copied [] u h = (0, (refl, inl refl))
    audit_each_event-copied (event ∷ events) u h =
        let (u1, audited, _) = >>=-eq-ok (audit_event P frame left right output none event) _ h in
        let place =
          subst (λ q. Slice (copies (event ∷ events)) q event.cursor)
            (audit_event-first event u1 audited) (audit_each_event-Slice none event events u h) in
        (event.cursor, place)

-- In an answer that passes the audit, the bytes behind the first four, as many as there are events
-- that copied, are consecutive bytes of the framed prompt, all of them within the prompt itself.
pub audit_events-copied :
    (P : Probability) (prompt output : Text) (events : List (CursorEvent P)) (bytes : Bytes)
    → audit_events P prompt (output, events, bytes) ≡ ok tt
    → (start : ℕ) × Slice P
        (framed prompt)
        8
        (8 + length (encode prompt))
        bytes
        (copies P events)
        4
        start
unfolding audit_events
audit_events-copied P prompt output events bytes h =
    let frame = framed prompt in
    let right = 8 + length (encode prompt) in
    let (u1, _, h1) =
      >>=-eq-ok
        (require
          (leb (length bytes) 160
            && all (λ b. leb 1 b && leb b 255) bytes
            && text_eq (decode bytes) output)
          (value_error "sequential raw output bytes differ"))
        _ h in
    let (u2, each, _) = >>=-eq-ok (audit_each_event P frame 8 right bytes none events) _ h1 in
    audit_each_event-copied P frame 8 right bytes events u2 each
