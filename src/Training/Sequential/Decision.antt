-- ===== src/Training/Sequential/Decision.antt =====
-- One decision of the sequential decoder, audited.
use npp_ai.Prelude.{
  ℕ, ◌+◌, ◌-◌, ◌<◌, ◌≡◌, refl, Bool, true, false, ◌&&◌, inl, inr, ◌⊎◌, Option, none, some, List, [],
  ◌∷◌, ◌++◌, leb, ◌==◌, arith,
}
use npp_ai.Text.{Text, starts_with}
use npp_ai.Python.Exceptions.{ok}
use npp_ai.Training.Sequential.{
  Probability, State, copying, ended, Outputs, CursorEvent, choose_byte, copy_decision,
}
use npp_ai.Training.Sequential.Audit.{is_copy, check_source, check_decision}

-- A byte of an answer.
abbrev pub is_answer_byte : ℕ → Bool
is_answer_byte b = leb 1 b && leb b 255

-- What the network is relied on for: bytes below 256, and probabilities.
pub record IsNetwork (P : Probability) (model : List ℕ → List Bool → Outputs P) : Type 0 where
  pub low : (x : List ℕ) (mask : List Bool) → (model x mask).base_byte < 256
  pub finite :
      (x : List ℕ) (mask : List Bool) (c : ℕ)
      → P.is_finite ((model x mask).exit_probability c) ≡ true
  pub unit :
      (x : List ℕ) (mask : List Bool) (c : ℕ) → P.in_unit ((model x mask).exit_probability c) ≡ true

pub starts_with-append : (s t p : Text) → starts_with s p ≡ true → starts_with (s ++ t) p ≡ true
unfolding starts_with
starts_with-append s t [] h = refl
starts_with-append [] t (c ∷ p) h = absurd (cc h)
starts_with-append (d ∷ s) t (c ∷ p) h = ground (arith, starts_with-append s t p)

-- An event for a query and a cursor, with the byte that it chose, audited against the byte under the
-- cursor; behind it the copying goes on only if it was a copy.
pub record Decides (P : Probability) (base_byte query cursor : ℕ) (byte : Option ℕ)
    (d : ℕ × CursorEvent P × State) : Type 0 where
  pub at_query : d.1.response_query ≡ query
  pub at_cursor : d.1.cursor ≡ cursor
  pub base : d.1.base_byte ≡ base_byte
  pub chose : d.1.chosen ≡ d.0
  pub from : (d.0 ≡ base_byte) ⊎ (byte ≡ some d.0)
  pub source : check_source P d.1 byte d.1.kind d.1.decided ≡ ok tt
  pub next : (d.2 ≡ ended) ⊎ ((is_copy d.1.kind ≡ true) × (d.2 ≡ copying (cursor + 1)))

module _ (P : Probability) (base_byte query cursor : ℕ) where
  same : (b : ℕ) → (b == b) ≡ true
  same b = ground arith

  choose_byte-Decides :
      (byte : ℕ) (p : P.Float) (half : Bool)
      → P.is_finite p ≡ true
      → P.in_unit p ≡ true
      → P.is_half p ≡ half
      → Decides P base_byte query cursor
          (some byte)
          (choose_byte P base_byte query byte cursor p half)
  unfolding choose_byte check_source is_copy
  choose_byte-Decides byte p true finite unit half = record {
    at_query = refl;
    at_cursor = refl;
    base = refl;
    chose = refl;
    from = inl refl;
    source = rw (check_decision, finite, unit, half, same byte, same base_byte);
    next = inl refl;
  }
  choose_byte-Decides byte p false finite unit half = record {
    at_query = refl;
    at_cursor = refl;
    base = refl;
    chose = refl;
    from = inr refl;
    source = rw (check_decision, finite, unit, half, same byte);
    next = inr (refl, refl);
  }

  pub copy_decision-Decides :
      (outputs : Outputs P) (byte : Option ℕ) (offset : ℕ)
      → outputs.base_byte ≡ base_byte
      → ((c : ℕ) → P.is_finite (outputs.exit_probability c) ≡ true)
      → ((c : ℕ) → P.in_unit (outputs.exit_probability c) ≡ true)
      → Decides P base_byte query cursor byte (copy_decision P outputs query byte offset cursor)
  unfolding copy_decision check_source
  copy_decision-Decides outputs none offset e finite unit = record {
    at_query = refl;
    at_cursor = refl;
    base = e;
    chose = refl;
    from = inl e;
    source = rw (same outputs.base_byte);
    next = inl refl;
  }
  copy_decision-Decides outputs (some byte) offset e finite unit = rw e (
      choose_byte-Decides byte (outputs.exit_probability (cursor - offset)) _ (finite _) (unit _)
        refl)
