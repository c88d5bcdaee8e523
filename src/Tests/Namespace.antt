-- ===== src/Tests/Namespace.antt =====
-- A whole namespace schedule over one record, whose draws are always the same.
use npp_ai.Prelude.{
  ℕ, zero, suc, ◌+◌, ◌≡◌, refl, Bool, true, false, List, [], ◌∷◌, ◌++◌, replicate, length,
  length-replicate, take, drop, ◌-◌, ◌*◌, subst, ap, leb, ◌&&◌,
}
use npp_ai.Text.{Text, Bytes, codes, text_eq}
use npp_ai.Text.Utf8.{encode}
use npp_ai.Python.Exceptions.{ok, ok_inj}
use npp_ai.Training.Records.{Record, Lexer}
use npp_ai.Training.Schedule.{Random}
use npp_ai.Training.Schedule.Laws.{IsRandom}
use npp_ai.Training.Namespace.{Selection, namespace_schedule, is_diverse, prefix_of, pilot_steps}
use npp_ai.Training.Namespace.Laws.{TakesTurns, namespace_schedule-TakesTurns}

abbrev pub row_g : Record
row_g = record { id = []; function = codes "g"; prompt = codes "g"; answer = codes "def g(" }

abbrev pub always : Random
always = record {
  State = Unit {0};
  seeded = tt;
  sample = λ rows k state. ok (replicate k row_g, tt);
  shuffle = λ draws state. (draws, state);
}

abbrev pub spell : List (Bool × Text × Unit {0}) → Text
spell [] = []
spell ((is_name, string, place) ∷ rest) = string ++ spell rest

abbrev pub lexer_g : Lexer
lexer_g = record {
  Place = Unit {0};
  tokens_of = λ text. ok (
      (false, take 4 text, tt)
      ∷ (true, take (length text - 5) (drop 4 text), tt)
      ∷ (false, drop (length text - 1) text, tt)
      ∷ []);
  untokenize = spell;
  is_word = λ c. leb 48 c && leb c 122;
}

abbrev pub no_digest : Bytes → Bytes
no_digest b = []

-- The record under the prefix of a draw.
abbrev pub prefixed_g : ℕ → Record
prefixed_g n = record {
  id = [];
  function = prefix_of n;
  prompt = prefix_of n;
  answer = codes "def " ++ (prefix_of n ++ codes "(");
}

abbrev pub selections_g : ℕ → ℕ → List Selection
selections_g zero step = []
selections_g (suc n) step =
    (
      row_g ∷ row_g ∷ prefixed_g (step * 2) ∷ prefixed_g (step * 2 + 1) ∷ [],
      true ∷ true ∷ false ∷ false ∷ [],
    )
    ∷ selections_g n (step + 1)

pub drawn_g :
    namespace_schedule no_digest lexer_g always (row_g ∷ []) (codes "diverse")
    ≡ ok (selections_g 512 0)
unfolding namespace_schedule npp_ai.Training.Namespace.select_all npp_ai.Training.Namespace.is_arm
    npp_ai.Training.Schedule.schedule npp_ai.Training.Schedule.batches
    npp_ai.Training.Schedule.batch npp_ai.Training.Schedule.rename_all
    npp_ai.Training.Schedule.key_of npp_ai.Training.Curriculum.shortened
    npp_ai.Training.Records.rename npp_ai.Training.Records.rename_token
    npp_ai.Training.Records.alias npp_ai.Training.Records.sub_from npp_ai.Training.Records.frame
    npp_ai.Training.Records.framed text_eq encode npp_ai.Text.Utf8.encode_char is_diverse prefix_of
    npp_ai.Training.Namespace.diversified npp_ai.Text.starts_with npp_ai.Text.Decimal.decimal
    npp_ai.Text.Decimal.decimal_from npp_ai.Text.Hex.hexdigest npp_ai.Text.Hex.hex_digit
drawn_g = refl

pub always-IsRandom : IsRandom always
always-IsRandom = record {
  sampled = λ rows k state state' xs h.
      subst (λ l. length l ≡ k) {x = replicate k row_g} {y = xs}
        (ap (λ (d : List Record × Unit {0}). d.0) (ok_inj _ _ h)) (length-replicate k row_g);
  shuffled = λ pool draws state. refl;
}

namespace_schedule-TakesTurns_example :
    (length (selections_g 512 0) ≡ pilot_steps)
    × TakesTurns lexer_g (is_diverse (codes "diverse")) 0 (selections_g 512 0)
namespace_schedule-TakesTurns_example =
    namespace_schedule-TakesTurns no_digest lexer_g always (row_g ∷ []) always-IsRandom
      (codes "diverse") (selections_g 512 0) drawn_g
