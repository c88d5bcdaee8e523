-- ===== src/Tests/Tokenizer.antt =====
-- A tokenizer trained on a short text.
use npp_ai.Prelude.{ℕ, ◌≤◌, ◌≡◌, refl, none, some, replicate, arith, List, [], ◌∷◌, length, true}
use npp_ai.Text.{Text, codes}
use npp_ai.Text.Utf8.{is_text, encode, decode}
use npp_ai.Tokenizer.{Tokenizer, make_tokenizer, train, encode_text, decode_ids}
use npp_ai.Tokenizer.RoundTrip.{IsConsistent, decode-encode_text}
use npp_ai.Tokenizer.Training.{train-IsConsistent}
use npp_ai.Python.Exceptions.{ok}
use npp_ai.Tokenizer.Saving.{save, load, entry_lines}
use npp_ai.Tokenizer.Saving.RoundTrip.{load-save_trained}
use npp_ai.Tokenizer.Start.{prepare_tokenizer}
use npp_ai.Tokenizer.Start.Laws.{prepare_tokenizer-again}
use npp_ai.Tokenizer.Termination.{IsDone, encode_text-ends}

-- Two merges are learnt from "abab": "ab", then "abab".
abbrev trained : Tokenizer
trained = train (make_tokenizer 258) (codes "abab")

is_text-abab : is_text (codes "abab") ≡ true
unfolding is_text npp_ai.Text.Utf8.is_scalar
is_text-abab = refl

train-IsConsistent_example : IsConsistent (train (make_tokenizer 258) (codes "abab"))
train-IsConsistent_example = train-IsConsistent 258 (codes "abab") is_text-abab

abab_encoded : encode_text trained (codes "abab") ≡ some (257 ∷ [])
unfolding encode_text encode npp_ai.Tokenizer.next_merge npp_ai.Tokenizer.get_stats
    npp_ai.Tokenizer.find train make_tokenizer npp_ai.Tokenizer.merge npp_ai.Tokenizer.most_frequent
    npp_ai.Tokenizer.learn npp_ai.Tokenizer.put npp_ai.Tokenizer.earliest
abab_encoded = refl

decode-encode_text_example : decode_ids trained (257 ∷ []) ≡ some (codes "abab")
decode-encode_text_example =
    decode-encode_text trained (codes "abab") (257 ∷ [])
      (train-IsConsistent 258 (codes "abab") is_text-abab) is_text-abab abab_encoded

encode_text-ends_example :
    (ids : List ℕ) × (encode_text trained (codes "abab") ≡ some ids)
    × (length ids ≤ length (encode (codes "abab")))
    × IsDone trained.merges ids
encode_text-ends_example = encode_text-ends trained (codes "abab")

two_lines :
    entry_lines (((97, 98), 256) ∷ (((256, 256), 257) ∷ [])) ≡ codes "97 98 256\n256 256 257\n"
unfolding entry_lines npp_ai.Tokenizer.Saving.entry_line npp_ai.Text.Decimal.decimal
two_lines = refl

load-save_trained_example :
    load (some (save (train (make_tokenizer 258) (codes "abab")))) (make_tokenizer 258)
    ≡ ok (train (make_tokenizer 258) (codes "abab"))
load-save_trained_example =
    load-save_trained 258 (codes "abab") (make_tokenizer 258) is_text-abab
      (unfold make_tokenizer in refl)

abbrev long_text : Text
long_text = replicate 100 97

is_text-long : is_text long_text ≡ true
unfolding is_text npp_ai.Text.Utf8.is_scalar
is_text-long = refl

prepare_tokenizer-again_example :
    (file : Text) × (prepare_tokenizer long_text none
      ≡ ok (train (make_tokenizer 1024) long_text, file))
    × (prepare_tokenizer long_text (some file) ≡ ok (train (make_tokenizer 1024) long_text, file))
prepare_tokenizer-again_example =
    prepare_tokenizer-again long_text long_text is_text-long (omega arith) (omega arith)
