-- ===== src/Tokenizer/RoundTrip.antt =====
-- `decode` behind `encode`, for consistent tables.
use npp_ai.Prelude.{
  ℕ, zero, suc, ◌+◌, ◌<◌, ◌≡◌, refl, ◌∙◌, ap, sym, true, Bool-cases, Option-cases, inl, inr, some,
  List, [], ◌∷◌, length, ltb, arith,
}
use mathlib.Core.Option.{some-injective}
use npp_ai.Text.{Text, Bytes, IsBytes}
use npp_ai.Text.Utf8.{is_text, encode}
use npp_ai.Text.Utf8.RoundTrip.{decode-encode, encode-IsBytes}
use npp_ai.Tokenizer.{
  Pair, find, get_stats, merge, Tokenizer, joined, earliest, with_rank, next_merge, encode_loop,
  encode_text, expand, decode_ids,
}
use npp_ai.Tokenizer.Merging.{expand-merge}

-- Every learned pair has a token whose bytes are those of its parts, and the bytes have their own.
pub record IsConsistent (tok : Tokenizer) : Type 0 where
  pub bytes : (b : ℕ) → b < 256 → tok.vocab b ≡ some (b ∷ [])
  pub pairs :
      (p : Pair) (idx : ℕ)
      → find p tok.merges ≡ some idx
      → tok.vocab idx ≡ joined (tok.vocab p.0) (tok.vocab p.1)

with_rank-find :
    (merges : List (Pair × ℕ)) (p : Pair) (pair : Pair) (idx : ℕ)
    → with_rank merges p ≡ some (pair, idx)
    → find pair merges ≡ some idx
unfolding with_rank
with_rank-find merges p pair idx h = ground arith

next_merge-find :
    (merges : List (Pair × ℕ)) (ids : List ℕ) (pair : Pair) (idx : ℕ)
    → next_merge merges ids ≡ some (pair, idx)
    → find pair merges ≡ some idx
unfolding next_merge
next_merge-find merges ids pair idx h = at (get_stats ids) refl
  where
    at : (stats : List (Pair × ℕ)) → get_stats ids ≡ stats → find pair merges ≡ some idx
    at [] e = cc (rw (e, next_merge) at h)
    at ((p, n) ∷ stats) e =
        with_rank-find merges (earliest merges p stats) pair idx (rw (e, next_merge) at h)

-- Encoding, however far it gets, keeps the bytes.
expand-encode_loop :
    (tok : Tokenizer) (fuel : ℕ) (ids out : List ℕ)
    → IsConsistent tok
    → encode_loop fuel tok.merges ids ≡ some out
    → expand tok.vocab out ≡ expand tok.vocab ids
unfolding encode_loop
expand-encode_loop tok zero ids out c h = cc
expand-encode_loop tok (suc fuel) ids out c h = elim (Bool-cases (ltb (length ids) 2)) [
  | inl short ↦ ap (expand tok.vocab) (sym (some-injective ids out (rw short at h)))
  | inr long ↦ elim (Option-cases (next_merge tok.merges ids)) [
    | inl over ↦ ap (expand tok.vocab) (sym (some-injective ids out (rw (long, over) at h)))
    | inr ((pair, idx), e) ↦
        expand-encode_loop tok fuel (merge ids pair idx) out c (rw (long, e) at h)
        ∙ expand-merge tok.vocab ids pair idx
            (c.pairs pair idx (next_merge-find tok.merges ids pair idx e))
  ]
]

expand-bytes :
    (tok : Tokenizer) (bs : Bytes) → IsConsistent tok → IsBytes bs → expand tok.vocab bs ≡ some bs
unfolding expand
expand-bytes tok [] c h = refl
expand-bytes tok (b ∷ bs) c h =
    rw (c.bytes b (ground arith), expand-bytes tok bs c (ground arith)) (unfold joined in refl)

-- Whatever text a consistent tokenizer encodes, decoding gives the text back.
pub decode-encode_text :
    (tok : Tokenizer) (text : Text) (ids : List ℕ)
    → IsConsistent tok
    → is_text text ≡ true
    → encode_text tok text ≡ some ids
    → decode_ids tok ids ≡ some text
unfolding decode_ids encode_text
decode-encode_text tok text ids c h e =
    let whole : expand tok.vocab ids ≡ some (encode text) =
      expand-encode_loop tok (length (encode text) + 1) (encode text) ids c e
      ∙ expand-bytes tok (encode text) c (encode-IsBytes text h) in
    rw (whole, decode_ids) (ap some (decode-encode text h))
