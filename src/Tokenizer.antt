-- ===== src/Tokenizer.antt =====
-- `BPETokenizer` of train_nppai.py. A dict is its items in the order of insertion; `vocab` is a
-- function into `Option`, where a missing key is `none` (KeyError).
pub mod Merging
pub mod RoundTrip
pub mod Training
pub mod Termination
pub mod Saving
pub mod Start
use npp_ai.Prelude.{
  ℕ, zero, suc, ◌+◌, ◌-◌, Bool, true, false, ◌&&◌, Option, none, some, List, [], ◌∷◌, ◌++◌, length,
  ltb, ◌==◌, if◌then◌else◌,
}
use npp_ai.Text.{Text, Bytes}
use npp_ai.Text.Utf8.{encode, decode}

abbrev pub Pair : Type 0
Pair = ℕ × ℕ

unfoldable pub pair_eq : Pair → Pair → Bool
pair_eq (a, b) (c, d) = a == c && b == d

-- `d.get(pair)`
unfoldable pub find : Pair → List (Pair × ℕ) → Option ℕ
unfolding pair_eq
find p [] = none
find p ((q, n) ∷ d) = if pair_eq q p then some n else find p d

-- `d[pair] = n`
unfoldable pub put : Pair → ℕ → List (Pair × ℕ) → List (Pair × ℕ)
unfolding pair_eq
put p n [] = (p, n) ∷ []
put p n ((q, m) ∷ d) = if pair_eq q p then (q, n) ∷ d else (q, m) ∷ put p n d

-- `counts[pair] = counts.get(pair, 0) + 1`
unfoldable pub bump : Pair → List (Pair × ℕ) → List (Pair × ℕ)
unfolding pair_eq
bump p [] = (p, 1) ∷ []
bump p ((q, n) ∷ d) = if pair_eq q p then (q, n + 1) ∷ d else (q, n) ∷ bump p d

-- The loop of `get_stats` over `zip(ids, ids[1:])`.
unfoldable pub count_pairs : List (Pair × ℕ) → List ℕ → List (Pair × ℕ)
unfolding bump
count_pairs counts [] = counts
count_pairs counts (a ∷ []) = counts
count_pairs counts (a ∷ (b ∷ ids)) = count_pairs (bump (a, b) counts) (b ∷ ids)

unfoldable pub get_stats : List ℕ → List (Pair × ℕ)
unfolding count_pairs
get_stats ids = count_pairs [] ids

-- `merge(ids, pair, idx)`, the list from position `i` on.
unfoldable pub merge : List ℕ → Pair → ℕ → List ℕ
merge [] pair idx = []
merge (a ∷ []) pair idx = a ∷ []
merge (a ∷ (b ∷ ids)) pair idx =
    let skip = idx ∷ merge ids pair idx in
    let step = a ∷ merge (b ∷ ids) pair idx in if a == pair.0 && b == pair.1 then skip else step

-- `max(stats, key=stats.get)`: the first pair with the largest count.
unfoldable pub most_frequent : Pair → ℕ → List (Pair × ℕ) → Pair
most_frequent best n [] = best
most_frequent best n ((q, m) ∷ stats) =
    most_frequent (if ltb n m then q else best) (if ltb n m then m else n) stats

pub record Tokenizer : Type 0 where
  pub vocab_size : ℕ
  pub merges : List (Pair × ℕ)
  pub vocab : ℕ → Option Bytes

-- `{i: bytes([i]) for i in range(256)}`
unfoldable pub base_vocab : ℕ → Option Bytes
base_vocab i = if ltb i 256 then some (i ∷ []) else none

unfoldable pub make_tokenizer : ℕ → Tokenizer
unfolding base_vocab
make_tokenizer vocab_size = record { vocab_size = vocab_size; merges = []; vocab = base_vocab }

-- `self.vocab[a] + self.vocab[b]`
unfoldable pub joined : Option Bytes → Option Bytes → Option Bytes
joined none y = none
joined (some x) none = none
joined (some x) (some y) = some (x ++ y)

-- `self.merges[best] = idx` and `self.vocab[idx] = …`
unfoldable pub learn : Tokenizer → Pair → ℕ → Tokenizer
unfolding joined
learn tok best idx = record {
  vocab_size = tok.vocab_size;
  merges = put best idx tok.merges;
  vocab = λ i. if i == idx then joined (tok.vocab best.0) (tok.vocab best.1) else tok.vocab i;
}

-- The rounds of `train` that are left, from round `i`.
unfoldable pub train_loop : ℕ → ℕ → List ℕ → Tokenizer → Tokenizer
train_loop zero i ids tok = tok
train_loop (suc rounds) i ids tok = elim (get_stats ids) [
  | [] ↦ tok
  | (p, n) ∷ stats ↦
      let best = most_frequent p n stats in
      let idx = 256 + i in train_loop rounds (i + 1) (merge ids best idx) (learn tok best idx)
]

unfoldable pub train : Tokenizer → Text → Tokenizer
unfolding train_loop
train tok text = train_loop (tok.vocab_size - 256) 0 (encode text) tok

-- `merges.get(p, float('inf'))`, compared with the best rank so far; none is infinity.
unfoldable pub rank_less : Option ℕ → Option ℕ → Bool
rank_less none y = false
rank_less (some a) none = true
rank_less (some a) (some b) = ltb a b

-- `min(stats, key=…)`: the first pair of the lowest rank.
unfoldable pub earliest : List (Pair × ℕ) → Pair → List (Pair × ℕ) → Pair
unfolding rank_less find
earliest merges best [] = best
earliest merges best ((q, m) ∷ stats) =
    earliest merges (if rank_less (find q merges) (find best merges) then q else best) stats

-- The pair that the loop of `encode` merges next, with its token; none where it breaks. (With two
-- tokens or more there is a pair, and `min` has something to choose from.)
unfoldable pub with_rank : List (Pair × ℕ) → Pair → Option (Pair × ℕ)
with_rank merges pair = elim (find pair merges) [ none ↦ none | some idx ↦ some (pair, idx) ]

unfoldable pub next_merge : List (Pair × ℕ) → List ℕ → Option (Pair × ℕ)
unfolding with_rank
next_merge merges ids = elim (get_stats ids) [
  | [] ↦ none
  | (p, n) ∷ stats ↦ with_rank merges (earliest merges p stats)
]

-- The loop of `encode`, with fuel, which is one more than the number of bytes.
unfoldable pub encode_loop : ℕ → List (Pair × ℕ) → List ℕ → Option (List ℕ)
encode_loop zero merges ids = none
encode_loop (suc fuel) merges ids =
    if ltb (length ids) 2 then some ids else elim (next_merge merges ids) [
      | none ↦ some ids
      | some (pair, idx) ↦ encode_loop fuel merges (merge ids pair idx)
    ]

unfoldable pub encode_text : Tokenizer → Text → Option (List ℕ)
unfolding encode_loop
encode_text tok text = let ids = encode text in encode_loop (length ids + 1) tok.merges ids

-- `b"".join(self.vocab[i] for i in ids)`
unfoldable pub expand : (ℕ → Option Bytes) → List ℕ → Option Bytes
unfolding joined
expand vocab [] = some []
expand vocab (i ∷ ids) = joined (vocab i) (expand vocab ids)

unfoldable pub decode_ids : Tokenizer → List ℕ → Option Text
unfolding expand
decode_ids tok ids = elim (expand tok.vocab ids) [ none ↦ none | some b ↦ some (decode b) ]
