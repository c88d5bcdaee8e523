-- ===== src/Server/Auth.antt =====
-- `require_api_key` and `positive_int_env` of server_backend.py; the values of the environment and
-- the parser of `int(…)` are parameters.
use npp_ai.Prelude.{
  ℕ, ◌≤◌, ◌≡◌, ◌↔◌, refl, ap, subst, sym, Bool, true, false, ◌&&◌, Option, none, some, [], ◌∷◌, all,
  ltb, if◌then◌else◌, arith, ◌≢◌,
}
use mathlib.Core.Option.{some-injective}
use npp_ai.Text.{Text, text_eq}
use npp_ai.Text.Laws.{text_eq_refl, eq_of_text_eq}
use npp_ai.Python.Int.{ℤ, pos, negsuc, ◌≤ℤᵇ◌, pos_part}
use npp_ai.Python.Exceptions.{Result, ok, err, http_exception, other_exception}

-- `not expected_key` holds for an absent and for an empty key. `secrets.compare_digest` compares
-- texts of ASCII characters only, and raises TypeError at any other.
is_ascii : Text → Bool
is_ascii = all (λ c. ltb c 128)

compare_digest : Text → Text → Result Bool
unfolding is_ascii
compare_digest a b =
    if is_ascii a && is_ascii b
    then ok (text_eq a b)
    else err (other_exception "comparing strings with non-ASCII characters is not supported")

-- The key of the environment, then the header `X-API-Key`.
pub require_api_key : Option Text → Option Text → Result (Unit {0})
unfolding compare_digest
require_api_key none x_api_key = err (http_exception 503 "API authentication is not configured")
require_api_key (some []) x_api_key =
    err (http_exception 503 "API authentication is not configured")
require_api_key (some (c ∷ key)) none = err (http_exception 401 "API key required")
require_api_key (some (c ∷ key)) (some given) = elim (compare_digest given (c ∷ key)) [
  | err e ↦ err e
  | ok true ↦ ok tt
  | ok false ↦ err (http_exception 403 "Invalid API key")
]

-- A request passes exactly if a key is configured, consists of ASCII characters and is not empty,
-- and the header is that key.
pub require_api_key_iff :
    (expected given : Option Text)
    → (require_api_key expected given ≡ ok tt) ↔ (
        (key : Text) × (expected ≡ some key)
        × (given ≡ some key)
        × (key ≢ [])
        × (all (λ c. ltb c 128) key ≡ true))
unfolding require_api_key
require_api_key_iff none given = (λ h. cc, λ (key, e, f, n, a). cc)
require_api_key_iff (some []) given = (λ h. cc, λ (key, e, f, n, a). absurd (n (ground arith)))
require_api_key_iff (some (c ∷ key)) none = (λ h. cc, λ (k, e, f, n, a). cc)
require_api_key_iff (some (c ∷ key)) (some given) =
    (λ h. passes h, λ (k, e, f, n, a). accepted k e f a)
  where
    passes :
        require_api_key (some (c ∷ key)) (some given) ≡ ok tt
        → (k : Text) × (◌≡◌ {A = Option Text} (some (c ∷ key)) (some k))
          × (◌≡◌ {A = Option Text} (some given) (some k))
          × (k ≢ [])
          × (all (λ x. ltb x 128) k ≡ true)
    passes h =
        let same : given ≡ c ∷ key = eq_of_text_eq given (c ∷ key) (ground arith) in
        (c ∷ key, refl, ap some same, λ n. cc, ground arith)

    accepted :
        (k : Text)
        → ◌≡◌ {A = Option Text} (some (c ∷ key)) (some k)
        → ◌≡◌ {A = Option Text} (some given) (some k)
        → all (λ x. ltb x 128) k ≡ true
        → require_api_key (some (c ∷ key)) (some given) ≡ ok tt
    accepted k e f a =
        let same : given ≡ c ∷ key = cc in
        let ascii : all (λ x. ltb x 128) (c ∷ key) ≡ true =
          subst (λ t. all (λ x. ltb x 128) t ≡ true) (sym (some-injective (c ∷ key) k e)) a in
        rw same (ground (arith, ascii, text_eq_refl (c ∷ key)))

module _ (parse_int : Text → Option ℤ) where
  pub positive_int_env : Option Text → ℕ → ℕ
  positive_int_env none default = default
  positive_int_env (some text) default = elim (parse_int text) [
    | none ↦ default
    | some value ↦ if pos 1 ≤ℤᵇ value then pos_part value else default
  ]

  pub positive_int_env-pos :
      (value : Option Text) (default : ℕ) → 1 ≤ default → 1 ≤ positive_int_env value default
  unfolding positive_int_env
  positive_int_env-pos none default h = h
  positive_int_env-pos (some text) default h = at (parse_int text)
    where
      at :
          (z : Option ℤ)
          → 1 ≤ elim z [
            | none ↦ default
            | some value ↦ if pos 1 ≤ℤᵇ value then pos_part value else default
          ]
      at none = h
      at (some (pos n)) = ground arith
      at (some (negsuc n)) = h
