-- ===== src/Pairing/Tokens.antt =====
-- Which tokens AuthManager accepts.
use moon_bot.Prelude.{
  String, ◌≡◌, Bool, true, false, some, List, [], ◌∷◌, arith, eq_iff, ◌==◌, if◌then◌else◌,
}
use moon_bot.JsMap.{JsMap, values}
use moon_bot.Pairing.{
  AuthManager, is_hash_format, is_valid_for, some_valid, validate_against, validate,
}

unfoldable pub includes : List String → String → Bool
includes [] x = false
includes (v ∷ vs) x = if v == x then true else includes vs x

-- The text is a token that the configuration names as it stands, and not by a hash.
abbrev pub is_plain : List String → String → Bool
is_plain vs token = if is_hash_format token then false else includes vs token

some_valid-eq-includes :
    (hash : String → String) (legacy : Bool) (token : String) (vs : List String)
    → is_hash_format (hash token) ≡ true
    → some_valid (is_valid_for hash legacy token) vs
      ≡ (if includes vs (hash token) then true else (if legacy then is_plain vs token else false))
unfolding some_valid is_valid_for includes
some_valid-eq-includes hash legacy token [] h = ground arith
some_valid-eq-includes hash legacy token (v ∷ vs) h =
    ground
      (arith, eq_iff v (hash token), eq_iff v token, some_valid-eq-includes hash legacy token vs h)

-- With tokens configured, and a hash whose values all have the format of a hash, a token is
-- accepted exactly if its hash is configured, or if legacy tokens are allowed and the token itself
-- is configured and does not have the format of a hash.
pub validate_exact :
    (hash : String → String) (token : String) (tokens : JsMap String) (legacy : Bool)
    (a : AuthManager)
    → ((s : String) → is_hash_format (hash s) ≡ true)
    → a.auth ≡ some (record { tokens = some tokens; allow_legacy_tokens = some legacy })
    → validate hash token a ≡ (
        if includes (values tokens) (hash token)
        then true
        else (if legacy then is_plain (values tokens) token else false))
unfolding validate validate_against
validate_exact hash token tokens legacy a h e =
    rw e (some_valid-eq-includes hash legacy token (values tokens) (h token))
