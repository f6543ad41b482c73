-- ===== src/Gateway/Tokens.antt =====
-- Which tokens the gateway accepts.
use moon_bot.Prelude.{
  ℕ, String, ◌≡◌, ◌≢◌, refl, Bool, true, false, Option, none, some, List, [], ◌∷◌, ◌++◌, arith,
  ◌==◌, ◌↔◌, inl, inr, Any, eq_iff, Bool-cases,
}
use moon_bot.JsMap.{JsMap, values}
use moon_bot.Text.{Text, codes}
use moon_bot.Text.Laws.{same_text_iff}
use moon_bot.RateLimiter.{check_token_limit}
use moon_bot.Gateway.Authenticator.{
  GatewayAuthenticator, accepted, decode, is_hex, matches_some, is_valid_token, judged,
  validate_with, validate_token,
}

abbrev pub SameBytes : String → String → Type 0
SameBytes token v = decode (codes v) ≡ decode (codes token)

matches_iff :
    (token : String) (vs : List String)
    → (matches_some (codes token) vs ≡ true) ↔ Any (SameBytes token) vs
unfolding matches_some
matches_iff token [] = (λ h. ground arith, λ h. absurd h)
matches_iff token (v ∷ vs) =
    let below = matches_iff token vs in
    let same = same_text_iff (decode (codes v)) (decode (codes token)) in
    (λ h. ground (arith, below, same), λ h. ground (arith, below, same))

-- No tokens are configured, or the token is there, within the limit and one of them by its bytes.
abbrev pub IsAccepted :
    (String → String) → Option (JsMap String) → String → ℕ → GatewayAuthenticator → Type 0
IsAccepted hash none token now a = Unit
IsAccepted hash (some tokens) token now a =
    (token ≢ "")
    × ((check_token_limit hash token now a.rate_limiter).1 ≡ true)
    × Any (SameBytes token) (values tokens)

judged_iff : (ok valid : Bool) → (judged ok valid ≡ accepted) ↔ ((ok ≡ true) × (valid ≡ true))
judged_iff false valid = (λ h. ground arith, λ h. ground arith)
judged_iff true false = (λ h. ground arith, λ h. ground arith)
judged_iff true true = (λ h. (refl, refl), λ h. refl)

with_iff :
    (hash : String → String) (config : Option (JsMap String)) (token : String) (now : ℕ)
    (a : GatewayAuthenticator)
    → ((validate_with hash config token now a).1 ≡ accepted) ↔ IsAccepted hash config token now a
with_iff hash none token now a = (λ h. tt, λ h. refl)
with_iff hash (some tokens) token now a =
    let limit = check_token_limit hash token now a.rate_limiter in
    let judgement = judged_iff limit.1 (is_valid_token tokens token) in
    let match = matches_iff token (values tokens) in
    elim (Bool-cases (token == "")) [
      | inl empty ↦ rw empty (λ h. ground arith, λ h. absurd (h.0 ((eq_iff token "").0 empty)))
      | inr there ↦ rw there (
        λ h. (λ e. ground (arith, eq_iff token ""), (judgement.0 h).0, match.0 (judgement.0 h).1),
        λ h. judgement.1 (h.1, match.1 h.2),
      )
    ]

-- A connection is accepted exactly if no tokens are configured, or the token is not empty, the rate
-- limiter lets it through, and its bytes are those of a configured token.
pub accepted_iff :
    (hash : String → String) (token : String) (now : ℕ) (a : GatewayAuthenticator)
    → ((validate_token hash token now a).1 ≡ accepted) ↔ IsAccepted hash a.auth_config token now a
unfolding validate_token
accepted_iff hash token now a = with_iff hash a.auth_config token now a

-- Pairs of hexadecimal digits.
abbrev pub IsPairs : Text → Type 0
IsPairs [] = Unit
IsPairs (a ∷ []) = ⊥
IsPairs (a ∷ b ∷ s) = (is_hex a ≡ true) × (is_hex b ≡ true) × IsPairs s

stops : (c : ℕ) (rest : Text) → is_hex c ≡ false → decode (c ∷ rest) ≡ []
unfolding decode
stops c [] h = refl
stops c (d ∷ rest) h = rw h refl

decode-suffix :
    (t : Text) (c : ℕ) (rest : Text)
    → IsPairs t
    → is_hex c ≡ false
    → decode (t ++ (c ∷ rest)) ≡ decode t
unfolding decode
decode-suffix [] c rest p h = stops c rest h
decode-suffix (a ∷ []) c rest p h = absurd p
decode-suffix (a ∷ b ∷ s) c rest p h = rw (decode-suffix s c rest p.2 h) refl

-- Whatever is written behind pairs of hexadecimal digits, if it begins with another character,
-- changes nothing in whether the token is a configured one.
pub suffix_ignored :
    (t : Text) (c : ℕ) (rest : Text) (vs : List String)
    → IsPairs t
    → is_hex c ≡ false
    → matches_some (t ++ (c ∷ rest)) vs ≡ matches_some t vs
unfolding matches_some
suffix_ignored t c rest [] p h = refl
suffix_ignored t c rest (v ∷ vs) p h =
    rw (decode-suffix t c rest p h, suffix_ignored t c rest vs p h) refl
