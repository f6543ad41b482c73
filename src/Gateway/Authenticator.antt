-- ===== src/Gateway/Authenticator.antt =====
-- GatewayAuthenticator (src/gateway/GatewayAuthenticator.ts) on the rate limiter. `hash` is the hash
-- of the rate limiter's keys. Comparing without regard to time is comparing.
use moon_bot.Prelude.{
  ℕ, ◌+◌, ◌-◌, ◌*◌, String, Bool, true, false, ◌&&◌, ◌||◌, Option, none, some, List, [], ◌∷◌, leb,
  ◌==◌, if◌then◌else◌,
}
use moon_bot.JsMap.{JsMap, values}
use moon_bot.Text.{Text, codes, same_text}
use moon_bot.RateLimiter.{RateLimiter, check_token_limit}

-- `tokens` of the first gateway's `auth`, where there is at least one.
pub record GatewayAuthenticator : Type 0 where
  pub auth_config : Option (JsMap String)
  pub rate_limiter : RateLimiter

abbrev pub parse_auth_config : Option (JsMap String) → Option (JsMap String)
parse_auth_config none = none
parse_auth_config (some []) = none
parse_auth_config (some (token ∷ tokens)) = some (token ∷ tokens)

abbrev pub new : Option (JsMap String) → RateLimiter → GatewayAuthenticator
new tokens limiter = record { auth_config = parse_auth_config tokens; rate_limiter = limiter }

abbrev present : {A : Type 0} → Option A → Bool
present none = false
present (some x) = true

abbrev pub is_auth_required : GatewayAuthenticator → Bool
is_auth_required a = present a.auth_config

abbrev pub is_hex : ℕ → Bool
is_hex c = (leb b'0' c && leb c b'9') || (leb b'a' c && leb c b'f') || (leb b'A' c && leb c b'F')

abbrev hex_value : ℕ → ℕ
hex_value c = if leb b'a' c then c - 87 else (if leb b'A' c then c - 55 else c - b'0')

-- `Buffer.from(text, 'hex')`: the bytes up to the first pair that is not hexadecimal.
unfoldable pub decode : Text → List ℕ
decode [] = []
decode (a ∷ []) = []
decode (a ∷ b ∷ s) =
    let rest = decode s in
    if is_hex a && is_hex b then (hex_value a * 16 + hex_value b) ∷ rest else []

-- `timingSafeEqual`; on buffers of different length it throws, which is caught.
unfoldable pub matches_some : Text → List String → Bool
matches_some token [] = false
matches_some token (v ∷ vs) = same_text (decode (codes v)) (decode token) || matches_some token vs

abbrev pub is_valid_token : JsMap String → String → Bool
is_valid_token tokens token = matches_some (codes token) (values tokens)

-- The message and the code of the error.
pub data Validation : Type 0 where
  accepted : Validation
  refused : String → String → Validation

abbrev pub judged : Bool → Bool → Validation
judged false valid = refused "Rate limit exceeded" "RATE_LIMIT_EXCEEDED"
judged true false = refused "Authentication failed" "AUTH_INVALID_TOKEN"
judged true true = accepted

abbrev pub limited_validation :
    JsMap String
    → String
    → RateLimiter × Bool
    → GatewayAuthenticator
    → GatewayAuthenticator × Validation
limited_validation tokens token (limiter, ok) a =
    (record a { rate_limiter = limiter }, judged ok (is_valid_token tokens token))

abbrev pub validate_with :
    (String → String)
    → Option (JsMap String)
    → String
    → ℕ
    → GatewayAuthenticator
    → GatewayAuthenticator × Validation
validate_with hash none token now a = (a, accepted)
validate_with hash (some tokens) token now a =
    if token == ""
    then (a, refused "Authentication required" "AUTH_MISSING_TOKEN")
    else limited_validation tokens token (check_token_limit hash token now a.rate_limiter) a

unfoldable pub validate_token :
    (String → String) → String → ℕ → GatewayAuthenticator → GatewayAuthenticator × Validation
validate_token hash token now a = validate_with hash a.auth_config token now a
