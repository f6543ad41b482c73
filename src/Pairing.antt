-- ===== src/Pairing.antt =====
-- AuthManager (src/auth/pairing.ts): pairing codes, the users approved with them, the codes used, and
-- the test of a token. Clock readings, the random code and the runtime's SHA-256 are arguments.
pub mod Approval
pub mod Replay
pub mod Tokens
use Prim.Native.Char.{Char, code as code_of}
use Prim.Native.String
use Prim.Native.String.{len}
use moon_bot.Prelude.{
  ℕ, ◌+◌, ◌*◌, String, Bool, true, false, not, ◌&&◌, ◌||◌, Option, none, some, List, [], ◌∷◌, ◌++◌,
  leb, ltb, ◌==◌, if◌then◌else◌,
}
use moon_bot.JsMap
use moon_bot.JsMap.{JsMap, retain, values}

pub record PairingCode : Type 0 where
  pub code : String
  pub user_id : String
  pub expires_at : ℕ
  pub approved : Bool

pub record UsedCodeEntry : Type 0 where
  pub code : String
  pub used_at : ℕ
  pub user_id : String

-- `config.gateways[0].auth`.
pub record AuthConfig : Type 0 where
  pub tokens : Option (JsMap String)
  pub allow_legacy_tokens : Option Bool

-- A `Set` of strings is the list of its members.
pub record AuthManager : Type 0 where
  pub auth : Option AuthConfig
  pub pending_codes : JsMap PairingCode
  pub approved_users : List String
  pub used_codes : JsMap UsedCodeEntry

abbrev pub new : Option AuthConfig → AuthManager
new auth = record { auth = auth; pending_codes = []; approved_users = []; used_codes = [] }

unfoldable pub has_user : String → List String → Bool
has_user u [] = false
has_user u (v ∷ vs) = if v == u then true else has_user u vs

-- `set.add`.
unfoldable pub add_user : String → List String → List String
unfolding has_user
add_user u us = if has_user u us then us else us ++ u ∷ []

abbrev pub new_code : String → String → ℕ → ℕ → PairingCode
new_code code user_id ttl_minutes now = record {
  code = code;
  user_id = user_id;
  expires_at = now + ttl_minutes * 60 * 1000;
  approved = false;
}

unfoldable pub generate_pairing_code :
    String → String → ℕ → ℕ → AuthManager → AuthManager × PairingCode
generate_pairing_code code user_id ttl_minutes now a =
    let p = new_code code user_id ttl_minutes now in
    (record a { pending_codes = JsMap.set code p a.pending_codes }, p)

abbrev pub drop_code : String → AuthManager → AuthManager
drop_code code a = record a { pending_codes = JsMap.delete code a.pending_codes }

-- The part of `approve` from the look-up of the pending code on. The clock is read for the test and
-- again for the entry.
unfoldable pub approve_pending :
    Option PairingCode → String → ℕ → ℕ → AuthManager → AuthManager × Bool
approve_pending none code now later a = (a, false)
approve_pending (some p) code now later a =
    if ltb p.expires_at now then (drop_code code a, false) else (
      record (drop_code code a) {
        approved_users = add_user p.user_id a.approved_users;
        used_codes =
            JsMap.set code (record { code = code; used_at = later; user_id = p.user_id })
              a.used_codes;
      },
      true,
    )

unfoldable pub approve : String → ℕ → ℕ → AuthManager → AuthManager × Bool
unfolding approve_pending
approve code now later a =
    if JsMap.has code a.used_codes
    then (a, false)
    else approve_pending (JsMap.get code a.pending_codes) code now later a

unfoldable pub is_approved : String → AuthManager → Bool
is_approved u a = has_user u a.approved_users

abbrev pub ttl_24h : ℕ
ttl_24h = 24 * 60 * 60 * 1000

-- `now - entry.usedAt > TTL_24H`, with the subtraction moved to the other side.
unfoldable pub cleanup : ℕ → AuthManager → AuthManager
cleanup now a = record a {
  pending_codes = retain (λ _ p. not (ltb p.expires_at now)) a.pending_codes;
  used_codes = retain (λ _ e. not (ltb (e.used_at + ttl_24h) now)) a.used_codes;
}

-- `[a-f0-9]`, with the flag `i`.
abbrev pub is_hex_digit : Char → Bool
is_hex_digit c =
    (leb 48 (code_of c) && leb (code_of c) 57)
    || ((leb 97 (code_of c) && leb (code_of c) 102) || (leb 65 (code_of c) && leb (code_of c) 70))

unfoldable pub all_hex : String → Bool
all_hex String.[] = true
all_hex (String.◌∷◌ c s) = is_hex_digit c && all_hex s

-- "SHA-256 hash format: 64 hex characters". A text of such characters has as many bytes.
unfoldable pub is_hash_format : String → Bool
unfolding all_hex
is_hash_format s = (leb (len s) 64 && leb 64 (len s)) && all_hex s

abbrev pub or_false : Option Bool → Bool
or_false none = false
or_false (some b) = b

unfoldable pub is_valid_for : (String → String) → Bool → String → String → Bool
unfolding is_hash_format
is_valid_for hash allow_legacy token valid_token =
    if is_hash_format valid_token
    then valid_token == hash token
    else (if allow_legacy then valid_token == token else false)

unfoldable pub some_valid : (String → Bool) → List String → Bool
some_valid test [] = false
some_valid test (v ∷ vs) = if test v then true else some_valid test vs

unfoldable pub validate_against : (String → String) → Option AuthConfig → String → Bool
unfolding is_valid_for some_valid
validate_against hash none token = true
validate_against hash (some c) token = elim c.tokens [
  | none ↦ true
  | some tokens ↦
      some_valid (is_valid_for hash (or_false c.allow_legacy_tokens) token) (values tokens)
]

unfoldable pub validate : (String → String) → String → AuthManager → Bool
unfolding validate_against
validate hash token a = validate_against hash a.auth token
