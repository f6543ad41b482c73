-- ===== src/Tests/Gateway.antt =====
-- The gateway's checks and the sessions on concrete inputs.
use text.Mathlib.Text.{starts_with}
use text.Mathlib.TextPositions.{starts_with-append}
use moon_bot.Prelude.{
  String, ◌≡◌, ◌≢◌, refl, Bool, false, Option, none, some, [], ◌∷◌, ◌++◌, arith, ◌↔◌, concat, ap,
  true≢false, sym, ◌∙◌,
}
use moon_bot.Text.{codes, includes}
use moon_bot.RateLimiter
use moon_bot.Gateway.Authenticator.{
  GatewayAuthenticator, new, validate_token, accepted, matches_some,
}
use moon_bot.Gateway.Tokens.{IsAccepted, accepted_iff, suffix_ignored}
use moon_bot.SessionManager
use moon_bot.SessionManager.{SessionManager, create, session_of_task, generate_session_key}
use moon_bot.SessionManager.Lookup.{here, next, runs, IsNoKey, always_new}
use moon_bot.ToolRuntime.ApprovalManager.{argv}
use moon_bot.CommandSanitizer
use moon_bot.CommandSanitizer.{sanitize, safe}
use moon_bot.CommandSanitizer.Safety.{IsSafe, safe_iff}

abbrev own_hash : String → String
own_hash token = token

abbrev gateway : GatewayAuthenticator
gateway = new (some (("cli", "ab12") ∷ [])) RateLimiter.default

accepted_iff_example :
    ((validate_token own_hash "ab12" 5 gateway).1 ≡ accepted)
    ↔ IsAccepted own_hash (some (("cli", "ab12") ∷ [])) "ab12" 5 gateway
accepted_iff_example = accepted_iff own_hash "ab12" 5 gateway

suffix_ignored_example :
    matches_some (codes "ab12" ++ (b'-' ∷ codes "anything")) ("ab12" ∷ [])
    ≡ matches_some (codes "ab12") ("ab12" ∷ [])
suffix_ignored_example =
    suffix_ignored (codes "ab12") b'-' (codes "anything") ("ab12" ∷ [])
      (refl, refl, (refl, refl, tt)) refl

not_empty : codes "main" ≢ []
not_empty e = ground arith

no_colon : includes b':' (codes "main") ≡ false
unfolding includes
no_colon = refl

IsNoKey-discord : IsNoKey "discord:1"
IsNoKey-discord agent session e = true≢false (
    sym (starts_with-append "agent:" (concat agent (concat ":session:" session)))
    ∙ ap (λ t. starts_with t "agent:") (sym e))

abbrev one_task : SessionManager
one_task = (session_of_task "s1" "main" "u" "discord" "discord:1" 1 SessionManager.new).0

always_new_example :
    session_of_task "s2" "main" "u" "discord" "discord:1" 9 one_task
    ≡ create "s2" "main" "u" "discord" (some "discord:1") 9 one_task
always_new_example =
    always_new one_task "s2" "main" "u" "discord" "discord:1" 9
      (next here (runs "s1" "main" "u" "discord" "discord:1" 1)) IsNoKey-discord

abbrev none_found : String → String → Option Bool
none_found p text = some false

abbrev as_it_is : String → String
as_it_is path = path

abbrev joined : String → String → String
joined root path = concat root path

safe_iff_example :
    (sanitize none_found as_it_is joined
        (CommandSanitizer.new none none)
        (argv ("git" ∷ []))
        "/a"
        "/work"
      ≡ safe)
    ↔ IsSafe none_found as_it_is joined
        (CommandSanitizer.new none none)
        (argv ("git" ∷ []))
        "/a"
        "/work"
safe_iff_example =
    safe_iff none_found as_it_is joined (CommandSanitizer.new none none) (argv ("git" ∷ [])) "/a"
      "/work"
