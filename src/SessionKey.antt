-- ===== src/SessionKey.antt =====
-- Session keys (src/sessions/SessionKey.ts), as texts: "agent:<id>:session:<key>".
pub mod RoundTrip
use moon_bot.Prelude.{
  ℕ, ◌+◌, Bool, true, false, ◌&&◌, not, Option, none, some, List, [], ◌∷◌, ◌++◌, length, leb,
  if◌then◌else◌,
}
use moon_bot.Text
use moon_bot.Text.{Text, codes, same_text, same_code, includes, split}

pub record SessionKeyParts : Type 0 where
  pub agent_id : Text
  pub channel_session_id : Text

unfoldable pub generate : Text → Text → Text
generate agent session =
    codes "agent" ++ (b':' ∷ (agent ++ (b':' ∷ (codes "session" ++ (b':' ∷ session)))))

abbrev filled : Text → Bool
filled [] = false
filled (a ∷ s) = true

-- `/^agent:[^:]+:session:[^:]+$/`: four parts between colons, two of them fixed, two not empty.
abbrev pub has_form : List Text → Bool
has_form (p ∷ agent ∷ q ∷ session ∷ []) =
    same_text p (codes "agent") && filled agent && same_text q (codes "session") && filled session
has_form _ = false

unfoldable pub is_valid : Text → Bool
is_valid key = has_form (split b':' key)

abbrev pub parts_of : List Text → Option SessionKeyParts
parts_of (p ∷ agent ∷ q ∷ session ∷ []) =
    some (record { agent_id = agent; channel_session_id = session })
parts_of _ = none

unfoldable pub parse : Text → Option SessionKeyParts
parse key = if is_valid key then parts_of (split b':' key) else none
