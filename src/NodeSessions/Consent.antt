-- ===== src/NodeSessions/Consent.antt =====
-- How long a consent to screen capture holds (NodeSessionManager).
use moon_bot.Prelude.{
  ℕ, ◌+◌, String, ◌≡◌, refl, ◌∙◌, Bool, true, false, Option, none, some, arith, eq_refl, leb, ltb,
  if◌then◌else◌,
}
use moon_bot.JsMap
use moon_bot.JsMap.Laws.{get-set}
use moon_bot.NodeSessions.{NodeSessions, NodeConnection, put_node}
use moon_bot.NodeSessions.Upkeep.{
  grant_screen_capture_consent, has_screen_capture_consent, revoke_screen_capture_consent,
  consent_of, revoked, until, check_consent,
}

abbrev pub lasts : Option ℕ → ℕ → ℕ → Bool
lasts none later at = true
lasts (some duration) later at = if ltb 0 duration then leb at (later + duration) else true

get-put_node :
    (id : String) (n : NodeConnection) (s : NodeSessions)
    → JsMap.get id (put_node id n s).nodes ≡ some n
get-put_node id n s = get-set id id n s.nodes ∙ rw (eq_refl id) refl

lasts-until :
    (duration : Option ℕ) (later at : ℕ) (n : NodeConnection) (id : String) (s : NodeSessions)
    → n.screen_capture_consent.granted ≡ true
    → n.screen_capture_consent.expires_at ≡ until duration later
    → (check_consent id (some n) at s).1 ≡ lasts duration later at
lasts-until none later at n id s g e = rw (g, e) refl
lasts-until (some duration) later at n id s g e = rw (g, e) (ground arith)

-- A consent granted to a known node holds up to and including the end of its duration, and without
-- end where there is no duration or it is 0; one that is revoked does not hold.
pub consent_exact :
    (id : String) (duration : Option ℕ) (now later at : ℕ) (n : NodeConnection) (s : NodeSessions)
    → JsMap.get id s.nodes ≡ some n
    → (granted : NodeSessions) × (grant_screen_capture_consent id duration now later s
        ≡ some granted)
      × ((has_screen_capture_consent id at granted).1 ≡ lasts duration later at)
      × ((revoked : NodeSessions) × (revoke_screen_capture_consent id granted ≡ some revoked)
          × ((has_screen_capture_consent id at revoked).1 ≡ false))
unfolding grant_screen_capture_consent has_screen_capture_consent revoke_screen_capture_consent
consent_exact id duration now later at n s h =
    let n₁ = record n { screen_capture_consent = consent_of duration now later } in
    let n₂ = record n₁ { screen_capture_consent = revoked n₁.screen_capture_consent } in
    let s₁ = put_node id n₁ s in
    (
      s₁,
      rw h refl,
      rw (get-put_node id n₁ s) (lasts-until duration later at n₁ id s₁ refl refl),
      (put_node id n₂ s₁, rw (get-put_node id n₁ s) refl, rw (get-put_node id n₂ s₁) refl),
    )
