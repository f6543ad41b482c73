-- ===== src/NodesTool/Consented.antt =====
-- Which nodes nodes.screen_snap turns to.
use moon_bot.Prelude.{
  ℕ, ◌≤◌, ◌<◌, false, false≢true, ◌≡◌, refl, String, Bool, true, Option, none, some, arith, ◌==◌,
  eq_iff, ap, some-injective, Bool-cases, inl, inr,
}
use moon_bot.JsMap
use moon_bot.JsMap.{values}
use moon_bot.NodeSessions.{NodeSessions, NodeConnection, get_nodes_for_user}
use moon_bot.NodeSessions.Upkeep.{
  is_over, check_consent, get_node, get_screen_capture_capable_node, has_screen_capture_consent,
}
use moon_bot.NodesTool.{
  Outcome, refused, handed, available, own, screen_node, consented, snap_checked, snap_found,
  screen_snap,
}
use moon_bot.NodesTool.Handing.{IsOwn, handed-injective, available_iff, first_where-own}

-- The node kept under an id has been granted a consent, and its end, if it has one, is not past.
abbrev pub HasConsent : String → ℕ → NodeSessions → Type 0
HasConsent id now s =
    (m : NodeConnection) × (JsMap.get id s.nodes ≡ some m)
    × (m.screen_capture_consent.granted ≡ true)
    × ((end : ℕ) → m.screen_capture_consent.expires_at ≡ some end → 0 < end → now ≤ end)

not_over :
    (now : ℕ) (o : Option ℕ) (end : ℕ) → is_over now o ≡ false → o ≡ some end → 0 < end → now ≤ end
not_over now none end h e p = ground arith
not_over now (some k) end h e p = ground (arith, some-injective k end e)

check_consent-HasConsent :
    (id : String) (o : Option NodeConnection) (now : ℕ) (s : NodeSessions)
    → JsMap.get id s.nodes ≡ o
    → (check_consent id o now s).1 ≡ true
    → HasConsent id now s
check_consent-HasConsent id none now s e h = ground arith
check_consent-HasConsent id (some m) now s e h =
    elim (Bool-cases m.screen_capture_consent.granted) [
      | inr not_given ↦ absurd (false≢true (rw not_given at h))
      | inl given ↦ elim (Bool-cases (is_over now m.screen_capture_consent.expires_at)) [
        | inl over ↦ absurd (false≢true (rw (given, over) at h))
        | inr lasting ↦
            (m, e, given, λ end. not_over now m.screen_capture_consent.expires_at end lasting)
      ]
    ]

consent-HasConsent :
    (id : String) (now : ℕ) (s : NodeSessions)
    → (has_screen_capture_consent id now s).1 ≡ true
    → HasConsent id now s
unfolding has_screen_capture_consent
consent-HasConsent id now s h = check_consent-HasConsent id (JsMap.get id s.nodes) now s refl h

own-IsOwner :
    (user : String) (o : Option NodeConnection) (n : NodeConnection)
    → own user o ≡ some n
    → n.user_id ≡ user
own-IsOwner user none n e = ground arith
own-IsOwner user (some m) n e = ground (arith, eq_iff m.user_id user, some-injective m n)

screen_node-own :
    (user : String) (id : Option String) (s : NodeSessions) (n : NodeConnection)
    → screen_node user id s ≡ some n
    → n.user_id ≡ user
unfolding get_screen_capture_capable_node get_nodes_for_user
screen_node-own user none s n e = first_where-own user n (values s.nodes) e
screen_node-own user (some id) s n e = elim (Bool-cases (id == "")) [
  | inl is_so ↦ first_where-own user n (values s.nodes) (rw is_so at e)
  | inr is_not ↦ own-IsOwner user (get_node id s) n (rw is_not at e)
]

consented-handed :
    (m n : NodeConnection) (p : NodeSessions × Bool)
    → (consented m p).1 ≡ handed n
    → (m ≡ n) × (p.1 ≡ true)
consented-handed m n (s, b) e = ground (arith, handed-injective m n)

snap_checked-handed :
    (m n : NodeConnection) (o : Outcome) (now : ℕ) (s : NodeSessions)
    → (snap_checked m o now s).1 ≡ handed n
    → (o ≡ handed n) × ((has_screen_capture_consent n.node_id now s).1 ≡ true)
snap_checked-handed m n (refused r) now s e = ground arith
snap_checked-handed m n (handed k) now s e =
    let (same, b) = consented-handed k n (has_screen_capture_consent k.node_id now s) e in
    (ap handed same, rw same at b)

snap_found-handed :
    (user : String) (o : Option NodeConnection) (n : NodeConnection) (now : ℕ) (s : NodeSessions)
    → ((m : NodeConnection) → o ≡ some m → m.user_id ≡ user)
    → (snap_found o now s).1 ≡ handed n
    → IsOwn user n
      × (n.capabilities.screen_capture ≡ true)
      × ((has_screen_capture_consent n.node_id now s).1 ≡ true)
snap_found-handed user none n now s mine e = ground arith
snap_found-handed user (some m) n now s mine e =
    let (o, b) = snap_checked-handed m n (available m.capabilities.screen_capture m) now s e in
    let (same, capable, p) = (available_iff m.capabilities.screen_capture m n).0 o in
    let owner = mine m refl in ((rw same at owner, rw same at p), rw same at capable, b)

-- If nodes.screen_snap turns to a node, the node is the user's and paired, can capture the screen,
-- and the node kept under its id has been granted a consent whose end, if it has one, is not past.
pub snap_consented :
    (user : String) (id : Option String) (now : ℕ) (s : NodeSessions) (n : NodeConnection)
    → (screen_snap user id now s).1 ≡ handed n
    → IsOwn user n × (n.capabilities.screen_capture ≡ true) × HasConsent n.node_id now s
unfolding screen_snap
snap_consented user id now s n e =
    let (mine, capable, b) =
      snap_found-handed user (screen_node user id s) n now s (screen_node-own user id s) e in
    (mine, capable, consent-HasConsent n.node_id now s b)
