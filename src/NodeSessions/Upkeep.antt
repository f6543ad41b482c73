-- ===== src/NodeSessions/Upkeep.antt =====
-- NodeSessionManager (src/tools/nodes/NodeSessionManager.ts): what happens to nodes once paired.
use moon_bot.Prelude.{
  ℕ, ◌+◌, ◌-◌, String, Bool, true, false, ◌&&◌, Option, none, some, List, [], ◌∷◌, ltb, filter,
  length, ◌==◌, if◌then◌else◌,
}
use moon_bot.JsMap
use moon_bot.JsMap.{JsMap, values}
use moon_bot.NodeSessions.{
  NodeSessions, NodeConnection, PendingPairing, ScreenCaptureConsent, paired, offline, is_paired,
  find_node, put_node, or_zero, get_nodes_for_user, cleanup_expired_pairings,
}

unfoldable pub get_node : String → NodeSessions → Option NodeConnection
get_node id s = JsMap.get id s.nodes

unfoldable pub get_node_by_socket : String → NodeSessions → Option (String × NodeConnection)
get_node_by_socket socket s = find_node (λ n. n.socket_id == socket) s.nodes

unfoldable pub first_where : (NodeConnection → Bool) → List NodeConnection → Option NodeConnection
first_where test [] = none
first_where test (n ∷ ns) = if test n then some n else first_where test ns

unfoldable pub get_screen_capture_capable_node : String → NodeSessions → Option NodeConnection
unfolding first_where
get_screen_capture_capable_node user s =
    first_where (λ n. n.capabilities.screen_capture && is_paired n.status)
      (get_nodes_for_user user s)

abbrev pub own_paired : String → Option NodeConnection → Option NodeConnection
own_paired user none = none
own_paired user (some n) = if n.user_id == user && is_paired n.status then some n else none

abbrev pub selected : String → Option String → NodeConnection → NodeSessions → Option NodeConnection
selected user none first s = some first
selected user (some id) first s =
    if id == "" then some first else own_paired user (JsMap.get id s.nodes)

-- `none` where the source throws.
unfoldable pub select_node_for_command :
    String → Option String → NodeSessions → Option NodeConnection
select_node_for_command user id s =
    elim (filter (λ n. is_paired n.status) (get_nodes_for_user user s)) [
      | [] ↦ none
      | first ∷ _ ↦ selected user id first s
    ]

abbrev pub change :
    (NodeConnection → NodeConnection)
    → Option (String × NodeConnection)
    → NodeSessions
    → NodeSessions
change f none s = s
change f (some (k, n)) s = put_node k (f n) s

abbrev pub keyed : String → Option NodeConnection → Option (String × NodeConnection)
keyed k none = none
keyed k (some n) = some (k, n)

unfoldable pub update_last_seen : String → ℕ → NodeSessions → NodeSessions
update_last_seen id now s =
    change (λ n. record n { last_seen = now }) (keyed id (JsMap.get id s.nodes)) s

unfoldable pub mark_offline : String → NodeSessions → NodeSessions
unfolding get_node_by_socket
mark_offline socket s = change (λ n. record n { status = offline }) (get_node_by_socket socket s) s

unfoldable pub mark_paired : String → ℕ → NodeSessions → NodeSessions
unfolding get_node_by_socket
mark_paired socket now s =
    change (λ n. record n { status = paired; last_seen = now }) (get_node_by_socket socket s) s

-- `durationMs ? Date.now() + durationMs : undefined`.
abbrev pub until : Option ℕ → ℕ → Option ℕ
until none now = none
until (some duration) now = if ltb 0 duration then some (now + duration) else none

abbrev pub consent_of : Option ℕ → ℕ → ℕ → ScreenCaptureConsent
consent_of duration now later = record {
  granted = true;
  granted_at = some now;
  expires_at = until duration later;
}

abbrev pub changed :
    (NodeConnection → NodeConnection)
    → String
    → Option NodeConnection
    → NodeSessions
    → Option NodeSessions
changed f id none s = none
changed f id (some n) s = some (put_node id (f n) s)

-- `none` where the source throws "Node not found".
unfoldable pub grant_screen_capture_consent :
    String → Option ℕ → ℕ → ℕ → NodeSessions → Option NodeSessions
grant_screen_capture_consent id duration now later s =
    changed (λ n. record n { screen_capture_consent = consent_of duration now later }) id
      (JsMap.get id s.nodes) s

abbrev pub revoked : ScreenCaptureConsent → ScreenCaptureConsent
revoked c = record c { granted = false }

abbrev pub is_over : ℕ → Option ℕ → Bool
is_over now none = false
is_over now (some end) = ltb 0 end && ltb end now

abbrev pub check_consent : String → Option NodeConnection → ℕ → NodeSessions → NodeSessions × Bool
check_consent id none now s = (s, false)
check_consent id (some n) now s =
    if n.screen_capture_consent.granted
    then (if is_over now n.screen_capture_consent.expires_at
        then (
          put_node id (record n { screen_capture_consent = revoked n.screen_capture_consent }) s,
          false,
        )
        else (s, true))
    else (s, false)

unfoldable pub has_screen_capture_consent : String → ℕ → NodeSessions → NodeSessions × Bool
has_screen_capture_consent id now s = check_consent id (JsMap.get id s.nodes) now s

unfoldable pub revoke_screen_capture_consent : String → NodeSessions → Option NodeSessions
revoke_screen_capture_consent id s =
    changed (λ n. record n { screen_capture_consent = revoked n.screen_capture_consent }) id
      (JsMap.get id s.nodes) s

abbrev pub uncount : String → NodeSessions → JsMap ℕ
uncount user s =
    let current = or_zero (JsMap.get user s.user_node_count) in
    if ltb 1 current
    then JsMap.set user (current - 1) s.user_node_count
    else JsMap.delete user s.user_node_count

unfoldable pub remove_found : String → Option NodeConnection → NodeSessions → NodeSessions × Bool
remove_found id none s = (s, false)
remove_found id (some n) s =
    (record s { user_node_count = uncount n.user_id s; nodes = JsMap.delete id s.nodes }, true)

unfoldable pub remove_node : String → NodeSessions → NodeSessions × Bool
unfolding remove_found
remove_node id s = remove_found id (JsMap.get id s.nodes) s

-- `now - node.lastSeen > sessionTimeoutMs`, with the subtraction moved to the other side.
unfoldable pub idle_ids : ℕ → ℕ → JsMap NodeConnection → List String
idle_ids now timeout [] = []
idle_ids now timeout ((id, n) ∷ m) =
    let rest = idle_ids now timeout m in if ltb (n.last_seen + timeout) now then id ∷ rest else rest

unfoldable pub remove_all : List String → NodeSessions → NodeSessions
unfolding remove_node
remove_all [] s = s
remove_all (id ∷ ids) s = remove_all ids (remove_node id s).0

unfoldable pub cleanup_expired : ℕ → NodeSessions → NodeSessions × ℕ
unfolding idle_ids remove_all
cleanup_expired now s =
    let s' = cleanup_expired_pairings now s in
    let ids = idle_ids now s.config.session_timeout_ms s.nodes in
    (remove_all ids s', (length s.pending_pairings - length s'.pending_pairings) + length ids)

abbrev pub get_pending_pairing : String → NodeSessions → Option PendingPairing
get_pending_pairing code s = JsMap.get code s.pending_pairings

abbrev pub get_all_nodes : NodeSessions → List NodeConnection
get_all_nodes s = values s.nodes

abbrev pub count : NodeSessions → ℕ
count s = length s.nodes

unfoldable pub close_all : NodeSessions → NodeSessions
close_all s = record s { nodes = []; pending_pairings = []; user_node_count = [] }
