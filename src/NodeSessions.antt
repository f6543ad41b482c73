-- ===== src/NodeSessions.antt =====
-- NodeSessionManager (src/tools/nodes/NodeSessionManager.ts): nodes, their pairing and the consent to
-- screen capture. Clock readings, random codes and ids are arguments; a call that throws returns
-- `none` beside the state it leaves. A node is one object, which is changed under its key in the map.
pub mod Upkeep
pub mod Counts
pub mod Steps
pub mod Consent
use moon_bot.Prelude.{
  ℕ, zero, suc, ◌+◌, ◌-◌, String, Bool, true, false, not, ◌&&◌, Option, none, some, List, [], ◌∷◌,
  leb, ltb, filter, length, ◌==◌, if◌then◌else◌,
}
use moon_bot.JsMap
use moon_bot.JsMap.{JsMap, retain, values}

pub record ScreenCaptureConsent : Type 0 where
  pub granted : Bool
  pub granted_at : Option ℕ
  pub expires_at : Option ℕ

pub record Capabilities : Type 0 where
  pub screen_capture : Bool
  pub command_exec : Bool

pub data NodeConnectionStatus : Type 0 where
  pending paired offline expired : NodeConnectionStatus

abbrev pub is_paired : NodeConnectionStatus → Bool
is_paired paired = true
is_paired _ = false

pub record NodeConnection : Type 0 where
  pub node_id : String
  pub socket_id : String
  pub user_id : String
  pub node_name : String
  pub platform : String
  pub capabilities : Capabilities
  pub screen_capture_consent : ScreenCaptureConsent
  pub status : NodeConnectionStatus
  pub paired_at : ℕ
  pub last_seen : ℕ

pub record PendingPairing : Type 0 where
  pub code : String
  pub user_id : String
  pub created_at : ℕ
  pub expires_at : ℕ

pub record NodeConfig : Type 0 where
  pub pairing_code_ttl_ms : ℕ
  pub session_timeout_ms : ℕ
  pub max_nodes_per_user : ℕ

abbrev pub default_config : NodeConfig
default_config = record {
  pairing_code_ttl_ms = 300000;
  session_timeout_ms = 3600000;
  max_nodes_per_user = 5;
}

pub record NodeSessions : Type 0 where
  pub nodes : JsMap NodeConnection
  pub pending_pairings : JsMap PendingPairing
  pub user_node_count : JsMap ℕ
  pub config : NodeConfig

abbrev pub new : NodeConfig → NodeSessions
new config = record { nodes = []; pending_pairings = []; user_node_count = []; config = config }

abbrev pub is_of : String → NodeConnection → Bool
is_of user n = n.user_id == user

unfoldable pub get_nodes_for_user : String → NodeSessions → List NodeConnection
get_nodes_for_user user s = filter (is_of user) (values s.nodes)

unfoldable pub cleanup_expired_pairings : ℕ → NodeSessions → NodeSessions
cleanup_expired_pairings now s = record s {
  pending_pairings = retain (λ _ p. not (ltb p.expires_at now)) s.pending_pairings;
}

-- The `do` loop: at most 100 codes are drawn, and a further one only to throw.
unfoldable pub unique_code : ℕ → ℕ → (ℕ → String) → JsMap PendingPairing → Option String
unique_code zero n draw m = none
unique_code (suc left) n draw m =
    let rest = unique_code left (suc n) draw m in
    if JsMap.has (draw n) m then rest else some (draw n)

unfoldable pub add_pairing :
    Option String → String → ℕ → NodeSessions → NodeSessions × Option String
add_pairing none user now s = (s, none)
add_pairing (some code) user now s = (
  record s {
    pending_pairings =
        JsMap.set code
          (record {
            code = code;
            user_id = user;
            created_at = now;
            expires_at = now + s.config.pairing_code_ttl_ms;
          })
          s.pending_pairings;
  },
  some code,
)

unfoldable pub generate_pairing_code :
    String → (ℕ → String) → ℕ → ℕ → NodeSessions → NodeSessions × Option String
unfolding get_nodes_for_user cleanup_expired_pairings unique_code add_pairing
generate_pairing_code user draw at_cleanup now s =
    if leb s.config.max_nodes_per_user (length (get_nodes_for_user user s))
    then (s, none)
    else (let s' = cleanup_expired_pairings at_cleanup s in
        add_pairing (unique_code 100 0 draw s'.pending_pairings) user now s')

pub record NodeInfo : Type 0 where
  pub node_name : String
  pub platform : String
  pub capabilities : Capabilities

-- `find` on the values of the map, with the key of the node that it finds.
unfoldable pub find_node :
    (NodeConnection → Bool) → JsMap NodeConnection → Option (String × NodeConnection)
find_node test [] = none
find_node test ((k, n) ∷ m) = if test n then some (k, n) else find_node test m

abbrev drop_pairing : String → NodeSessions → NodeSessions
drop_pairing code s = record s { pending_pairings = JsMap.delete code s.pending_pairings }

abbrev pub put_node : String → NodeConnection → NodeSessions → NodeSessions
put_node id n s = record s { nodes = JsMap.set id n s.nodes }

abbrev pub or_zero : Option ℕ → ℕ
or_zero none = 0
or_zero (some n) = n

abbrev pub no_consent : ScreenCaptureConsent
no_consent = record { granted = false; granted_at = none; expires_at = none }

abbrev pub new_node : String → String → String → NodeInfo → ℕ → NodeConnection
new_node id socket user info now = record {
  node_id = id;
  socket_id = socket;
  user_id = user;
  node_name = info.node_name;
  platform = info.platform;
  capabilities = info.capabilities;
  screen_capture_consent = no_consent;
  status = paired;
  paired_at = now;
  last_seen = now;
}

abbrev pub count_node : String → NodeSessions → NodeSessions
count_node user s = record s {
  user_node_count =
      JsMap.set user (or_zero (JsMap.get user s.user_node_count) + 1) s.user_node_count;
}

-- An existing node of the name is taken over; otherwise one is made, whatever the user's limit.
unfoldable pub connect :
    Option (String × NodeConnection)
    → PendingPairing
    → String
    → String
    → NodeInfo
    → ℕ
    → NodeSessions
    → NodeSessions × Option NodeConnection
connect (some (k, n)) p id socket info now s =
    let n' = record n {
      socket_id = socket;
      status = paired;
      last_seen = now;
      capabilities = info.capabilities;
    } in
    (put_node k n' s, some n')
connect none p id socket info now s =
    let n = new_node id socket p.user_id info now in
    (count_node p.user_id (put_node id n s), some n)

unfoldable pub complete :
    Option PendingPairing
    → String
    → String
    → String
    → NodeInfo
    → ℕ
    → ℕ
    → NodeSessions
    → NodeSessions × Option NodeConnection
unfolding find_node connect
complete none code id socket info at_check now s = (s, none)
complete (some p) code id socket info at_check now s =
    if ltb p.expires_at at_check
    then (drop_pairing code s, none)
    else (let (s', n) =
          connect (find_node (λ n. is_of p.user_id n && n.node_name == info.node_name) s.nodes) p id
            socket info now s in
        (drop_pairing code s', n))

unfoldable pub complete_pairing :
    String
    → String
    → String
    → NodeInfo
    → ℕ
    → ℕ
    → NodeSessions
    → NodeSessions × Option NodeConnection
unfolding complete
complete_pairing code id socket info at_check now s =
    complete (JsMap.get code s.pending_pairings) code id socket info at_check now s
