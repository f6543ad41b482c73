-- ===== src/NodesTool.antt =====
-- The tools for nodes (src/tools/nodes/NodesTool.ts) on the node sessions and the validator of
-- commands. A call that the source passes on to the executor of nodes, or without one answers as
-- queued, ends here in `handed` with the node. Expressions and paths are parameters as there.
pub mod Handing
pub mod Consented
use mathlib.Core.List.{map}
use moon_bot.Prelude.{
  ℕ, ◌+◌, String, Bool, true, false, Option, none, some, List, [], ◌∷◌, length, ltb, ◌==◌,
  if◌then◌else◌,
}
use moon_bot.JsMap.{JsMap}
use moon_bot.ToolRuntime.ApprovalManager.{Command}
use moon_bot.NodeSessions.{
  NodeSessions, NodeConnection, NodeConnectionStatus, Capabilities, is_paired, get_nodes_for_user,
}
use moon_bot.NodeSessions.Upkeep.{
  get_node, get_screen_capture_capable_node, select_node_for_command, grant_screen_capture_consent,
  has_screen_capture_consent, revoke_screen_capture_consent, until,
}
use moon_bot.NodeCommandValidator.{
  NodeCommandValidator, Problem, ValidationResult, valid, invalid, threw, validate_arguments,
  validate_cwd, validate_env,
}

pub data Refusal : Type 0 where
  command_blocked invalid_cwd invalid_env : Problem → Refusal
  run_error capability_required node_not_found consent_required : Refusal
  not_available : NodeConnectionStatus → Refusal
  grant_error revoke_error : Refusal

pub data Outcome : Type 0 where
  refused : Refusal → Outcome
  handed : NodeConnection → Outcome

-- What `nodes.status` tells of a node.
pub record NodeStatus : Type 0 where
  pub node_id : String
  pub node_name : String
  pub status : NodeConnectionStatus
  pub last_seen : ℕ
  pub platform : String
  pub capabilities : Capabilities

abbrev status_of : NodeConnection → NodeStatus
status_of n = record {
  node_id = n.node_id;
  node_name = n.node_name;
  status = n.status;
  last_seen = n.last_seen;
  platform = n.platform;
  capabilities = n.capabilities;
}

abbrev pub status : String → NodeSessions → List NodeStatus × ℕ
status user s = let nodes = get_nodes_for_user user s in (map status_of nodes, length nodes)

abbrev pub available : Bool → NodeConnection → Outcome
available capable n =
    if capable
    then (if is_paired n.status then handed n else refused (not_available n.status))
    else refused capability_required

abbrev pub on_selected : Option NodeConnection → Outcome
on_selected none = refused run_error
on_selected (some n) = available n.capabilities.command_exec n

abbrev pub checked : (Problem → Refusal) → ValidationResult → Outcome → Outcome
checked refusal valid next = next
checked refusal (invalid p) next = refused (refusal p)
checked refusal threw next = refused run_error

abbrev pub env_checked : Option (JsMap String) → Outcome → Outcome
env_checked none next = next
env_checked (some env) next = checked invalid_env (validate_env env) next

module _ (matches : String → String → Option Bool) (base : String → String)
    (normalize : String → String) (resolve : String → String → String) where
  abbrev pub cwd_checked : Option String → Outcome → Outcome
  cwd_checked none next = next
  cwd_checked (some cwd) next =
      if cwd == ""
      then next
      else checked invalid_cwd (validate_cwd matches base normalize resolve cwd none) next

  unfoldable pub run :
      String
      → Option String
      → Command
      → Option String
      → Option (JsMap String)
      → NodeCommandValidator
      → NodeSessions
      → Outcome
  run user id command cwd env v s =
      checked command_blocked (validate_arguments matches base normalize resolve command v)
        (cwd_checked cwd (env_checked env (on_selected (select_node_for_command user id s))))

abbrev pub own : String → Option NodeConnection → Option NodeConnection
own user none = none
own user (some n) = if n.user_id == user then some n else none

-- `params.nodeId` that is empty is falsy.
abbrev pub screen_node : String → Option String → NodeSessions → Option NodeConnection
screen_node user none s = get_screen_capture_capable_node user s
screen_node user (some id) s =
    if id == "" then get_screen_capture_capable_node user s else own user (get_node id s)

abbrev pub consented : NodeConnection → NodeSessions × Bool → NodeSessions × Outcome
consented n (s, granted) = (s, (if granted then handed n else refused consent_required))

abbrev pub snap_checked : NodeConnection → Outcome → ℕ → NodeSessions → NodeSessions × Outcome
snap_checked n (refused r) now s = (s, refused r)
snap_checked n (handed m) now s = consented m (has_screen_capture_consent m.node_id now s)

abbrev pub snap_found : Option NodeConnection → ℕ → NodeSessions → NodeSessions × Outcome
snap_found none now s = (s, refused node_not_found)
snap_found (some n) now s = snap_checked n (available n.capabilities.screen_capture n) now s

unfoldable pub screen_snap : String → Option String → ℕ → NodeSessions → NodeSessions × Outcome
screen_snap user id now s = snap_found (screen_node user id s) now s

-- What the tools of consent answer, with the state they leave.
pub data Reply : Type 0 where
  denied : Refusal → Reply
  granted_until : ℕ → Option ℕ → Reply
  revoked_now : Reply
  consent_is : Bool → Option ℕ → Option ℕ → Reply

abbrev granted : Option NodeSessions → Option ℕ → ℕ → ℕ → NodeSessions → NodeSessions × Reply
granted none duration told until_told s = (s, denied grant_error)
granted (some t) duration told until_told s = (t, granted_until told (until duration until_told))

abbrev grant_own :
    Option NodeConnection → String → Option ℕ → ℕ → ℕ → ℕ → ℕ → NodeSessions → NodeSessions × Reply
grant_own none id duration now later told until_told s = (s, denied node_not_found)
grant_own (some n) id duration now later told until_told s =
    granted (grant_screen_capture_consent id duration now later s) duration told until_told s

-- The clock is read twice by the sessions and then twice by the tool.
unfoldable pub consent_grant :
    String → String → Option ℕ → ℕ → ℕ → ℕ → ℕ → NodeSessions → NodeSessions × Reply
consent_grant user id duration now later told until_told s =
    grant_own (own user (get_node id s)) id duration now later told until_told s

abbrev withdrawn : Option NodeSessions → NodeSessions → NodeSessions × Reply
withdrawn none s = (s, denied revoke_error)
withdrawn (some t) s = (t, revoked_now)

abbrev revoke_own : Option NodeConnection → String → NodeSessions → NodeSessions × Reply
revoke_own none id s = (s, denied node_not_found)
revoke_own (some n) id s = withdrawn (revoke_screen_capture_consent id s) s

unfoldable pub consent_revoke : String → String → NodeSessions → NodeSessions × Reply
consent_revoke user id s = revoke_own (own user (get_node id s)) id s

-- The node is read again after `hasScreenCaptureConsent`, which may revoke the consent it holds.
abbrev told : Option NodeConnection → NodeSessions × Bool → NodeSessions × Reply
told none (s, b) = (s, denied node_not_found)
told (some n) (s, b) =
    (s, consent_is b n.screen_capture_consent.granted_at n.screen_capture_consent.expires_at)

abbrev check_own : Option NodeConnection → String → ℕ → NodeSessions → NodeSessions × Reply
check_own none id now s = (s, denied node_not_found)
check_own (some n) id now s =
    let (t, b) = has_screen_capture_consent id now s in told (get_node id t) (t, b)

unfoldable pub consent_check : String → String → ℕ → NodeSessions → NodeSessions × Reply
consent_check user id now s = check_own (own user (get_node id s)) id now s
