-- ===== src/NodeCommunicator.antt =====
-- NodeCommunicator (src/gateway/NodeCommunicator.ts) on the node sessions. `is_open` is whether the
-- gateway has an open socket of a name; `sent` and `settled` are what was sent and which promises
-- were resolved or rejected, oldest first. The timer of a request is due at its `deadline`. The
-- random id and the clock are arguments.
pub mod Balance
pub mod Settling
pub mod Deadlines
use moon_bot.Prelude.{
  ℕ, ◌+◌, String, Bool, true, false, ◌&&◌, Option, none, some, List, [], ◌∷◌, ◌++◌, concat, ltb,
  leb, ◌==◌, if◌then◌else◌,
}
use moon_bot.JsMap
use moon_bot.JsMap.{JsMap, keys}
use moon_bot.NodeSessions.{
  NodeSessions, NodeConnection, NodeConnectionStatus, pending, paired, offline, expired, is_paired,
}
use moon_bot.NodeSessions.Upkeep.{get_node, get_node_by_socket, mark_offline}

pub record PendingRequest : Type 0 where
  pub node_id : String
  pub timeout_ms : ℕ
  pub deadline : ℕ

-- The messages "NODE_TIMEOUT: No response after …ms" and "NODE_TIMEOUT: Request stale after …ms"
-- are `timed_out` and `went_stale` of their number.
pub data Outcome : Type 0 where
  resolved : String → Outcome
  rejected : String → Outcome
  timed_out went_stale : ℕ → Outcome

pub data NodeMessage : Type 0 where
  request : String → String → String → NodeMessage
  notice : String → NodeMessage

pub record NodeCommunicator : Type 0 where
  pub nodes : NodeSessions
  pub requests : JsMap PendingRequest
  pub timestamps : JsMap ℕ
  pub pending_ttl_ms : ℕ
  pub cleanup_interval : Bool
  pub sent : List (String × NodeMessage)
  pub settled : List (String × Outcome)

abbrev or_ten_minutes : Option ℕ → ℕ
or_ten_minutes none = 600000
or_ten_minutes (some ms) = ms

abbrev pub new : NodeSessions → Option ℕ → NodeCommunicator
new nodes pending_ttl_ms = record {
  nodes = nodes;
  requests = [];
  timestamps = [];
  pending_ttl_ms = or_ten_minutes pending_ttl_ms;
  cleanup_interval = true;
  sent = [];
  settled = [];
}

abbrev open_socket : (String → Bool) → Option NodeConnection → Option String
open_socket is_open none = none
open_socket is_open (some n) = if is_open n.socket_id then some n.socket_id else none

abbrev pub get_node_socket : (String → Bool) → String → NodeCommunicator → Option String
get_node_socket is_open node c = open_socket is_open (get_node node c.nodes)

abbrev pub send_over : Option String → NodeMessage → NodeCommunicator → NodeCommunicator × Bool
send_over none message c = (c, false)
send_over (some socket) message c = (record c { sent = c.sent ++ ((socket, message) ∷ []) }, true)

unfoldable pub send_to_node :
    (String → Bool) → String → NodeMessage → NodeCommunicator → NodeCommunicator × Bool
send_to_node is_open node message c = send_over (get_node_socket is_open node c) message c

abbrev status_text : NodeConnectionStatus → String
status_text pending = "pending"
status_text paired = "paired"
status_text offline = "offline"
status_text expired = "expired"

abbrev unavailable : Option NodeConnection → Option String
unavailable none = some "NODE_NOT_FOUND: Node not found or not paired"
unavailable (some n) =
    if is_paired n.status
    then none
    else some (concat "NODE_NOT_AVAILABLE: Node is " (status_text n.status))

-- The message of what it throws, none where the node is available.
abbrev pub ensure_node_available : String → NodeCommunicator → Option String
ensure_node_available node c = unavailable (get_node node c.nodes)

abbrev pub create_pending_request : String → String → ℕ → ℕ → NodeCommunicator → NodeCommunicator
create_pending_request id node timeout now c = record c {
  requests =
      JsMap.set id (record { node_id = node; timeout_ms = timeout; deadline = now + timeout })
        c.requests;
  timestamps = JsMap.set id now c.timestamps;
}

abbrev or_thirty_seconds : Option ℕ → ℕ
or_thirty_seconds none = 30000
or_thirty_seconds (some ms) = ms

abbrev pub wait_if_sent :
    NodeCommunicator × Bool → String → String → ℕ → ℕ → NodeCommunicator × Option String
wait_if_sent (c, false) id node timeout now =
    (c, some "NODE_UNREACHABLE: Unable to send message to node")
wait_if_sent (c, true) id node timeout now = (create_pending_request id node timeout now c, none)

abbrev pub send_if_available :
    Option String
    → (String → Bool)
    → String
    → NodeMessage
    → String
    → ℕ
    → ℕ
    → NodeCommunicator
    → NodeCommunicator × Option String
send_if_available (some error) is_open node message id timeout now c = (c, some error)
send_if_available none is_open node message id timeout now c =
    wait_if_sent (send_to_node is_open node message c) id node timeout now

-- The message of the error that it rejects with at once, none where the promise waits.
unfoldable pub send_to_node_and_wait :
    (String → Bool)
    → String
    → String
    → String
    → Option ℕ
    → String
    → ℕ
    → NodeCommunicator
    → NodeCommunicator × Option String
send_to_node_and_wait is_open node method params timeout id now c =
    send_if_available (ensure_node_available node c) is_open node (request id method params) id
      (or_thirty_seconds timeout) now c

-- The promise of a request is resolved or rejected, its timer cleared and it is forgotten.
unfoldable pub settle : String → Outcome → NodeCommunicator → NodeCommunicator
settle id outcome c = record c {
  requests = JsMap.delete id c.requests;
  timestamps = JsMap.delete id c.timestamps;
  settled = c.settled ++ ((id, outcome) ∷ []);
}

abbrev pub settle_found :
    Option PendingRequest → String → Outcome → NodeCommunicator → NodeCommunicator
settle_found none id outcome c = c
settle_found (some p) id outcome c = settle id outcome c

-- A response holds a result or an error.
unfoldable pub handle_node_response : String → Outcome → NodeCommunicator → NodeCommunicator
handle_node_response id outcome c = settle_found (JsMap.get id c.requests) id outcome c

-- Each request that passes the test is rejected, in the order of the map.
unfoldable pub ids_where : (PendingRequest → Bool) → JsMap PendingRequest → List String
ids_where test [] = []
ids_where test ((id, p) ∷ ps) = let rest = ids_where test ps in if test p then id ∷ rest else rest

unfoldable pub reject_each : List String → (String → Outcome) → NodeCommunicator → NodeCommunicator
reject_each [] error c = c
reject_each (id ∷ ids) error c = reject_each ids error (settle id (error id) c)

abbrev pub reject_node_requests : String → String → NodeCommunicator → NodeCommunicator
reject_node_requests node error c =
    reject_each (ids_where (λ p. p.node_id == node) c.requests) (λ id. rejected error) c

abbrev pub reject_for : Option (String × NodeConnection) → NodeCommunicator → NodeCommunicator
reject_for none c = c
reject_for (some (k, n)) c =
    reject_node_requests n.node_id "NODE_DISCONNECTED: Node companion disconnected" c

unfoldable pub handle_node_disconnect : String → NodeCommunicator → NodeCommunicator
handle_node_disconnect socket c =
    let after = mark_offline socket c.nodes in
    reject_for (get_node_by_socket socket after) (record c { nodes = after })

abbrev pub timeout_of : Option PendingRequest → Outcome
timeout_of none = timed_out 0
timeout_of (some p) = timed_out p.timeout_ms

-- The timers that are due at a time run.
unfoldable pub run_timers : ℕ → NodeCommunicator → NodeCommunicator
run_timers now c =
    reject_each (ids_where (λ p. leb p.deadline now) c.requests)
      (λ id. timeout_of (JsMap.get id c.requests)) c

unfoldable pub shutdown : NodeCommunicator → NodeCommunicator
shutdown c =
    record (reject_each (ids_where (λ p. true) c.requests)
      (λ id. rejected "COMMUNICATOR_SHUTDOWN: Node communicator shutting down") c) {
        timestamps = [];
        cleanup_interval = false;
      }

abbrev pub forget_stale : Option PendingRequest → String → NodeCommunicator → NodeCommunicator
forget_stale none id c = record c { timestamps = JsMap.delete id c.timestamps }
forget_stale (some p) id c = settle id (went_stale c.pending_ttl_ms) c

-- `timestamp < now - ttl`.
unfoldable pub forget_each : JsMap ℕ → ℕ → NodeCommunicator → NodeCommunicator
forget_each [] now c = c
forget_each ((id, t) ∷ ts) now c =
    let next = forget_stale (JsMap.get id c.requests) id c in
    if ltb (t + c.pending_ttl_ms) now then forget_each ts now next else forget_each ts now c

abbrev pub cleanup_stale_requests : ℕ → NodeCommunicator → NodeCommunicator
cleanup_stale_requests now c = forget_each c.timestamps now c
