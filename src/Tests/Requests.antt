-- ===== src/Tests/Requests.antt =====
-- Requests to nodes on concrete inputs.
use moon_bot.Prelude.{◌+◌, ◌≤◌, String, ◌≡◌, refl, Bool, true, false, none, some, [], ◌∷◌, arith}
use moon_bot.JsMap
use moon_bot.NodeSessions
use moon_bot.NodeSessions.{NodeSessions, NodeConnection, default_config, find_node}
use moon_bot.NodeSessions.Upkeep.{get_node, get_node_by_socket}
use moon_bot.NodeCommunicator.{
  NodeCommunicator, PendingRequest, new, resolved, send_to_node, send_to_node_and_wait,
  handle_node_response, run_timers,
}
use moon_bot.NodeCommunicator.Balance.{asked, times, waiting}
use moon_bot.NodeCommunicator.Settling.{Reach, here, next, asks, answers, exactly_once}
use moon_bot.NodeCommunicator.Deadlines.{settled_in_time}

abbrev node : NodeConnection
node = record {
  node_id = "n1";
  socket_id = "socket";
  user_id = "u";
  node_name = "laptop";
  platform = "linux";
  capabilities = record { screen_capture = true; command_exec = true };
  screen_capture_consent = record { granted = false; granted_at = none; expires_at = none };
  status = NodeSessions.paired;
  paired_at = 1;
  last_seen = 1;
}

abbrev nodes : NodeSessions
nodes = record (NodeSessions.new default_config) { nodes = ("n1", node) ∷ [] }

abbrev any_open : String → Bool
any_open socket = true

abbrev quiet : NodeCommunicator
quiet = new nodes none

abbrev waits : NodeCommunicator
waits = (send_to_node_and_wait any_open "n1" "run" "{}" (some 100) "r1" 10 quiet).0

abbrev answered : NodeCommunicator
answered = handle_node_response "r1" (resolved "ok") waits

not_asked : asked "r1" quiet.sent ≡ 0
unfolding asked
not_asked = refl

Reach-waits : Reach quiet waits
Reach-waits = next here (asks any_open "n1" "run" "{}" (some 100) "r1" 10 not_asked)

exactly_once_example :
    (asked "r1" answered.sent ≤ 1)
    × (asked "r1" answered.sent ≡ times "r1" answered.settled + waiting "r1" answered)
exactly_once_example =
    exactly_once nodes none answered "r1" (next Reach-waits (answers "r1" (resolved "ok")))

asked_once : asked "r1" waits.sent ≡ 1
unfolding asked send_to_node_and_wait send_to_node get_node JsMap.get
asked_once = refl

due : (p : PendingRequest) → JsMap.get "r1" waits.requests ≡ some p → p.deadline ≤ 110
unfolding send_to_node_and_wait send_to_node get_node JsMap.get JsMap.set
due p e = ground arith

settled_in_time_example :
    (times "r1" (run_timers 110 waits).settled ≡ 1)
    × (JsMap.get "r1" (run_timers 110 waits).requests ≡ none)
settled_in_time_example = settled_in_time nodes none waits "r1" 110 Reach-waits asked_once due

one_node : JsMap.IsMap waits.nodes.nodes
unfolding send_to_node_and_wait send_to_node get_node JsMap.get
one_node = (refl, tt)

one_request : JsMap.IsMap waits.requests
unfolding send_to_node_and_wait send_to_node get_node JsMap.get JsMap.set
one_request = (refl, tt)

on_socket : get_node_by_socket "socket" waits.nodes ≡ some ("n1", node)
unfolding send_to_node_and_wait send_to_node get_node JsMap.get get_node_by_socket find_node
on_socket = refl
