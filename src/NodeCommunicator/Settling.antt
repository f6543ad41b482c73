-- ===== src/NodeCommunicator/Settling.antt =====
-- Every request is settled once, and by its deadline.
use moon_bot.Prelude.{ℕ, ◌+◌, ◌≤◌, String, ◌≡◌, refl, Bool, true, Option, none, some, arith}
use moon_bot.JsMap
use moon_bot.JsMap.{JsMap, IsMap}
use moon_bot.NodeSessions.{NodeSessions, NodeConnection}
use moon_bot.NodeSessions.Upkeep.{mark_offline, get_node_by_socket}
use moon_bot.NodeCommunicator.{
  NodeCommunicator, PendingRequest, Outcome, notice, settle_found, reject_each, ids_where,
  send_to_node, send_to_node_and_wait, handle_node_response, handle_node_disconnect, reject_for,
  run_timers, shutdown, cleanup_stale_requests, new, get_node_socket,
}
use moon_bot.NodeCommunicator.Balance.{
  asked, times, waiting, IsBalanced, settle-IsBalanced, reject_each-IsBalanced, all-IsPending,
  forget_each-IsBalanced, send-IsBalanced, notice-IsBalanced,
}

-- The calls, the messages and the timers; a request has an id that no request had.
pub data Step (c : NodeCommunicator) : NodeCommunicator → Type 0 where
  sends :
      (is_open : String → Bool) (node text : String)
      → Step c (send_to_node is_open node (notice text) c).0
  asks :
      (is_open : String → Bool) (node method params : String) (timeout : Option ℕ) (id : String)
      (now : ℕ)
      → asked id c.sent ≡ 0
      → Step c (send_to_node_and_wait is_open node method params timeout id now c).0
  answers : (id : String) (outcome : Outcome) → Step c (handle_node_response id outcome c)
  disconnects : (socket : String) → Step c (handle_node_disconnect socket c)
  times_out : (now : ℕ) → Step c (run_timers now c)
  sweeps : (now : ℕ) → Step c (cleanup_stale_requests now c)
  shuts : Step c (shutdown c)
  pairs : (nodes : NodeSessions) → Step c (record c { nodes = nodes })

pub data Reach (c : NodeCommunicator) : NodeCommunicator → Type 0 where
  here : Reach c c
  next : {d e : NodeCommunicator} → Reach c d → Step d e → Reach c e

where-IsBalanced :
    (test : PendingRequest → Bool) (error : String → Outcome) (c : NodeCommunicator)
    → IsBalanced c
    → IsBalanced (reject_each (ids_where test c.requests) error c)
where-IsBalanced test error c b =
    reject_each-IsBalanced (ids_where test c.requests) error c
      (all-IsPending test c.requests b.unique) b

found-IsBalanced :
    (o : Option PendingRequest) (id : String) (outcome : Outcome) (c : NodeCommunicator)
    → JsMap.get id c.requests ≡ o
    → IsBalanced c
    → IsBalanced (settle_found o id outcome c)
found-IsBalanced none id outcome c e b = b
found-IsBalanced (some p) id outcome c e b = settle-IsBalanced id outcome p c e b

same-IsBalanced :
    (c d : NodeCommunicator)
    → d.requests ≡ c.requests
    → d.sent ≡ c.sent
    → d.settled ≡ c.settled
    → IsBalanced c
    → IsBalanced d
same-IsBalanced c d r s t b = record {
  unique = rw r b.unique;
  once = λ id. rw s (b.once id);
  balance = λ id. rw (r, s, t) (b.balance id);
}

lost-IsBalanced :
    (o : Option (String × NodeConnection)) (c : NodeCommunicator)
    → IsBalanced c
    → IsBalanced (reject_for o c)
lost-IsBalanced none c b = b
lost-IsBalanced (some (k, n)) c b = where-IsBalanced _ _ c b

pub step-IsBalanced : {c d : NodeCommunicator} → Step c d → IsBalanced c → IsBalanced d
unfolding send_to_node send_to_node_and_wait handle_node_response handle_node_disconnect run_timers
    shutdown
step-IsBalanced {c} (sends is_open node text) b =
    notice-IsBalanced (get_node_socket is_open node c) text c b
step-IsBalanced {c} (asks is_open node method params timeout id now fresh) b =
    send-IsBalanced _ is_open node id method params _ now c fresh b
step-IsBalanced {c} (answers id outcome) b =
    found-IsBalanced (JsMap.get id c.requests) id outcome c refl b
step-IsBalanced {c} (disconnects socket) b =
    lost-IsBalanced (get_node_by_socket socket (mark_offline socket c.nodes)) _
      (same-IsBalanced c (record c { nodes = mark_offline socket c.nodes }) refl refl refl b)
step-IsBalanced {c} (times_out now) b = where-IsBalanced _ _ c b
step-IsBalanced {c} (sweeps now) b = forget_each-IsBalanced c.timestamps now c b
step-IsBalanced {c} shuts b =
    same-IsBalanced _ _ refl refl refl (where-IsBalanced (λ p. true) _ c b)
step-IsBalanced {c} (pairs nodes) b = same-IsBalanced c _ refl refl refl b

pub new-IsBalanced : (nodes : NodeSessions) (ttl : Option ℕ) → IsBalanced (new nodes ttl)
unfolding asked times JsMap.get
new-IsBalanced nodes ttl = record {
  unique = tt;
  once = λ id. omega arith;
  balance = λ id. omega arith;
}

pub Reach-IsBalanced : {c d : NodeCommunicator} → Reach c d → IsBalanced c → IsBalanced d
Reach-IsBalanced here b = b
Reach-IsBalanced (next before step) b = step-IsBalanced step (Reach-IsBalanced before b)

-- From a new communicator, after any calls, messages and timers in which each request has an id
-- that no request had, each request that was sent either waits and has not been settled or has been
-- settled exactly once, and no other request has been settled.
pub exactly_once :
    (nodes : NodeSessions) (ttl : Option ℕ) (c : NodeCommunicator) (id : String)
    → Reach (new nodes ttl) c
    → (asked id c.sent ≤ 1) × (asked id c.sent ≡ times id c.settled + waiting id c)
exactly_once nodes ttl c id reach =
    let b = Reach-IsBalanced reach (new-IsBalanced nodes ttl) in (b.once id, b.balance id)
