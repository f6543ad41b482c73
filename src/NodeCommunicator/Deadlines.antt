-- ===== src/NodeCommunicator/Deadlines.antt =====
-- What the timers and a lost connection do to the requests that wait.
use moon_bot.Prelude.{
  ℕ, ◌≤◌, String, ◌≡◌, refl, Bool, true, false, Option, none, some, List, [], ◌∷◌, arith, eq_iff,
  ◌==◌, leb, if◌then◌else◌, Bool-cases, inl, inr, ◌∙◌, some-injective, ap, subst,
}
use moon_bot.JsMap
use moon_bot.JsMap.{JsMap, IsMap}
use moon_bot.JsMap.Laws.{get-delete}
use moon_bot.NodeSessions.{NodeSessions, NodeConnection, find_node, put_node, offline}
use moon_bot.NodeSessions.Counts.{found-get}
use moon_bot.NodeSessions.Upkeep.{mark_offline, get_node_by_socket}
use moon_bot.NodeCommunicator.{
  NodeCommunicator, PendingRequest, Outcome, rejected, settle, reject_each, ids_where,
  handle_node_disconnect, timeout_of, run_timers, new,
}
use moon_bot.NodeCommunicator.Balance.{asked, times, waiting}
use moon_bot.NodeCommunicator.Settling.{
  Reach, Reach-IsBalanced, step-IsBalanced, new-IsBalanced, times_out,
}

-- What is left after a rejection.
unfoldable left : Bool → Option PendingRequest → Option PendingRequest
left true o = none
left false o = o

unfoldable named : String → List String → Bool
named id [] = false
named id (j ∷ js) = if j == id then true else named id js

reject_each-get :
    (ids : List String) (error : String → Outcome) (c : NodeCommunicator) (id : String)
    → JsMap.get id (reject_each ids error c).requests
      ≡ left (named id ids) (JsMap.get id c.requests)
unfolding reject_each settle left named
reject_each-get [] error c id = refl
reject_each-get (j ∷ js) error c id =
    ground (arith, reject_each-get js error (settle j (error j) c) id, get-delete j id c.requests)

reject_each-sent :
    (ids : List String) (error : String → Outcome) (c : NodeCommunicator)
    → (reject_each ids error c).sent ≡ c.sent
unfolding reject_each settle
reject_each-sent [] error c = refl
reject_each-sent (j ∷ js) error c = reject_each-sent js error (settle j (error j) c)

-- What is left of a request when those that pass the test are rejected.
abbrev pub spared : (PendingRequest → Bool) → Option PendingRequest → Option PendingRequest
spared test none = none
spared test (some p) = if test p then none else some p

absent-named :
    (test : PendingRequest → Bool) (m : JsMap PendingRequest) (id : String)
    → JsMap.get id m ≡ none
    → named id (ids_where test m) ≡ false
unfolding ids_where named JsMap.get
absent-named test [] id h = refl
absent-named test ((j, p) ∷ ps) id h = ground (arith, absent-named test ps id)

left-where :
    (test : PendingRequest → Bool) (m : JsMap PendingRequest) (id : String)
    → IsMap m
    → left (named id (ids_where test m)) (JsMap.get id m) ≡ spared test (JsMap.get id m)
unfolding ids_where named left JsMap.get
left-where test [] id u = refl
left-where test ((j, p) ∷ ps) id u =
    ground (arith, eq_iff j id, left-where test ps id u.1, absent-named test ps j u.0)

pub where-get :
    (test : PendingRequest → Bool) (error : String → Outcome) (c : NodeCommunicator) (id : String)
    → IsMap c.requests
    → JsMap.get id (reject_each (ids_where test c.requests) error c).requests
      ≡ spared test (JsMap.get id c.requests)
where-get test error c id u =
    reject_each-get (ids_where test c.requests) error c id ∙ left-where test c.requests id u

none-waits :
    (id : String) (c : NodeCommunicator) → JsMap.get id c.requests ≡ none → waiting id c ≡ 0
none-waits id c e = rw e refl

spared-none :
    (test : PendingRequest → Bool) (o : Option PendingRequest)
    → ((p : PendingRequest) → o ≡ some p → test p ≡ true)
    → spared test o ≡ none
spared-none test none h = refl
spared-none test (some p) h = rw (h p refl) refl

-- From a new communicator, after any such steps, a request that was sent and whose deadline, if it
-- still waits, is no later than the time at which the due timers run is then settled, once, and
-- waits no more.
pub settled_in_time :
    (nodes : NodeSessions) (ttl : Option ℕ) (c : NodeCommunicator) (id : String) (now : ℕ)
    → Reach (new nodes ttl) c
    → asked id c.sent ≡ 1
    → ((p : PendingRequest) → JsMap.get id c.requests ≡ some p → p.deadline ≤ now)
    → (times id (run_timers now c).settled ≡ 1) × (JsMap.get id (run_timers now c).requests ≡ none)
unfolding run_timers
settled_in_time nodes ttl c id now reach sent due =
    let b = Reach-IsBalanced reach (new-IsBalanced nodes ttl) in
    let after = step-IsBalanced (times_out now) b in
    let gone =
      where-get (λ p. leb p.deadline now) (λ i. timeout_of (JsMap.get i c.requests)) c id
        b.unique in
    let e =
      gone
      ∙ spared-none (λ p. leb p.deadline now) (JsMap.get id c.requests)
          (λ p f. ground (arith, due p f)) in
    (
      omega (
        arith,
        after.balance id,
        none-waits id (run_timers now c) e,
        ap (asked id) (
            reject_each-sent (ids_where (λ p. leb p.deadline now) c.requests)
              (λ i. timeout_of (JsMap.get i c.requests)) c),
      ),
      e,
    )

find_node-test :
    (test : NodeConnection → Bool) (k : String) (n : NodeConnection) (m : JsMap NodeConnection)
    → find_node test m ≡ some (k, n)
    → test n ≡ true
unfolding find_node
find_node-test test k n [] h = ground arith
find_node-test test k n ((j, v) ∷ m) h = elim (Bool-cases (test v)) [
  | inl e ↦ subst (λ w. test w ≡ true) (ap (λ p. p.1) (some-injective (j, v) (k, n) (rw e at h))) e
  | inr e ↦ find_node-test test k n m (rw e at h)
]

find_node-set :
    (test : NodeConnection → Bool) (k : String) (n new : NodeConnection) (m : JsMap NodeConnection)
    → IsMap m
    → test new ≡ true
    → find_node test m ≡ some (k, n)
    → find_node test (JsMap.set k new m) ≡ some (k, new)
unfolding find_node JsMap.set JsMap.get
find_node-set test k n new [] u t h = ground arith
find_node-set test k n new ((j, v) ∷ m) u t h = elim (Bool-cases (test v)) [
  | inl e ↦
      let same = some-injective (j, v) (k, n) (rw e at h) in
      ground (arith, eq_iff j k, ap (λ p. p.0) same)
  | inr e ↦
      let rest : find_node test m ≡ some (k, n) = rw e at h in
      ground (
        arith,
        eq_iff j k,
        u.0,
        found-get test k n m u.1 rest,
        find_node-set test k n new m u.1 t rest,
      )
]

-- With unique keys, when the connection of a known node is lost, the requests that wait for this
-- node wait no more, and all other requests wait as before.
pub disconnect_rejects :
    (socket k id : String) (n : NodeConnection) (c : NodeCommunicator)
    → IsMap c.nodes.nodes
    → IsMap c.requests
    → get_node_by_socket socket c.nodes ≡ some (k, n)
    → JsMap.get id (handle_node_disconnect socket c).requests
      ≡ spared (λ p. p.node_id == n.node_id) (JsMap.get id c.requests)
unfolding handle_node_disconnect mark_offline get_node_by_socket
disconnect_rejects socket k id n c u v h =
    let test : NodeConnection → Bool = λ m. m.socket_id == socket in
    let found : find_node test c.nodes.nodes ≡ some (k, n) = h in
    let gone : NodeConnection = record n { status = offline } in
    let next =
      find_node-set test k n gone c.nodes.nodes u (find_node-test test k n c.nodes.nodes found)
        found in
    rw (found, next)
      (where-get (λ p. p.node_id == n.node_id)
        (λ i. rejected "NODE_DISCONNECTED: Node companion disconnected")
        (record c { nodes = put_node k gone c.nodes }) id v)
