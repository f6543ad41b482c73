-- ===== src/NodeCommunicator/Balance.antt =====
-- Requests that were sent against requests that wait or are settled.
use moon_bot.Prelude.{
  ℕ, ◌+◌, ◌≤◌, String, ◌≡◌, refl, Bool, Option, none, some, List, [], ◌∷◌, ◌++◌, arith, is_some,
  eq_iff, ◌==◌, ltb, if◌then◌else◌, Bool-cases, inl, inr,
}
use moon_bot.JsMap
use moon_bot.JsMap.{JsMap, IsMap}
use moon_bot.JsMap.Laws.{get-set, get-delete, IsMap-set, IsMap-delete}
use moon_bot.NodeCommunicator.{
  NodeCommunicator, PendingRequest, NodeMessage, Outcome, request, notice, settle, reject_each,
  ids_where, forget_each, forget_stale, send_to_node, send_over, wait_if_sent, send_if_available,
}

-- How often a request with this id was sent, and settled.
unfoldable pub asked : String → List (String × NodeMessage) → ℕ
asked id [] = 0
asked id ((socket, request j method params) ∷ ms) = (if j == id then 1 else 0) + asked id ms
asked id ((socket, notice text) ∷ ms) = asked id ms

unfoldable pub times : String → List (String × Outcome) → ℕ
times id [] = 0
times id ((j, o) ∷ os) = (if j == id then 1 else 0) + times id os

abbrev pub waiting : String → NodeCommunicator → ℕ
waiting id c = if is_some (JsMap.get id c.requests) then 1 else 0

asked-append :
    (id : String) (ms ns : List (String × NodeMessage))
    → asked id (ms ++ ns) ≡ asked id ms + asked id ns
unfolding asked
asked-append id [] ns = omega arith
asked-append id ((s, request j method params) ∷ ms) ns = omega (arith, asked-append id ms ns)
asked-append id ((s, notice text) ∷ ms) ns = asked-append id ms ns

times-append :
    (id : String) (os ps : List (String × Outcome))
    → times id (os ++ ps) ≡ times id os + times id ps
unfolding times
times-append id [] ps = omega arith
times-append id ((j, o) ∷ os) ps = omega (arith, times-append id os ps)

pub record IsBalanced (c : NodeCommunicator) : Type 0 where
  pub unique : IsMap c.requests
  pub once : (id : String) → asked id c.sent ≤ 1
  pub balance : (id : String) → asked id c.sent ≡ times id c.settled + waiting id c

pub settle-IsBalanced :
    (id : String) (o : Outcome) (p : PendingRequest) (c : NodeCommunicator)
    → JsMap.get id c.requests ≡ some p
    → IsBalanced c
    → IsBalanced (settle id o c)
unfolding settle times
settle-IsBalanced id o p c f b = record {
  unique = IsMap-delete id c.requests b.unique;
  once = b.once;
  balance = λ j. ground (
    arith,
    times-append j c.settled ((id, o) ∷ []),
    get-delete id j c.requests,
    eq_iff id j,
    b.balance j,
  );
}

-- Each id is there when its turn comes.
abbrev pub IsPending : List String → JsMap PendingRequest → Type 0
IsPending [] m = Unit
IsPending (id ∷ ids) m =
    ((p : PendingRequest) × (JsMap.get id m ≡ some p)) × IsPending ids (JsMap.delete id m)

ids_where-IsPending :
    (test : PendingRequest → Bool) (part whole : JsMap PendingRequest)
    → IsMap part
    → ((k : String) (q : PendingRequest) → JsMap.get k part ≡ some q → JsMap.get k whole ≡ some q)
    → IsPending (ids_where test part) whole
unfolding ids_where JsMap.get
ids_where-IsPending test [] whole u h = tt
ids_where-IsPending test ((id, p) ∷ ps) whole u h =
    let there : JsMap.get id whole ≡ some p = h id p (ground (arith, eq_iff id id)) in
    let behind : (k : String) (q : PendingRequest)
        → JsMap.get k ps ≡ some q
        → JsMap.get k whole ≡ some q =
      λ k q e. h k q (ground (arith, eq_iff id k)) in
    elim (Bool-cases (test p)) [
      | inl passed ↦ rw passed (
        (p, there),
        ids_where-IsPending test ps (JsMap.delete id whole) u.1
            (λ k q e. ground (arith, get-delete id k whole, eq_iff id k, behind k q)),
      )
      | inr failed ↦ rw failed (ids_where-IsPending test ps whole u.1 behind)
    ]

pub all-IsPending :
    (test : PendingRequest → Bool) (m : JsMap PendingRequest)
    → IsMap m
    → IsPending (ids_where test m) m
all-IsPending test m u = ids_where-IsPending test m m u (λ k q e. e)

pub reject_each-IsBalanced :
    (ids : List String) (error : String → Outcome) (c : NodeCommunicator)
    → IsPending ids c.requests
    → IsBalanced c
    → IsBalanced (reject_each ids error c)
unfolding reject_each settle
reject_each-IsBalanced [] error c h b = b
reject_each-IsBalanced (id ∷ ids) error c h b =
    reject_each-IsBalanced ids error (settle id (error id) c) h.1
      (settle-IsBalanced id (error id) h.0.0 c h.0.1 b)

pub forget_each-IsBalanced :
    (ts : JsMap ℕ) (now : ℕ) (c : NodeCommunicator)
    → IsBalanced c
    → IsBalanced (forget_each ts now c)
unfolding forget_each
forget_each-IsBalanced [] now c b = b
forget_each-IsBalanced ((id, t) ∷ ts) now c b = elim (Bool-cases (ltb (t + c.pending_ttl_ms) now)) [
  | inl old ↦
      rw old
        (forget_each-IsBalanced ts now _ (forget-IsBalanced (JsMap.get id c.requests) id c refl b))
  | inr fresh ↦ rw fresh (forget_each-IsBalanced ts now c b)
]
  where
    forget-IsBalanced :
        (o : Option PendingRequest) (id : String) (c : NodeCommunicator)
        → JsMap.get id c.requests ≡ o
        → IsBalanced c
        → IsBalanced (forget_stale o id c)
    forget-IsBalanced none id c e b = record {
      unique = b.unique;
      once = b.once;
      balance = b.balance;
    }
    forget-IsBalanced (some p) id c e b = settle-IsBalanced id _ p c e b

-- A request under an id that no request had.
wait-IsBalanced :
    (o : Option String) (id node method params : String) (timeout now : ℕ) (c : NodeCommunicator)
    → asked id c.sent ≡ 0
    → IsBalanced c
    → IsBalanced (wait_if_sent (send_over o (request id method params) c) id node timeout now).0
unfolding asked
wait-IsBalanced none id node method params timeout now c fresh b = b
wait-IsBalanced (some socket) id node method params timeout now c fresh b = record {
  unique = IsMap-set id _ c.requests b.unique;
  once = λ j. ground (
    arith,
    asked-append j c.sent ((socket, request id method params) ∷ []),
    eq_iff id j,
    b.once j,
  );
  balance = λ j. ground (
    arith,
    asked-append j c.sent ((socket, request id method params) ∷ []),
    get-set id j (record { node_id = node; timeout_ms = timeout; deadline = now + timeout })
        c.requests,
    eq_iff id j,
    b.balance j,
  );
}

pub send-IsBalanced :
    (e : Option String) (is_open : String → Bool) (node id method params : String) (timeout now : ℕ)
    (c : NodeCommunicator)
    → asked id c.sent ≡ 0
    → IsBalanced c
    → IsBalanced (send_if_available e is_open node (request id method params) id timeout now c).0
unfolding send_to_node
send-IsBalanced (some error) is_open node id method params timeout now c fresh b = b
send-IsBalanced none is_open node id method params timeout now c fresh b =
    wait-IsBalanced _ id node method params timeout now c fresh b

pub notice-IsBalanced :
    (o : Option String) (text : String) (c : NodeCommunicator)
    → IsBalanced c
    → IsBalanced (send_over o (notice text) c).0
unfolding asked
notice-IsBalanced none text c b = b
notice-IsBalanced (some socket) text c b = record {
  unique = b.unique;
  once = λ j. ground (arith, asked-append j c.sent ((socket, notice text) ∷ []), b.once j);
  balance = λ j. ground (arith, asked-append j c.sent ((socket, notice text) ∷ []), b.balance j);
}
