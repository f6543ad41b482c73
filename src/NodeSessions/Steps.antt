-- ===== src/NodeSessions/Steps.antt =====
-- Sequences of calls of NodeSessionManager, their nodes and counts.
use moon_bot.Prelude.{
  ℕ, String, ◌≡◌, refl, ap, Bool, ◌&&◌, Option, none, some, List, [], ◌∷◌, arith, some-injective,
  inl, inr, Bool-cases, subst, leb, ltb, length, ◌==◌,
}
use moon_bot.JsMap
use moon_bot.JsMap.{JsMap, IsMap, values}
use moon_bot.NodeSessions.{
  NodeSessions, NodeConnection, PendingPairing, NodeInfo, is_of, get_nodes_for_user, find_node,
  put_node, new_node, add_pairing, generate_pairing_code, cleanup_expired_pairings, connect,
  complete, complete_pairing,
}
use moon_bot.NodeSessions.Upkeep.{
  update_last_seen, mark_offline, mark_paired, grant_screen_capture_consent,
  has_screen_capture_consent, revoke_screen_capture_consent, change, keyed, changed, check_consent,
  is_over, idle_ids, remove_node, remove_all, cleanup_expired, close_all, get_node_by_socket,
}
use moon_bot.NodeSessions.Counts.{
  IsCounted, put-IsCounted, add-IsCounted, removed-IsCounted, found-get,
}

-- The calls of the class that change its state, with an id that is fresh where one is made.
pub data Step (s : NodeSessions) : NodeSessions → Type 0 where
  generates :
      (user : String) (draw : ℕ → String) (at_cleanup now : ℕ)
      → Step s (generate_pairing_code user draw at_cleanup now s).0
  completes :
      (code id socket : String) (info : NodeInfo) (at_check now : ℕ)
      → JsMap.get id s.nodes ≡ none
      → Step s (complete_pairing code id socket info at_check now s).0
  sees : (id : String) (now : ℕ) → Step s (update_last_seen id now s)
  loses : (socket : String) → Step s (mark_offline socket s)
  reconnects : (socket : String) (now : ℕ) → Step s (mark_paired socket now s)
  checks : (id : String) (now : ℕ) → Step s (has_screen_capture_consent id now s).0
  grants :
      (id : String) (duration : Option ℕ) (now later : ℕ) (t : NodeSessions)
      → grant_screen_capture_consent id duration now later s ≡ some t
      → Step s t
  revokes :
      (id : String) (t : NodeSessions) → revoke_screen_capture_consent id s ≡ some t → Step s t
  removes : (id : String) → Step s (remove_node id s).0
  cleans : (now : ℕ) → Step s (cleanup_expired now s).0
  closes : Step s (close_all s)

pub data Reach (s : NodeSessions) : NodeSessions → Type 0 where
  here : Reach s s
  next : {t u : NodeSessions} → Reach s t → Step t u → Reach s u

add_pairing-IsCounted :
    (o : Option String) (user : String) (now : ℕ) (s : NodeSessions)
    → IsCounted s
    → IsCounted (add_pairing o user now s).0
unfolding add_pairing
add_pairing-IsCounted none user now s c = c
add_pairing-IsCounted (some code) user now s c = record { unique = c.unique; right = c.right }

generate-IsCounted :
    (user : String) (draw : ℕ → String) (at_cleanup now : ℕ) (s : NodeSessions)
    → IsCounted s
    → IsCounted (generate_pairing_code user draw at_cleanup now s).0
unfolding generate_pairing_code cleanup_expired_pairings
generate-IsCounted user draw at_cleanup now s c =
    elim (Bool-cases (leb s.config.max_nodes_per_user (length (get_nodes_for_user user s)))) [
      | inl full ↦ rw full c
      | inr room ↦
          rw room
            (add_pairing-IsCounted _ user now _ (record { unique = c.unique; right = c.right }))
    ]

connect-IsCounted :
    (test : NodeConnection → Bool) (o : Option (String × NodeConnection)) (p : PendingPairing)
    (id socket : String) (info : NodeInfo) (now : ℕ) (s : NodeSessions)
    → find_node test s.nodes ≡ o
    → JsMap.get id s.nodes ≡ none
    → IsCounted s
    → IsCounted (connect o p id socket info now s).0
unfolding connect
connect-IsCounted test none p id socket info now s e h c =
    add-IsCounted id (new_node id socket p.user_id info now) s h c
connect-IsCounted test (some (k, n)) p id socket info now s e h c =
    put-IsCounted k n _ s (found-get test k n s.nodes c.unique e) refl c

complete-IsCounted :
    (o : Option PendingPairing) (code id socket : String) (info : NodeInfo) (at_check now : ℕ)
    (s : NodeSessions)
    → JsMap.get id s.nodes ≡ none
    → IsCounted s
    → IsCounted (complete o code id socket info at_check now s).0
unfolding complete
complete-IsCounted none code id socket info at_check now s h c = c
complete-IsCounted (some p) code id socket info at_check now s h c =
    elim (Bool-cases (ltb p.expires_at at_check)) [
      | inl late ↦ rw late (record { unique = c.unique; right = c.right })
      | inr timely ↦
          let d =
            connect-IsCounted (λ n. is_of p.user_id n && n.node_name == info.node_name) _ p id
              socket info now s refl h c in
          rw timely (record { unique = d.unique; right = d.right })
    ]

change-IsCounted :
    (f : NodeConnection → NodeConnection) (o : Option (String × NodeConnection)) (s : NodeSessions)
    → ((n : NodeConnection) → (f n).user_id ≡ n.user_id)
    → ((k : String) (n : NodeConnection) → o ≡ some (k, n) → JsMap.get k s.nodes ≡ some n)
    → IsCounted s
    → IsCounted (change f o s)
change-IsCounted f none s same found c = c
change-IsCounted f (some (k, n)) s same found c =
    put-IsCounted k n (f n) s (found k n refl) (same n) c

keyed-get :
    (id : String) (o : Option NodeConnection) (k : String) (n : NodeConnection)
    → keyed id o ≡ some (k, n)
    → (id ≡ k) × (o ≡ some n)
keyed-get id none k n h = ground (arith, h)
keyed-get id (some m) k n h =
    let e = some-injective (id, m) (k, n) h in (ap (λ p. p.0) e, ap (λ p. some p.1) e)

remove-IsCounted : (id : String) (s : NodeSessions) → IsCounted s → IsCounted (remove_node id s).0
unfolding remove_node
remove-IsCounted id s c = removed-IsCounted id (JsMap.get id s.nodes) s refl c

remove_all-IsCounted :
    (ids : List String) (s : NodeSessions) → IsCounted s → IsCounted (remove_all ids s)
unfolding remove_all
remove_all-IsCounted [] s c = c
remove_all-IsCounted (id ∷ ids) s c =
    remove_all-IsCounted ids (remove_node id s).0 (remove-IsCounted id s c)

changed-IsCounted :
    (f : NodeConnection → NodeConnection) (id : String) (o : Option NodeConnection)
    (s t : NodeSessions)
    → ((n : NodeConnection) → (f n).user_id ≡ n.user_id)
    → JsMap.get id s.nodes ≡ o
    → changed f id o s ≡ some t
    → IsCounted s
    → IsCounted t
changed-IsCounted f id none s t same e h c = ground (arith, h)
changed-IsCounted f id (some n) s t same e h c =
    subst IsCounted (some-injective (put_node id (f n) s) t h)
      (put-IsCounted id n (f n) s e (same n) c)

checked-IsCounted :
    (id : String) (o : Option NodeConnection) (now : ℕ) (s : NodeSessions)
    → JsMap.get id s.nodes ≡ o
    → IsCounted s
    → IsCounted (check_consent id o now s).0
checked-IsCounted id none now s e c = c
checked-IsCounted id (some n) now s e c = elim (Bool-cases n.screen_capture_consent.granted) [
  | inl given ↦ rw given (elim (Bool-cases (is_over now n.screen_capture_consent.expires_at)) [
    | inl over ↦ rw over (put-IsCounted id n _ s e refl c)
    | inr holds ↦ rw holds c
  ])
  | inr not_given ↦ rw not_given c
]

close-IsCounted : (s : NodeSessions) → IsCounted (close_all s)
unfolding close_all JsMap.get values
close-IsCounted s = record { unique = tt; right = λ user. refl }

step-IsCounted : (s t : NodeSessions) → Step s t → IsCounted s → IsCounted t
unfolding complete_pairing update_last_seen mark_offline mark_paired grant_screen_capture_consent
    has_screen_capture_consent revoke_screen_capture_consent cleanup_expired
    cleanup_expired_pairings get_node_by_socket
step-IsCounted s t (generates user draw at_cleanup now) c =
    generate-IsCounted user draw at_cleanup now s c
step-IsCounted s t (completes code id socket info at_check now h) c =
    complete-IsCounted _ code id socket info at_check now s h c
step-IsCounted s t (sees id now) c =
    change-IsCounted _ _ s (λ n. refl)
      (λ k n e.
        let q = keyed-get id (JsMap.get id s.nodes) k n e in
        subst (λ j. JsMap.get j s.nodes ≡ some n) q.0 q.1)
      c
step-IsCounted s t (loses socket) c =
    change-IsCounted _ _ s (λ n. refl) (λ k n e. found-get _ k n s.nodes c.unique e) c
step-IsCounted s t (reconnects socket now) c =
    change-IsCounted _ _ s (λ n. refl) (λ k n e. found-get _ k n s.nodes c.unique e) c
step-IsCounted s t (checks id now) c = checked-IsCounted id (JsMap.get id s.nodes) now s refl c
step-IsCounted s t (grants id duration now later u e) c =
    changed-IsCounted _ id (JsMap.get id s.nodes) s t (λ n. refl) refl e c
step-IsCounted s t (revokes id u e) c =
    changed-IsCounted _ id (JsMap.get id s.nodes) s t (λ n. refl) refl e c
step-IsCounted s t (removes id) c = remove-IsCounted id s c
step-IsCounted s t (cleans now) c =
    remove_all-IsCounted (idle_ids now s.config.session_timeout_ms s.nodes)
      (cleanup_expired_pairings now s) (record { unique = c.unique; right = c.right })
step-IsCounted s t closes c = close-IsCounted s

-- From a state in which each id occurs once and the count kept for each user is the number of the
-- user's nodes, both hold after any sequence of calls that gives new nodes fresh ids.
pub Reach-IsCounted : (s t : NodeSessions) → Reach s t → IsCounted s → IsCounted t
Reach-IsCounted s t here c = c
Reach-IsCounted s t (next r step) c = step-IsCounted _ t step (Reach-IsCounted s _ r c)
