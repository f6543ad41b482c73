-- ===== src/ProcessSessions/Steps.antt =====
-- Calls of ProcessSessionManager, with creations cut at the await of the process: each user has one
-- creation at a time, and none of the user's sessions is removed during it.
use moon_bot.Prelude.{
  ℕ, ◌≤◌, ◌⊎◌, ap, ◌≡◌, refl, String, Bool, true, false, Option, none, some, [], Bool-cases, inl,
  inr, sym, subst,
}
use moon_bot.JsMap
use moon_bot.JsMap.{JsMap, IsMap, keys}
use moon_bot.JsMap.Counting.{count}
use moon_bot.ProcessSessions.{
  ProcessSessions, ProcessSession, ManagerConfig, count_of, is_of, begin_create, finish_create,
  on_session, on_data, on_exit, append_output, ended, touch, polled, marked_killed,
  write_to_session, write_found, poll_output, poll_found, get_full_log, log_found, kill_session,
  kill_found, is_live, change, new,
}
use moon_bot.ProcessSessions.Removal.{expired_ids, remove_session, cleanup_expired, close_all}
use moon_bot.ProcessSessions.Limited.{
  IsLimited, creates-IsLimited, change-IsLimited, remove_session-IsLimited, remove_all-IsLimited,
  new-IsLimited,
}
use moon_bot.ProcessSessions.Captured.{
  IsOfNone, AreOfNone, AreCaptured, begins-AreCaptured, delete-AreCaptured, finishes-AreCaptured,
  changed-AreCaptured, removed-AreCaptured, remove_all-AreCaptured, none-AreCaptured,
}

-- The manager with the creations that wait for a process: the count that each has captured, by user.
pub record Course : Type 0 where
  pub manager : ProcessSessions
  pub waiting : JsMap ℕ

-- What is called or reported and counts nothing.
pub data Quiet (m : ProcessSessions) : ProcessSessions → Type 0 where
  prints : (id : String) (now : ℕ) (chunk : String) → Quiet m (on_data id now chunk m)
  exits :
      (id : String) (code : Option ℕ) (signal : Option String) (now : ℕ)
      → Quiet m (on_exit id code signal now m)
  writes :
      (id input : String) (ok : Bool) (now : ℕ) → Quiet m (write_to_session id input ok now m).0
  polls : (id : String) (max_lines now : ℕ) → Quiet m (poll_output id max_lines now m).0
  reads : (id : String) (now : ℕ) → Quiet m (get_full_log id now m).0
  kills :
      (id : String) (ok : Bool) (signal : String) (now : ℕ)
      → Quiet m (kill_session id ok signal now m).0

pub data Step (c : Course) : Course → Type 0 where
  begins :
      (user : String) (captured : ℕ)
      → JsMap.get user c.waiting ≡ none
      → begin_create user c.manager ≡ some captured
      → Step c (record c { waiting = JsMap.set user captured c.waiting })
  fails : (user : String) → Step c (record c { waiting = JsMap.delete user c.waiting })
  finishes :
      (p : ProcessSession) (captured : ℕ)
      → JsMap.get p.user_id c.waiting ≡ some captured
      → JsMap.get p.id c.manager.sessions ≡ none
      → Step c (record {
        manager = finish_create captured p c.manager;
        waiting = JsMap.delete p.user_id c.waiting;
      })
  quietly : (n : ProcessSessions) → Quiet c.manager n → Step c (record c { manager = n })
  removes :
      (id : String)
      → IsOfNone c.waiting (JsMap.get id c.manager.sessions)
      → Step c (record c { manager = (remove_session id c.manager).0 })
  cleans :
      (now : ℕ)
      → AreOfNone c.waiting c.manager.sessions (expired_ids c.manager.config now c.manager.sessions)
      → Step c (record c { manager = (cleanup_expired now c.manager).0 })
  closes :
      AreOfNone c.waiting c.manager.sessions (keys c.manager.sessions)
      → Step c (record c { manager = close_all c.manager })

pub data Reach (c : Course) : Course → Type 0 where
  here : Reach c c
  next : {d e : Course} → Reach c d → Step d e → Reach c e

abbrev IsInOrder : Course → Type 0
IsInOrder c = IsLimited c.manager × AreCaptured c.waiting c.manager

-- Nothing is changed, or fields of a session, but not its id or its user.
abbrev IsChange : ProcessSessions → ProcessSessions → Type 0
IsChange m n =
    (n ≡ m)
    ⊎ ((f : ProcessSession → ProcessSession) × (id : String) × ((p : ProcessSession)
          → ((f p).id ≡ p.id) × ((f p).user_id ≡ p.user_id))
        × (n ≡ change f (JsMap.get id m.sessions) m))

changes :
    (f : ProcessSession → ProcessSession) (id : String) (o : Option ProcessSession)
    (m : ProcessSessions)
    → ((p : ProcessSession) → ((f p).id ≡ p.id) × ((f p).user_id ≡ p.user_id))
    → JsMap.get id m.sessions ≡ o
    → IsChange m (change f o m)
changes f id o m keeps e = inr (f, id, keeps, ap (λ q. change f q m) (sym e))

write-IsChange :
    (o : Option ProcessSession) (id input : String) (ok : Bool) (now : ℕ) (m : ProcessSessions)
    → JsMap.get id m.sessions ≡ o
    → IsChange m (write_found o input ok now m).0
write-IsChange none id input ok now m e = inl refl
write-IsChange (some p) id input ok now m e = elim (Bool-cases (is_live p)) [
  | inl live ↦ rw live (changes (touch now) id (some p) m (λ q. (refl, refl)) e)
  | inr over ↦ rw over (inl refl)
]

kill-IsChange :
    (o : Option ProcessSession) (id : String) (ok : Bool) (signal : String) (now : ℕ)
    (m : ProcessSessions)
    → JsMap.get id m.sessions ≡ o
    → IsChange m (kill_found o ok signal now m).0
kill-IsChange none id ok signal now m e = inl refl
kill-IsChange (some p) id true signal now m e = elim (Bool-cases (is_live p)) [
  | inl live ↦ rw live (changes (marked_killed now) id (some p) m (λ q. (refl, refl)) e)
  | inr over ↦ rw over (inl refl)
]
kill-IsChange (some p) id false signal now m e = elim (Bool-cases (is_live p)) [
  | inl live ↦ rw live (inl refl)
  | inr over ↦ rw over (inl refl)
]

poll-IsChange :
    (o : Option ProcessSession) (id : String) (max_lines now : ℕ) (m : ProcessSessions)
    → JsMap.get id m.sessions ≡ o
    → IsChange m (poll_found o max_lines now m).0
poll-IsChange none id max_lines now m e = inl refl
poll-IsChange (some p) id max_lines now m e =
    changes (polled max_lines now) id (some p) m (λ q. (refl, refl)) e

log-IsChange :
    (o : Option ProcessSession) (id : String) (now : ℕ) (m : ProcessSessions)
    → JsMap.get id m.sessions ≡ o
    → IsChange m (log_found o now m).0
log-IsChange none id now m e = inl refl
log-IsChange (some p) id now m e = changes (touch now) id (some p) m (λ q. (refl, refl)) e

Quiet-IsChange : {m n : ProcessSessions} → Quiet m n → IsChange m n
unfolding on_session write_to_session poll_output get_full_log kill_session
Quiet-IsChange {m} (prints id now chunk) =
    changes (append_output m.config now chunk) id _ m (λ q. (refl, refl)) refl
Quiet-IsChange {m} (exits id code signal now) =
    changes (ended code signal now) id _ m (λ q. (refl, refl)) refl
Quiet-IsChange {m} (writes id input ok now) = write-IsChange _ id input ok now m refl
Quiet-IsChange {m} (polls id max_lines now) = poll-IsChange _ id max_lines now m refl
Quiet-IsChange {m} (reads id now) = log-IsChange _ id now m refl
Quiet-IsChange {m} (kills id ok signal now) = kill-IsChange _ id ok signal now m refl

quiet-IsInOrder :
    (waiting : JsMap ℕ) (m n : ProcessSessions)
    → IsChange m n
    → IsLimited m × AreCaptured waiting m
    → IsLimited n × AreCaptured waiting n
quiet-IsInOrder waiting m n (inl same) h =
    subst (λ k. IsLimited k × AreCaptured waiting k) (sym same) h
quiet-IsInOrder waiting m n (inr (f, id, keeps, same)) (l, are) =
    subst (λ k. IsLimited k × AreCaptured waiting k) (sym same)
      (
        change-IsLimited f (JsMap.get id m.sessions) id m keeps refl l,
        changed-AreCaptured f (JsMap.get id m.sessions) waiting m are,
      )

Step-IsInOrder : {c d : Course} → Step c d → IsInOrder c → IsInOrder d
unfolding cleanup_expired remove_session
Step-IsInOrder {c} (begins user n free h) (l, are) =
    (l, begins-AreCaptured user n c.waiting c.manager h are)
Step-IsInOrder {c} (fails user) (l, are) = (l, delete-AreCaptured user c.waiting c.manager are)
Step-IsInOrder {c} (finishes p n e fresh) (l, are) = (
  creates-IsLimited p n c.manager (are p.user_id n e) fresh l,
  finishes-AreCaptured p n c.waiting c.manager are,
)
Step-IsInOrder {c} (quietly n q) h = quiet-IsInOrder c.waiting c.manager n (Quiet-IsChange q) h
Step-IsInOrder {c} (removes id free) (l, are) = (
  remove_session-IsLimited id c.manager l,
  removed-AreCaptured (JsMap.get id c.manager.sessions) id c.waiting c.manager free are,
)
Step-IsInOrder {c} (cleans now free) (l, are) =
    let ids = expired_ids c.manager.config now c.manager.sessions in
    (remove_all-IsLimited ids c.manager l, remove_all-AreCaptured ids c.waiting c.manager free are)
Step-IsInOrder {c} (closes free) (l, are) =
    let ids = keys c.manager.sessions in
    (remove_all-IsLimited ids c.manager l, remove_all-AreCaptured ids c.waiting c.manager free are)

Reach-IsInOrder : {c d : Course} → Reach c d → IsInOrder c → IsInOrder d
Reach-IsInOrder here h = h
Reach-IsInOrder (next before step) h = Step-IsInOrder step (Reach-IsInOrder before h)

-- From a new manager, after any calls and events in which a user has one creation at a time, none
-- of the user's sessions is removed during it, and each session has a fresh id, the count kept for
-- a user is the number of the user's sessions, and within the limit.
pub limit_kept :
    (config : ManagerConfig) (c : Course) (user : String)
    → Reach (record { manager = new config; waiting = [] }) c
    → (count_of user c.manager ≡ count (is_of user) c.manager.sessions)
      × (count (is_of user) c.manager.sessions ≤ c.manager.config.max_sessions_per_user)
limit_kept config c user reach =
    let (l, are) =
      Reach-IsInOrder reach (new-IsLimited config, none-AreCaptured [] (new config) refl) in
    (
      l.counted.right user,
      subst (λ n. n ≤ c.manager.config.max_sessions_per_user) (l.counted.right user)
          (l.limited user),
    )
