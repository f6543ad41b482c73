-- ===== src/SessionManager/Lookup.antt =====
-- Sessions are stored under their keys and looked up for tasks by something else.
use moon_bot.Prelude.{
  ℕ, String, ◌≡◌, ◌≢◌, refl, Option, none, some, List, arith, ◌==◌, eq_iff, Bool-cases, inl, inr,
  ap, sym, some-injective, ltb, length,
}
use moon_bot.JsMap
use moon_bot.JsMap.{JsMap}
use moon_bot.JsMap.Laws.{get-set, get-set_self}
use moon_bot.SessionManager.File
use moon_bot.SessionManager.File.{SessionFile}
use moon_bot.Task.{SessionMessage}
use moon_bot.SessionManager.{
  SessionManager, Session, new, generate_session_key, key_of, index, create, get_by_session_key,
  load, load_read, load_file, load_known, add_message, add_found, compact, compact_found,
  found_or_created, session_of_task,
}

-- The calls of the session manager, and the tasks.
pub data Step (m : SessionManager) : SessionManager → Type 0 where
  creates :
      (id agent owner channel : String) (session : Option String) (now : ℕ)
      → Step m (create id agent owner channel session now m).0
  loads : (id : String) (now : ℕ) → Step m (load id now m).0
  adds :
      (id : String) (message : SessionMessage) (now : ℕ) (n : SessionManager)
      → add_message id message now m ≡ some n
      → Step m n
  compacts : (id : String) → Step m (compact id m)
  runs :
      (id agent owner channel session : String) (now : ℕ)
      → Step m (session_of_task id agent owner channel session now m).0

pub data Reach (m : SessionManager) : SessionManager → Type 0 where
  here : Reach m m
  next : {n o : SessionManager} → Reach m n → Step n o → Reach m o

-- No session key is this text.
abbrev pub IsNoKey : String → Type 0
IsNoKey c = (agent session : String) → c ≢ generate_session_key agent session

abbrev IsUnindexed : String → SessionManager → Type 0
IsUnindexed c m = JsMap.get c m.session_keys ≡ none

key_of-unindexed :
    (c agent id : String) (session : Option String) (keys : JsMap String)
    → IsNoKey c
    → JsMap.get c keys ≡ none
    → JsMap.get c (index (key_of agent session) id keys) ≡ none
key_of-unindexed c agent id none keys n h = h
key_of-unindexed c agent id (some session) keys n h = elim (Bool-cases (session == "")) [
  | inl e ↦ rw e h
  | inr e ↦ rw e (
      ground (
        arith,
        get-set (generate_session_key agent session) c id keys,
        eq_iff (generate_session_key agent session) c,
        n agent session,
      ))
]

create-IsUnindexed :
    (c id agent owner channel : String) (session : Option String) (now : ℕ) (m : SessionManager)
    → IsNoKey c
    → IsUnindexed c m
    → IsUnindexed c (create id agent owner channel session now m).0
unfolding create
create-IsUnindexed c id agent owner channel session now m n h =
    key_of-unindexed c agent id session m.session_keys n h

load_read-keys :
    (o : Option (List SessionMessage)) (id : String) (now : ℕ) (m : SessionManager)
    → (load_read o id now m).0.session_keys ≡ m.session_keys
load_read-keys none id now m = refl
load_read-keys (some messages) id now m = refl

load_file-keys :
    (o : Option SessionFile) (id : String) (now : ℕ) (m : SessionManager)
    → (load_file o id now m).0.session_keys ≡ m.session_keys
load_file-keys none id now m = refl
load_file-keys (some f) id now m = load_read-keys (File.read f) id now m

load_known-keys :
    (o : Option Session) (id : String) (now : ℕ) (m : SessionManager)
    → (load_known o id now m).0.session_keys ≡ m.session_keys
load_known-keys (some s) id now m = refl
load_known-keys none id now m = load_file-keys (JsMap.get id m.files) id now m

add_found-keys :
    (o : Option Session) (id : String) (message : SessionMessage) (now : ℕ) (m n : SessionManager)
    → add_found o id message now m ≡ some n
    → n.session_keys ≡ m.session_keys
add_found-keys none id message now m n e = ground arith
add_found-keys (some s) id message now m n e =
    sym (ap (λ (k : SessionManager). k.session_keys) (some-injective _ n e))

compact_found-keys :
    (o : Option Session) (id : String) (m : SessionManager)
    → (compact_found o id m).session_keys ≡ m.session_keys
compact_found-keys none id m = refl
compact_found-keys (some s) id m = elim (Bool-cases (ltb 50 (length s.messages))) [
  | inl e ↦ rw e refl
  | inr e ↦ rw e refl
]

run-IsUnindexed :
    (o : Option Session) (c id agent owner channel session : String) (now : ℕ) (m : SessionManager)
    → IsNoKey c
    → IsUnindexed c m
    → IsUnindexed c (found_or_created o id agent owner channel session now m).0
run-IsUnindexed (some s) c id agent owner channel session now m n h = h
run-IsUnindexed none c id agent owner channel session now m n h =
    create-IsUnindexed c id agent owner channel (some session) now m n h

step-IsUnindexed :
    {m o : SessionManager} (c : String) → Step m o → IsNoKey c → IsUnindexed c m → IsUnindexed c o
unfolding load add_message compact session_of_task
step-IsUnindexed {m} c (creates id agent owner channel session now) n h =
    create-IsUnindexed c id agent owner channel session now m n h
step-IsUnindexed {m} c (loads id now) n h =
    rw (load_known-keys (JsMap.get id m.sessions) id now m) h
step-IsUnindexed {m} c (adds id message now o e) n h =
    rw (add_found-keys (JsMap.get id m.sessions) id message now m o e) h
step-IsUnindexed {m} c (compacts id) n h = rw (compact_found-keys (JsMap.get id m.sessions) id m) h
step-IsUnindexed {m} c (runs id agent owner channel session now) n h =
    run-IsUnindexed (get_by_session_key session m) c id agent owner channel session now m n h

Reach-IsUnindexed :
    {m o : SessionManager} (c : String) → Reach m o → IsNoKey c → IsUnindexed c m → IsUnindexed c o
Reach-IsUnindexed c here n h = h
Reach-IsUnindexed c (next before step) n h =
    step-IsUnindexed c step n (Reach-IsUnindexed c before n h)

-- From an empty store, after any calls and tasks, a task whose channel session is not itself of the
-- form of a session key is given a new session, whatever sessions its channel session already has.
pub always_new :
    (m : SessionManager) (id agent owner channel session : String) (now : ℕ)
    → Reach new m
    → IsNoKey session
    → session_of_task id agent owner channel session now m
      ≡ create id agent owner channel (some session) now m
unfolding session_of_task get_by_session_key JsMap.get
always_new m id agent owner channel session now reach n =
    rw (Reach-IsUnindexed session reach n refl) refl

-- Under its session key, a session just created with a channel session that is not empty is found.
pub found_by_key :
    (m : SessionManager) (id agent owner channel session : String) (now : ℕ)
    → session ≢ ""
    → get_by_session_key
        (generate_session_key agent session)
        (create id agent owner channel (some session) now m).0
      ≡ some (create id agent owner channel (some session) now m).1
unfolding create get_by_session_key
found_by_key m id agent owner channel session now h = elim (Bool-cases (session == "")) [
  | inl e ↦ absurd (h ((eq_iff session "").0 e))
  | inr e ↦
      rw (e, get-set_self (generate_session_key agent session) id m.session_keys)
        (get-set_self id _ m.sessions)
]
