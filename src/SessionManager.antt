-- ===== src/SessionManager.antt =====
-- SessionManager (src/sessions/manager.ts), and the part of executeTaskLogic of
-- src/orchestrator/TaskOrchestrator.ts that calls it. A session is one object, reached by its id and,
-- where it has one, by its key: `session_keys` holds the id. `files` is what is written under each
-- id; a write that fails, which throws, is left out. Random ids and the clock are arguments.
pub mod File
pub mod Lookup
pub mod Compaction
pub mod Reload
use moon_bot.Prelude.{
  ℕ, zero, suc, ◌+◌, ◌-◌, String, Bool, true, false, Option, none, some, List, [], ◌∷◌, ◌++◌,
  concat, length, ltb, ◌==◌, if◌then◌else◌,
}
use moon_bot.JsMap
use moon_bot.JsMap.{JsMap, values}
use moon_bot.Task.{SessionMessage}
use moon_bot.SessionManager.File
use moon_bot.SessionManager.File.{SessionFile}

pub record Session : Type 0 where
  pub id : String
  pub session_key : Option String
  pub agent_id : String
  pub user_id : String
  pub channel_id : String
  pub messages : List SessionMessage
  pub created_at : ℕ
  pub updated_at : ℕ

pub record SessionManager : Type 0 where
  pub sessions : JsMap Session
  pub session_keys : JsMap String
  pub files : JsMap SessionFile

abbrev pub new : SessionManager
new = record { sessions = []; session_keys = []; files = [] }

-- `agent:<id>:session:<key>`, as SessionKey generates it.
abbrev pub generate_session_key : String → String → String
generate_session_key agent session = concat "agent:" (concat agent (concat ":session:" session))

-- An empty channel session id is falsy.
abbrev pub key_of : String → Option String → Option String
key_of agent none = none
key_of agent (some session) =
    if session == "" then none else some (generate_session_key agent session)

abbrev pub new_session : String → String → String → String → Option String → ℕ → Session
new_session id agent owner channel session now = record {
  id = id;
  session_key = key_of agent session;
  agent_id = agent;
  user_id = owner;
  channel_id = channel;
  messages = [];
  created_at = now;
  updated_at = now;
}

abbrev pub index : Option String → String → JsMap String → JsMap String
index none id keys = keys
index (some key) id keys = JsMap.set key id keys

abbrev save : Session → SessionManager → SessionManager
save s m = record m { files = JsMap.set s.id (File.write s.messages) m.files }

abbrev pub add : Session → SessionManager → SessionManager
add s m = save s (record m {
  sessions = JsMap.set s.id s m.sessions;
  session_keys = index s.session_key s.id m.session_keys;
})

unfoldable pub create :
    String
    → String
    → String
    → String
    → Option String
    → ℕ
    → SessionManager
    → SessionManager × Session
create id agent owner channel session now m =
    let s = new_session id agent owner channel session now in (add s m, s)

abbrev pub get : String → SessionManager → Option Session
get id m = JsMap.get id m.sessions

abbrev pub session_of : Option String → SessionManager → Option Session
session_of none m = none
session_of (some id) m = JsMap.get id m.sessions

unfoldable pub get_by_session_key : String → SessionManager → Option Session
get_by_session_key key m = session_of (JsMap.get key m.session_keys) m

abbrev first_time : List SessionMessage → ℕ → ℕ
first_time [] now = now
first_time (x ∷ xs) now = if ltb 0 x.timestamp then x.timestamp else now

abbrev last_time : List SessionMessage → ℕ → ℕ
last_time [] now = now
last_time (x ∷ []) now = if ltb 0 x.timestamp then x.timestamp else now
last_time (x ∷ y ∷ xs) now = last_time (y ∷ xs) now

abbrev loaded : String → List SessionMessage → ℕ → Session
loaded id messages now = record {
  id = id;
  session_key = none;
  agent_id = "unknown";
  user_id = "unknown";
  channel_id = "unknown";
  messages = messages;
  created_at = first_time messages now;
  updated_at = last_time messages now;
}

abbrev pub load_read :
    Option (List SessionMessage) → String → ℕ → SessionManager → SessionManager × Option Session
load_read none id now m = (m, none)
load_read (some messages) id now m =
    let s = loaded id messages now in (record m { sessions = JsMap.set id s m.sessions }, some s)

abbrev pub load_file :
    Option SessionFile → String → ℕ → SessionManager → SessionManager × Option Session
load_file none id now m = (m, none)
load_file (some f) id now m = load_read (File.read f) id now m

abbrev pub load_known :
    Option Session → String → ℕ → SessionManager → SessionManager × Option Session
load_known (some s) id now m = (m, some s)
load_known none id now m = load_file (JsMap.get id m.files) id now m

unfoldable pub load : String → ℕ → SessionManager → SessionManager × Option Session
load id now m = load_known (JsMap.get id m.sessions) id now m

abbrev or_empty : Option SessionFile → SessionFile
or_empty none = File.write []
or_empty (some f) = f

-- `none` where it throws "Session not found".
abbrev pub add_found :
    Option Session → String → SessionMessage → ℕ → SessionManager → Option SessionManager
add_found none id message now m = none
add_found (some s) id message now m = some (record m {
  sessions =
      JsMap.set id (record s { messages = s.messages ++ (message ∷ []); updated_at = now })
        m.sessions;
  files = JsMap.set id (File.append message (or_empty (JsMap.get id m.files))) m.files;
})

unfoldable pub add_message : String → SessionMessage → ℕ → SessionManager → Option SessionManager
add_message id message now m = add_found (JsMap.get id m.sessions) id message now m

abbrev pub drop_oldest : ℕ → List SessionMessage → List SessionMessage
drop_oldest zero xs = xs
drop_oldest (suc n) [] = []
drop_oldest (suc n) (x ∷ xs) = drop_oldest n xs

-- `messages.slice(-50)` where there are more.
abbrev pub compacted : List SessionMessage → List SessionMessage
compacted xs = if ltb 50 (length xs) then drop_oldest (length xs - 50) xs else xs

abbrev pub compact_found : Option Session → String → SessionManager → SessionManager
compact_found none id m = m
compact_found (some s) id m =
    if ltb 50 (length s.messages)
    then (let t = record s { messages = compacted s.messages } in
        save t (record m { sessions = JsMap.set id t m.sessions }))
    else m

unfoldable pub compact : String → SessionManager → SessionManager
compact id m = compact_found (JsMap.get id m.sessions) id m

abbrev pub list : SessionManager → List Session
list m = values m.sessions

-- The session of a task: the one found by the task's channel session, or a new one.
abbrev pub found_or_created :
    Option Session
    → String
    → String
    → String
    → String
    → String
    → ℕ
    → SessionManager
    → SessionManager × Session
found_or_created (some s) id agent owner channel session now m = (m, s)
found_or_created none id agent owner channel session now m =
    create id agent owner channel (some session) now m

unfoldable pub session_of_task :
    String → String → String → String → String → ℕ → SessionManager → SessionManager × Session
session_of_task id agent owner channel session now m =
    found_or_created (get_by_session_key session m) id agent owner channel session now m

-- The process ends and begins anew: what is in memory is lost.
unfoldable pub restart : SessionManager → SessionManager
restart m = record m { sessions = []; session_keys = [] }
