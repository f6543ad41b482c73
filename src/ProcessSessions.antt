-- ===== src/ProcessSessions.antt =====
-- ProcessSessionManager (src/tools/process/ProcessSessionManager.ts). A process is a name in
-- `handle`; what its `write` and `kill` answer and what spawning it gives are arguments, like the
-- random id and the clock. `createSession` is cut at its await: `begin_create` captures the count of
-- the user, `finish_create` stores it with one added. A callback acts on the session object, which
-- is the one in `sessions` as long as the session is there.
pub mod Output
pub mod Kept
pub mod Counts
pub mod Limited
pub mod Captured
pub mod Steps
pub mod Removal
use mathlib.Core.List.{drop, take}
use Prim.Native.String
use moon_bot.Prelude.{
  ℕ, zero, suc, ◌+◌, ◌-◌, ◌*◌, String, Bool, true, false, ◌&&◌, ◌||◌, not, Option, none, some, List,
  [], ◌∷◌, ◌++◌, length, filter, ltb, leb, concat, ◌==◌, is_some, if◌then◌else◌,
}
use moon_bot.JsMap
use moon_bot.JsMap.{JsMap, values, keys}
use moon_bot.ProcessSessions.Output
use moon_bot.ProcessSessions.Output.{appended, trimmed_log, take_first, drop_first}

pub data ProcessSessionStatus : Type 0 where
  running exited killed : ProcessSessionStatus

abbrev pub is_running : ProcessSessionStatus → Bool
is_running running = true
is_running _ = false

abbrev pub status_text : ProcessSessionStatus → String
status_text running = "running"
status_text exited = "exited"
status_text killed = "killed"

pub record ProcessSession : Type 0 where
  pub id : String
  pub user_id : String
  pub command : List String
  pub cwd : String
  pub pty : Bool
  pub status : ProcessSessionStatus
  pub exit_code : Option ℕ
  pub pid : Option ℕ
  pub output_buffer : List String
  pub full_log : List String
  pub created_at : ℕ
  pub last_activity_at : ℕ
  pub handle : Option String

pub record ManagerConfig : Type 0 where
  pub max_output_lines : ℕ
  pub max_log_size : ℕ
  pub idle_timeout_ms : ℕ
  pub max_sessions_per_user : ℕ

abbrev pub default_config : ManagerConfig
default_config = record {
  max_output_lines = 1000;
  max_log_size = 10 * 1024 * 1024;
  idle_timeout_ms = 30 * 60 * 1000;
  max_sessions_per_user = 3;
}

pub record ProcessSessions : Type 0 where
  pub sessions : JsMap ProcessSession
  pub user_session_count : JsMap ℕ
  pub config : ManagerConfig

abbrev pub new : ManagerConfig → ProcessSessions
new config = record { sessions = []; user_session_count = []; config = config }

abbrev pub or_zero : Option ℕ → ℕ
or_zero none = 0
or_zero (some n) = n

abbrev pub count_of : String → ProcessSessions → ℕ
count_of user m = or_zero (JsMap.get user m.user_session_count)

-- The count that is captured, none where the limit is reached.
unfoldable pub begin_create : String → ProcessSessions → Option ℕ
begin_create user m =
    if leb m.config.max_sessions_per_user (count_of user m) then none else some (count_of user m)

abbrev pub new_session :
    String → String → List String → String → Bool → ℕ → String → Option ℕ → ProcessSession
new_session id user command cwd pty now handle pid = record {
  id = id;
  user_id = user;
  command = command;
  cwd = cwd;
  pty = pty;
  status = running;
  exit_code = none;
  pid = pid;
  output_buffer = [];
  full_log = [];
  created_at = now;
  last_activity_at = now;
  handle = some handle;
}

-- Once the process is there; a spawn that fails stores nothing.
unfoldable pub finish_create : ℕ → ProcessSession → ProcessSessions → ProcessSessions
finish_create captured p m = record m {
  sessions = JsMap.set p.id p m.sessions;
  user_session_count = JsMap.set p.user_id (captured + 1) m.user_session_count;
}

abbrev pub change :
    (ProcessSession → ProcessSession) → Option ProcessSession → ProcessSessions → ProcessSessions
change f none m = m
change f (some p) m = record m { sessions = JsMap.set p.id (f p) m.sessions }

-- Sets fields of the session `id`, if it is there.
unfoldable pub on_session :
    String → (ProcessSession → ProcessSession) → ProcessSessions → ProcessSessions
on_session id f m = change f (JsMap.get id m.sessions) m

-- The handler of `onData`, and the handler of `onExit`.
abbrev pub append_output : ManagerConfig → ℕ → String → ProcessSession → ProcessSession
append_output config now chunk p = record p {
  last_activity_at = now;
  output_buffer = appended config.max_output_lines chunk p.output_buffer;
  full_log = trimmed_log config.max_log_size chunk p.full_log;
}

abbrev exit_status : Option String → ProcessSessionStatus
exit_status none = exited
exit_status (some signal) = killed

abbrev pub ended : Option ℕ → Option String → ℕ → ProcessSession → ProcessSession
ended code signal now p = record p {
  status = exit_status signal;
  exit_code = code;
  handle = none;
  last_activity_at = now;
}

abbrev pub on_data : String → ℕ → String → ProcessSessions → ProcessSessions
on_data id now chunk m = on_session id (append_output m.config now chunk) m

abbrev pub on_exit : String → Option ℕ → Option String → ℕ → ProcessSessions → ProcessSessions
on_exit id code signal now m = on_session id (ended code signal now) m

abbrev pub touch : ℕ → ProcessSession → ProcessSession
touch now p = record p { last_activity_at = now }

-- `session.status !== "running" || !session.handle`, turned round.
abbrev pub is_live : ProcessSession → Bool
is_live p = is_running p.status && is_some p.handle

abbrev bytes : Bool → String → ℕ
bytes true input = String.len input
bytes false input = 0

-- `writeToSession`; `writes` is what the process answers.
abbrev pub write_found :
    Option ProcessSession → String → Bool → ℕ → ProcessSessions → ProcessSessions × (Bool × ℕ)
write_found none input writes now m = (m, (false, 0))
write_found (some p) input writes now m =
    if is_live p
    then (change (touch now) (some p) m, (writes, bytes writes input))
    else (m, (false, 0))

unfoldable pub write_to_session :
    String → String → Bool → ℕ → ProcessSessions → ProcessSessions × (Bool × ℕ)
write_to_session id input writes now m = write_found (JsMap.get id m.sessions) input writes now m

pub record Polled : Type 0 where
  pub lines : List String
  pub has_more : Bool
  pub status : ProcessSessionStatus
  pub exit_code : Option ℕ

abbrev pub polled : ℕ → ℕ → ProcessSession → ProcessSession
polled max_lines now p = record p {
  last_activity_at = now;
  output_buffer = drop_first max_lines p.output_buffer;
}

abbrev pub poll_result : ℕ → ProcessSession → Polled
poll_result max_lines p = record {
  lines = take_first max_lines p.output_buffer;
  has_more = ltb 0 (length (drop_first max_lines p.output_buffer));
  status = p.status;
  exit_code = p.exit_code;
}

abbrev pub poll_found :
    Option ProcessSession → ℕ → ℕ → ProcessSessions → ProcessSessions × Option Polled
poll_found none max_lines now m = (m, none)
poll_found (some p) max_lines now m =
    (change (polled max_lines now) (some p) m, some (poll_result max_lines p))

unfoldable pub poll_output : String → ℕ → ℕ → ProcessSessions → ProcessSessions × Option Polled
poll_output id max_lines now m = poll_found (JsMap.get id m.sessions) max_lines now m

pub record FullLog : Type 0 where
  pub log : String
  pub total_lines : ℕ
  pub status : ProcessSessionStatus
  pub exit_code : Option ℕ

abbrev pub log_found :
    Option ProcessSession → ℕ → ProcessSessions → ProcessSessions × Option FullLog
log_found none now m = (m, none)
log_found (some p) now m = (
  change (touch now) (some p) m,
  some (record {
    log = Output.joined p.full_log;
    total_lines = length p.full_log;
    status = p.status;
    exit_code = p.exit_code;
  }),
)

unfoldable pub get_full_log : String → ℕ → ProcessSessions → ProcessSessions × Option FullLog
get_full_log id now m = log_found (JsMap.get id m.sessions) now m

abbrev pub marked_killed : ℕ → ProcessSession → ProcessSession
marked_killed now p = record p { status = killed; last_activity_at = now }

-- `killSession`; `kills` is what the process answers.
abbrev pub kill_live :
    Bool → String → ℕ → ProcessSession → ProcessSessions → ProcessSessions × (Bool × String)
kill_live true signal now p m =
    (change (marked_killed now) (some p) m, (true, concat "Session killed with " signal))
kill_live false signal now p m = (m, (false, "Failed to kill process"))

abbrev pub kill_found :
    Option ProcessSession → Bool → String → ℕ → ProcessSessions → ProcessSessions × (Bool × String)
kill_found none kills signal now m = (m, (false, "Session not found"))
kill_found (some p) kills signal now m =
    if is_live p
    then kill_live kills signal now p m
    else (m, (false, concat "Session already " (status_text p.status)))

unfoldable pub kill_session :
    String → Bool → String → ℕ → ProcessSessions → ProcessSessions × (Bool × String)
kill_session id kills signal now m = kill_found (JsMap.get id m.sessions) kills signal now m

abbrev pub is_of : String → ProcessSession → Bool
is_of user p = p.user_id == user

-- An empty user is falsy, like none.
abbrev pub list_active_sessions : Option String → ProcessSessions → List ProcessSession
list_active_sessions none m = values m.sessions
list_active_sessions (some user) m =
    if user == "" then values m.sessions else filter (is_of user) (values m.sessions)

abbrev pub get_session : String → ProcessSessions → Option ProcessSession
get_session id m = JsMap.get id m.sessions
