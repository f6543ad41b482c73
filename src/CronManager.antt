-- ===== src/CronManager.antt =====
-- CronManager (src/cron/manager.ts) on the orchestrator. A timer is what the runtime holds for a
-- `setTimeout` or a `setInterval`; it keeps the job that the call closed over. The functions on dates
-- are parameters, `handle` is what the runtime names a new timer by.
pub mod Timers
pub mod Replaced
use moon_bot.Prelude.{
  ℕ, ◌+◌, ◌-◌, ◌*◌, String, Bool, true, false, ◌&&◌, not, Option, none, some, List, [], ◌∷◌, ◌++◌,
  concat, filter, ltb, leb, ◌==◌, if◌then◌else◌,
}
use moon_bot.JsMap
use moon_bot.JsMap.{JsMap, values}
use moon_bot.Text.{Text, is_digit, number_from}
use moon_bot.Task.{ChatMessage, TaskState}
use moon_bot.Orchestrator.State.{Orchestrator}
use moon_bot.Orchestrator.Tasks.{create_task}

pub record CronJob : Type 0 where
  pub id : String
  pub agent_id : String
  pub schedule : Text
  pub task : ChatMessage
  pub enabled : Bool

pub record Timer : Type 0 where
  pub handle : ℕ
  pub job_id : String
  pub job : CronJob
  pub delay : ℕ
  pub repeats : Bool

pub record CronManager : Type 0 where
  pub first_agent : Option String
  pub jobs : JsMap CronJob
  pub intervals : JsMap ℕ
  pub timers : List Timer

abbrev pub new : Option String → CronManager
new first_agent = record { first_agent = first_agent; jobs = []; intervals = []; timers = [] }

abbrev pub is_timer : ℕ → Timer → Bool
is_timer handle t = leb t.handle handle && leb handle t.handle

-- `clearTimeout` and `clearInterval`, and a timeout that has run.
unfoldable pub clear : ℕ → List Timer → List Timer
clear handle timers = filter (λ t. not (is_timer handle t)) timers

abbrev put_timer : Timer → CronManager → CronManager
put_timer t m = record m {
  intervals = JsMap.set t.job_id t.handle m.intervals;
  timers = m.timers ++ (t ∷ []);
}

-- The first two digits, colon, two digits of a text.
abbrev pub time_here : Text → Option (ℕ × ℕ)
time_here (a ∷ b ∷ c ∷ d ∷ e ∷ s) =
    if ((is_digit a && is_digit b) && (leb b':' c && leb c b':')) && (is_digit d && is_digit e)
    then some (number_from 0 (a ∷ b ∷ []), number_from 0 (d ∷ e ∷ []))
    else none
time_here _ = none

abbrev or_later : Option (ℕ × ℕ) → Option (ℕ × ℕ) → Option (ℕ × ℕ)
or_later none o = o
or_later (some p) o = some p

unfoldable pub time_of : Text → Option (ℕ × ℕ)
time_of [] = none
time_of (a ∷ s) = or_later (time_here (a ∷ s)) (time_of s)

module _ (set_hours : ℕ → ℕ → ℕ → ℕ) (next_day : ℕ → ℕ) where
  abbrev wait_for : Option (ℕ × ℕ) → ℕ → ℕ
  wait_for none now = 60 * 60 * 1000
  wait_for (some (h, m)) now =
      let target = set_hours now h m in
      (if ltb target now then next_day target - now else target - now)

  unfoldable pub parse_interval : Text → ℕ → ℕ
  parse_interval schedule now = wait_for (time_of schedule) now

  abbrev pub schedule_next_run : String → CronJob → ℕ → ℕ → CronManager → CronManager
  schedule_next_run id job handle now m =
      put_timer
        (record {
          handle = handle;
          job_id = id;
          job = job;
          delay = parse_interval job.schedule now;
          repeats = false;
        })
        m

  abbrev pub start_found : Option CronJob → String → ℕ → ℕ → CronManager → Option CronManager
  start_found none id handle now m = none
  start_found (some job) id handle now m =
      if JsMap.has id m.intervals then some m else some (schedule_next_run id job handle now m)

  -- `none` where it throws "Job not found".
  unfoldable pub start : String → ℕ → ℕ → CronManager → Option CronManager
  start id handle now m = start_found (JsMap.get id m.jobs) id handle now m

  abbrev pub started : Option CronManager → CronManager → CronManager
  started none m = m
  started (some n) m = n

  unfoldable pub add : CronJob → ℕ → ℕ → CronManager → CronManager
  unfolding start
  add job handle now m =
      let n = record m { jobs = JsMap.set job.id job m.jobs } in
      if job.enabled then started (start job.id handle now n) n else n

abbrev pub stop_timer : Option ℕ → String → CronManager → CronManager
stop_timer none id m = m
stop_timer (some handle) id m = record m {
  intervals = JsMap.delete id m.intervals;
  timers = clear handle m.timers;
}

unfoldable pub stop : String → CronManager → CronManager
stop id m = stop_timer (JsMap.get id m.intervals) id m

unfoldable pub remove : String → CronManager → CronManager
unfolding stop
remove id m = let n = stop id m in record n { jobs = JsMap.delete id n.jobs }

abbrev or_other : String → String → String
or_other s other = if s == "" then other else s

abbrev first_or : Option String → String
first_or none = "default"
first_or (some s) = or_other s "default"

abbrev pub cron_message : Option String → ChatMessage → ChatMessage
cron_message first_agent task = record task {
  agent_id = or_other task.agent_id (first_or first_agent);
  channel_id = or_other task.channel_id "cron";
  user_id = or_other task.user_id "cron-system";
}

-- What `createTask` throws is caught, with what it has done by then.
unfoldable pub execute_job :
    Option String → CronJob → String → ℕ → Option Orchestrator → Option Orchestrator
execute_job first_agent job task now none = none
execute_job first_agent job task now (some o) =
    some (create_task task (cron_message first_agent job.task) (concat "cron:" job.id) now o).0

abbrev pub daily : Timer → ℕ → Timer
daily t handle = record {
  handle = handle;
  job_id = t.job_id;
  job = t.job;
  delay = 24 * 60 * 60 * 1000;
  repeats = true;
}

abbrev pub without : Timer → CronManager → CronManager
without t m = record m { timers = clear t.handle m.timers }

-- A timer that fires, apart from the job it runs: a timeout is replaced by an interval of a day.
unfoldable pub fire : Timer → ℕ → CronManager → CronManager
fire t handle m = if t.repeats then m else put_timer (daily t handle) (without t m)

abbrev pub list : CronManager → List CronJob
list m = values m.jobs

abbrev pub get : String → CronManager → Option CronJob
get id m = JsMap.get id m.jobs
