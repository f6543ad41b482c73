-- ===== src/Registry.antt =====
-- TaskRegistry (src/orchestrator/TaskRegistry.ts): the tasks by id and the transitions of their
-- states. Clock readings and the random part of a new id are arguments. `events` is what
-- `emitEvent` has handed to every listener, oldest first.
pub mod Transitions
pub mod Events
pub mod Housekeeping
pub mod Trace
use moon_bot.Prelude.{
  ℕ, suc, ◌+◌, ◌-◌, String, Bool, true, false, not, ◌&&◌, Option, none, some, List, [], ◌∷◌, ◌++◌,
  ltb, filter, length, ◌==◌, if◌then◌else◌,
}
use moon_bot.JsMap
use moon_bot.JsMap.{JsMap, retain, values}
use moon_bot.Task.{
  TaskState, pending, running, paused, done, failed, aborted, state_eq, is_terminal, TaskError,
  ChatMessage, Task, TaskEvent,
}

pub record Registry : Type 0 where
  pub tasks : JsMap Task
  pub events : List TaskEvent

abbrev pub empty : Registry
empty = record { tasks = []; events = [] }

unfoldable pub emit_event : TaskEvent → Registry → Registry
emit_event e r = record r { events = r.events ++ e ∷ [] }

abbrev pub new_task : String → ChatMessage → String → ℕ → Task
new_task id message channel_session_id now = record {
  id = id;
  state = pending;
  channel_session_id = channel_session_id;
  message = message;
  created_at = now;
  updated_at = now;
  result = none;
  error = none;
}

unfoldable pub create : String → ChatMessage → String → ℕ → Registry → Registry
unfolding emit_event
create id message channel_session_id now r =
    emit_event
      (record { task_id = id; previous_state = none; new_state = pending; timestamp = now })
      (record r { tasks = JsMap.set id (new_task id message channel_session_id now) r.tasks })

unfoldable pub get : String → Registry → Option Task
get id r = JsMap.get id r.tasks

unfoldable pub valid_transitions : TaskState → List TaskState
valid_transitions pending = running ∷ failed ∷ aborted ∷ []
valid_transitions running = done ∷ failed ∷ paused ∷ aborted ∷ []
valid_transitions paused = running ∷ aborted ∷ []
valid_transitions _ = []

unfoldable pub includes : List TaskState → TaskState → Bool
includes [] s = false
includes (x ∷ xs) s = if state_eq x s then true else includes xs s

unfoldable pub is_valid_transition : TaskState → TaskState → Bool
unfolding valid_transitions includes
is_valid_transition from to = includes (valid_transitions from) to

-- `if (result) task.result = result`: the empty text is falsy.
unfoldable pub with_result : Option String → Task → Task
with_result none t = t
with_result (some text) t = if text == "" then t else record t { result = some text }

unfoldable pub with_error : Option TaskError → Task → Task
with_error none t = t
with_error (some e) t = record t { error = some e }

unfoldable pub updated : TaskState → Option String → Option TaskError → ℕ → Task → Task
unfolding with_result with_error
updated new result error now t =
    with_error error (with_result result (record t { state = new; updated_at = now }))

-- The new registry and the result.
update_task :
    Option Task
    → String
    → TaskState
    → Option String
    → Option TaskError
    → ℕ
    → Registry
    → Registry × Bool
update_task none id new result error now r = (r, false)
update_task (some t) id new result error now r =
    if is_valid_transition t.state new
    then (
      emit_event
          (record { task_id = id; previous_state = some t.state; new_state = new; timestamp = now })
          (record r { tasks = JsMap.set id (updated new result error now t) r.tasks }),
      true,
    )
    else (r, false)

unfoldable pub update_state :
    String → TaskState → Option String → Option TaskError → ℕ → Registry → Registry × Bool
unfolding update_task emit_event get
update_state id new result error now r = update_task (get id r) id new result error now r

unfoldable pub get_by_channel_session : String → Registry → List Task
get_by_channel_session c r = filter (λ t. t.channel_session_id == c) (values r.tasks)

unfoldable pub get_by_state : TaskState → Registry → List Task
get_by_state s r = filter (λ t. state_eq t.state s) (values r.tasks)

-- `updatedAt < Date.now() - olderThanMs`, with the subtraction moved to the other side.
abbrev pub is_stale : ℕ → ℕ → Task → Bool
is_stale older_than now t = is_terminal t.state && ltb (t.updated_at + older_than) now

unfoldable pub cleanup : ℕ → ℕ → Registry → Registry × ℕ
cleanup older_than now r =
    let rest = retain (λ _ t. not (is_stale older_than now t)) r.tasks in
    (record r { tasks = rest }, length r.tasks - length rest)

pub record Stats : Type 0 where
  pub total : ℕ
  pub by_state : TaskState → ℕ

abbrev bump : TaskState → (TaskState → ℕ) → TaskState → ℕ
bump s count s' = if state_eq s s' then count s' + 1 else count s'

unfoldable pub count_states : List Task → (TaskState → ℕ) → TaskState → ℕ
count_states [] count = count
count_states (t ∷ ts) count = count_states ts (bump t.state count)

unfoldable pub get_stats : Registry → Stats
unfolding count_states
get_stats r = record { total = length r.tasks; by_state = count_states (values r.tasks) (λ _. 0) }
