-- ===== src/Orchestrator/Settling.antt =====
-- How an execution ends: `executeTask` after its await, and `handleTaskError`, for a task in any
-- state. The transitions are tested by the registry, the responses are not.
use moon_bot.Prelude.{
  ℕ, String, ◌≡◌, refl, ap, ◌∙◌, Option, none, some, List, [], ◌∷◌, ◌++◌, arith, Bool-cases,
  if◌then◌else◌, inl, inr,
}
use moon_bot.JsMap
use moon_bot.Task.{TaskState, pending, running, done, failed, state_eq, Task, TaskError}
use moon_bot.Registry
use moon_bot.Registry.{Registry, updated, is_valid_transition}
use moon_bot.Registry.Transitions.{get-update_state_self, update_state_invalid, state-updated}
use moon_bot.Orchestrator.State.{
  Orchestrator, Timer, Execution, Status, TaskResponse, response, of_state, update_state,
  send_response,
}
use moon_bot.Orchestrator.Channel.{
  settle, returned, handle_task_error, completed_response, time_out, fire, timeout_error,
  map_session, clear_timer,
}
use moon_bot.Orchestrator.Creation.{state_of}

-- The state that a refused or accepted transition leaves behind.
pub state_of-update_state :
    (id : String) (new : TaskState) (result : Option String) (error : Option TaskError) (now : ℕ)
    (o : Orchestrator) (t : Task)
    → Registry.get id o.registry ≡ some t
    → state_of id (update_state id new result error now o)
      ≡ some (if is_valid_transition t.state new then new else t.state)
unfolding update_state
state_of-update_state id new result error now o t e =
    elim (Bool-cases (is_valid_transition t.state new)) [
      | inl v ↦
          rw (get-update_state_self id new result error now o.registry t e v, v)
            (ap some (state-updated new result error now t))
      | inr v ↦ rw (update_state_invalid id new result error now o.registry t e v, v) (rw e refl)
    ]

abbrev pub if_state : TaskState → List TaskState → TaskState → TaskState
if_state s [] new = s
if_state s (x ∷ xs) new = let rest = if_state s xs new in if state_eq s x then new else rest

abbrev pub failed_response : Task → String → TaskError → TaskResponse
failed_response t id e = record {
  task_id = id;
  channel_id = t.message.channel_id;
  text = e.user_message;
  status = Status.failed;
  metadata = record (of_state failed) { error_code = some e.code };
}

-- `handleTaskError` of a known task: the channel is always told that the task failed, while the task
-- becomes FAILED only if it was PENDING or RUNNING, and otherwise stays in its state.
pub handle_task_error_effect :
    (id : String) (e : TaskError) (now : ℕ) (o : Orchestrator) (t : Task)
    → Registry.get id o.registry ≡ some t
    → (state_of id (handle_task_error id e now o)
        ≡ some (if_state t.state (pending ∷ running ∷ []) failed))
      × ((handle_task_error id e now o).outputs
          ≡ o.outputs ++ response (failed_response t id e) ∷ [])
unfolding handle_task_error send_response
handle_task_error_effect id e now o t h = rw h (
  state_of-update_state id failed none (some e) now o t h
      ∙ (unfold is_valid_transition in ground arith),
  unfold update_state in refl,
)

-- When the timer of a known task fires, exactly one response is sent, with status failed and code
-- TIMEOUT, whatever the state of the task; the task becomes FAILED if it was PENDING or RUNNING and
-- otherwise, PAUSED included, keeps its state.
pub time_out_effect :
    (id : String) (now : ℕ) (o : Orchestrator) (t : Task)
    → Registry.get id o.registry ≡ some t
    → (state_of id (time_out id now o) ≡ some (if_state t.state (pending ∷ running ∷ []) failed))
      × ((time_out id now o).outputs
          ≡ o.outputs ++ response (failed_response t id (timeout_error o.config)) ∷ [])
unfolding time_out
time_out_effect id now o t h = go (JsMap.get id o.processing_timers)
  where
    go :
        (x : Option Timer)
        → (state_of id (handle_task_error id (timeout_error o.config) now (fire x id o))
            ≡ some (if_state t.state (pending ∷ running ∷ []) failed))
          × ((handle_task_error id (timeout_error o.config) now (fire x id o)).outputs
              ≡ o.outputs ++ response (failed_response t id (timeout_error o.config)) ∷ [])
    go none = handle_task_error_effect id (timeout_error o.config) now o t h
    go (some x) = handle_task_error_effect id (timeout_error o.config) now (fire (some x) id o) t h

-- When the executor returns for a known task, exactly one response is sent, with status completed,
-- whatever the state of the task; the task becomes DONE if it was RUNNING and otherwise keeps its
-- state.
pub settle_returned_effect :
    (x : Execution) (text : String) (session : Option String) (now : ℕ) (o : Orchestrator)
    (t : Task)
    → Registry.get x.task_id o.registry ≡ some t
    → (state_of x.task_id (settle x (returned text session) now o)
        ≡ some (if_state t.state (running ∷ []) done))
      × ((settle x (returned text session) now o).outputs
          ≡ o.outputs ++ response (completed_response x text) ∷ [])
unfolding settle send_response
settle_returned_effect x text session now o t h = go session
  where
    go :
        (s : Option String)
        → (state_of x.task_id (
              update_state x.task_id done
                (some text)
                none
                now
                (clear_timer x.task_id (map_session s x.task_id now o)))
            ≡ some (if_state t.state (running ∷ []) done))
          × ((settle x (returned text s) now o).outputs
              ≡ o.outputs ++ response (completed_response x text) ∷ [])
    go none = (
      state_of-update_state x.task_id done (some text) none now (clear_timer x.task_id o) t h
          ∙ (unfold is_valid_transition in ground arith),
      unfold update_state in refl,
    )
    go (some s) = (
      state_of-update_state x.task_id done (some text) none now
            (clear_timer x.task_id (map_session (some s) x.task_id now o)) t h
          ∙ (unfold is_valid_transition in ground arith),
      unfold update_state in refl,
    )
