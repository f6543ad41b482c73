-- ===== src/Orchestrator/Tasks.antt =====
-- TaskOrchestrator: createTask, abortTask, the other public calls, and the steps of the whole: one
-- for each call and for each event that the runtime may deliver.
use moon_bot.Prelude.{
  ℕ, ◌≤◌, String, ◌≡◌, Bool, true, false, Option, none, some, List, [], ◌∷◌, concat, ◌||◌,
  if◌then◌else◌,
}
use moon_bot.JsMap
use moon_bot.Task.{
  TaskState, pending, running, paused, failed, aborted, state_eq, ChatMessage, TaskError, Task,
}
use moon_bot.Registry
use moon_bot.Registry.Events.{IsFresh}
use moon_bot.ChannelQueue
use moon_bot.SessionMapper
use moon_bot.Orchestrator.State.{
  Orchestrator, Execution, Timer, Status, of_state, send_response, update_state,
  cleanup_session_mappings, leave_channel,
}
use moon_bot.Orchestrator.Channel.{
  Outcome, process_channel, clear_timer, finish, time_out, is_execution,
}
use moon_bot.Orchestrator.Approvals.{
  handle_approval_requested, handle_approval_resolved, grant_approval, cancel_task_approvals,
  cleanup_stale_approvals,
}

abbrev pub queue_full : String → TaskError
queue_full c = record {
  code = "QUEUE_FULL";
  user_message = "대기열이 가득 찼습니다. 잠시 후 다시 시도해주세요.";
  internal_message = some (concat "Channel " (concat c " queue is full"));
  stack = none;
}

abbrev pub state_of : Option Task → TaskState
state_of none = pending
state_of (some t) = t.state

unfoldable pub enqueued :
    Bool → String → String → ℕ → Orchestrator → Orchestrator × Option (String × TaskState)
enqueued false id c now o = (update_state id failed none (some (queue_full c)) now o, none)
enqueued true id c now o =
    let o' = process_channel c now o in (o', some (id, state_of (Registry.get id o'.registry)))

-- The result is `none` where the source throws "Queue full for channel".
unfoldable pub create_task :
    String → ChatMessage → String → ℕ → Orchestrator → Orchestrator × Option (String × TaskState)
unfolding enqueued
create_task id message c now o =
    let registry = Registry.create id message c now o.registry in
    let (queue, accepted) = ChannelQueue.enqueue c id o.queue in
    enqueued accepted id c now (record o { registry = registry; queue = queue })

abbrev pub abort_error : TaskError
abort_error = record {
  code = "ABORTED";
  user_message = "작업이 중단되었습니다.";
  internal_message = some "Task aborted by user request";
  stack = none;
}

-- "If pending, remove from queue."
unfoldable pub abort_pending : Task → Orchestrator → Orchestrator
abort_pending t o =
    if state_eq t.state pending
    then record o { queue = (ChannelQueue.remove t.channel_session_id t.id o.queue).0 }
    else o

-- "If running or paused, stop processing and clean up approvals."
unfoldable pub abort_active : Task → ℕ → Orchestrator → Orchestrator
abort_active t now o =
    if state_eq t.state running || state_eq t.state paused
    then process_channel t.channel_session_id now
        (cancel_task_approvals t.id (leave_channel t.channel_session_id o))
    else o

unfoldable pub abort_rest : Option Task → ℕ → Orchestrator → Orchestrator
unfolding abort_pending abort_active
abort_rest none now o = o
abort_rest (some t) now o =
    send_response
      (record {
        task_id = t.id;
        channel_id = t.message.channel_id;
        text = "작업이 중단되었습니다.";
        status = Status.failed;
        metadata = of_state aborted;
      })
      (cleanup_session_mappings t.id (abort_active t now (abort_pending t o)))

-- `updateState` writes to the very object that `task` names, so the two tests below it read the new
-- state: the task is read from the registry again.
unfoldable pub abort : Option Task → String → ℕ → Orchestrator → Orchestrator × Bool
unfolding abort_rest
abort none id now o = (o, false)
abort (some t) id now o =
    if state_eq t.state pending || (state_eq t.state running || state_eq t.state paused)
    then (
      let o' = clear_timer id (update_state id aborted none (some abort_error) now o) in
          abort_rest (Registry.get id o'.registry) now o',
      true,
    )
    else (o, false)

unfoldable pub abort_task : String → ℕ → Orchestrator → Orchestrator × Bool
unfolding abort
abort_task id now o = abort (Registry.get id o.registry) id now o

unfoldable pub get_task : String → Orchestrator → Option Task
get_task id o = Registry.get id o.registry

unfoldable pub cleanup : ℕ → ℕ → Orchestrator → Orchestrator × ℕ
cleanup older_than now o =
    let (registry, n) = Registry.cleanup older_than now o.registry in
    (record o { registry = registry }, n)

unfoldable pub shutdown : Orchestrator → Orchestrator
shutdown o = record o {
  processing_timers = [];
  mapper = SessionMapper.shutdown o.mapper;
  pending_approvals = [];
}

unfoldable pub is_waiting : Execution → List Execution → Bool
is_waiting x [] = false
is_waiting x (y ∷ ys) = is_execution x y || is_waiting x ys

-- One step of the whole. An id is fresh when it is made; an execution settles once; a timer fires
-- once, not before its time.
pub data Step (o : Orchestrator) : Orchestrator → Type 0 where
  creates :
      (id : String) (message : ChatMessage) (c : String) (now : ℕ)
      → IsFresh id o.registry
      → Step o (create_task id message c now o).0
  finishes :
      (x : Execution) (outcome : Outcome) (now : ℕ)
      → is_waiting x o.in_flight ≡ true
      → Step o (finish x outcome now o)
  times_out :
      (id : String) (t : Timer) (now : ℕ)
      → JsMap.get id o.processing_timers ≡ some t
      → t.fired ≡ false
      → t.deadline ≤ now
      → Step o (time_out id now o)
  requests :
      (request session tool : String) (now : ℕ)
      → Step o (handle_approval_requested request session tool now o)
  resolves :
      (request : String) (approved : Bool) (now : ℕ)
      → Step o (handle_approval_resolved request approved now o)
  grants : (id : String) (approved : Bool) (now : ℕ) → Step o (grant_approval id approved now o).0
  aborts : (id : String) (now : ℕ) → Step o (abort_task id now o).0
  cleans : (older_than now : ℕ) → Step o (cleanup older_than now o).0
  sweeps_approvals : (now : ℕ) → Step o (cleanup_stale_approvals now o)
  sweeps_sessions :
      (now : ℕ) → Step o (record o { mapper = (SessionMapper.auto_cleanup now o.mapper).0 })
  shuts_down : Step o (shutdown o)

pub data Reach (o : Orchestrator) : Orchestrator → Type 0 where
  here : Reach o o
  next : {p q : Orchestrator} → Reach o p → Step p q → Reach o q
