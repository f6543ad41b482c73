-- ===== src/Orchestrator/Channel.antt =====
-- TaskOrchestrator: processChannel, executeTask up to its await and after it, handleTaskError.
use moon_bot.Prelude.{
  concat, ℕ, ◌+◌, String, Bool, true, false, Option, none, some, List, [], ◌∷◌, ◌&&◌, ◌==◌,
  if◌then◌else◌,
}
use moon_bot.JsMap
use moon_bot.Task.{
  running, done, failed, Task, TaskError, SessionMessage, MessageType, assistant, result,
}
use moon_bot.Registry
use moon_bot.ChannelQueue
use moon_bot.SessionMapper
use moon_bot.Orchestrator.State.{
  Orchestrator, Config, Timer, Status, TaskResponse, Execution, of_state, send_response,
  update_state, cleanup_session_mappings, leave_channel,
}

-- `sessionTaskMapper.set(session.id, task.id)`.
abbrev pub map_session : Option String → String → ℕ → Orchestrator → Orchestrator
map_session none id now o = o
map_session (some s) id now o = record o { mapper = SessionMapper.set s id now o.mapper }

abbrev pub execution : Task → String → Execution
execution t c = record { task_id = t.id; channel_session_id = c; channel_id = t.message.channel_id }

-- The part of `executeTask` before the executor is awaited, the session of `executeTaskLogic`
-- included. The result of the transition to RUNNING is not read.
unfoldable pub begin : Option Task → String → String → ℕ → Orchestrator → Orchestrator
begin none id c now o = leave_channel c o
begin (some t) id c now o =
    let o₁ = update_state id running none none now o in
    map_session (o.config.session_of t.id t.channel_session_id) t.id now (record o₁ {
      processing_timers =
          JsMap.set id (record { deadline = now + o.config.task_timeout_ms; fired = false })
            o.processing_timers;
      in_flight = execution t c ∷ o.in_flight;
    })

unfoldable pub execute_task : String → String → ℕ → Orchestrator → Orchestrator
unfolding begin
execute_task id c now o = begin (Registry.get id o.registry) id c now o

unfoldable pub start_next : Option String → String → ℕ → Orchestrator → Orchestrator
start_next none c now o = o
start_next (some id) c now o =
    execute_task id c now (record o { queue = ChannelQueue.start_processing c o.queue })

-- A queued id is never the empty text, which the source tests for too.
unfoldable pub process_channel : String → ℕ → Orchestrator → Orchestrator
unfolding start_next
process_channel c now o =
    if ChannelQueue.is_processing c o.queue
    then o
    else start_next (ChannelQueue.peek c o.queue) c now o

unfoldable pub fail : Option Task → String → TaskError → ℕ → Orchestrator → Orchestrator
fail none id e now o = o
fail (some t) id e now o =
    send_response
      (record {
        task_id = id;
        channel_id = t.message.channel_id;
        text = e.user_message;
        status = Status.failed;
        metadata = record (of_state failed) { error_code = some e.code };
      })
      (update_state id failed none (some e) now o)

unfoldable pub handle_task_error : String → TaskError → ℕ → Orchestrator → Orchestrator
unfolding fail
handle_task_error id e now o = fail (Registry.get id o.registry) id e now o

-- How the executor's promise settles: with a text and the session, or by throwing.
pub data Outcome : Type 0 where
  returned : String → Option String → Outcome
  threw : String → Option String → Outcome

abbrev pub execution_error : String → Option String → TaskError
execution_error message stack = record {
  code = "EXECUTION_ERROR";
  user_message = "요청 처리 중 오류가 발생했습니다.";
  internal_message = some message;
  stack = stack;
}

abbrev pub completed_response : Execution → String → TaskResponse
completed_response x text = record {
  task_id = x.task_id;
  channel_id = x.channel_id;
  text = text;
  status = Status.completed;
  metadata = of_state done;
}

abbrev pub clear_timer : String → Orchestrator → Orchestrator
clear_timer id o = record o { processing_timers = JsMap.delete id o.processing_timers }

-- The `try` and `catch` parts after the await.
unfoldable pub settle : Execution → Outcome → ℕ → Orchestrator → Orchestrator
settle x (returned text session) now o = send_response (completed_response x text) (
    update_state x.task_id done (some text) none now
      (clear_timer x.task_id (map_session session x.task_id now o)))
settle x (threw message stack) now o =
    handle_task_error x.task_id (execution_error message stack) now (clear_timer x.task_id o)

-- The `finally` part.
unfoldable pub release : Execution → ℕ → Orchestrator → Orchestrator
release x now o =
    process_channel x.channel_session_id now
      (leave_channel x.channel_session_id (cleanup_session_mappings x.task_id o))

abbrev pub is_execution : Execution → Execution → Bool
is_execution x y = x.task_id == y.task_id && x.channel_session_id == y.channel_session_id

-- The continuation leaves the list of those that wait.
unfoldable pub drop : Execution → List Execution → List Execution
drop x [] = []
drop x (y ∷ ys) = if is_execution x y then ys else y ∷ drop x ys

unfoldable pub finish : Execution → Outcome → ℕ → Orchestrator → Orchestrator
finish x outcome now o =
    release x now (settle x outcome now (record o { in_flight = drop x o.in_flight }))

abbrev pub timeout_error : Config → TaskError
timeout_error config = record {
  code = "TIMEOUT";
  user_message = "요청 시간이 초과되었습니다. 다시 시도해주세요.";
  internal_message = some config.timeout_message;
  stack = none;
}

-- A timer fires once, and stays in the map until the execution settles.
abbrev pub fire : Option Timer → String → Orchestrator → Orchestrator
fire none id o = o
fire (some t) id o = record o {
  processing_timers = JsMap.set id (record t { fired = true }) o.processing_timers;
}

unfoldable pub time_out : String → ℕ → Orchestrator → Orchestrator
time_out id now o =
    handle_task_error id (timeout_error o.config) now (fire (JsMap.get id o.processing_timers) id o)

pub record ExecutionResult : Type 0 where
  pub success : Bool
  pub messages : List SessionMessage
  pub errors : List String

abbrev is_summary : MessageType → Bool
is_summary assistant = true
is_summary result = true
is_summary _ = false

unfoldable pub summary : List SessionMessage → String
summary [] = "작업이 완료되었습니다."
summary (m ∷ ms) = if is_summary m.type then m.content else summary ms

-- `errors.join("; ")`.
unfoldable pub join : List String → String
join [] = ""
join (x ∷ xs) = elim xs [ [] ↦ x | _ ∷ _ ↦ concat x (concat "; " (join xs)) ]

abbrev or_unknown : String → String
or_unknown s = if s == "" then "알 수 없는 오류" else s

-- The end of `executeTaskLogic`: a failed execution returns too.
unfoldable pub outcome_of : ExecutionResult → String → Outcome
unfolding summary join
outcome_of r session =
    if r.success
    then returned (summary r.messages) (some session)
    else returned (concat "실패: " (or_unknown (join r.errors))) (some session)
