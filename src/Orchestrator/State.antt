-- ===== src/Orchestrator/State.antt =====
-- The state of TaskOrchestrator and of its coordinator, and what they send out.
use moon_bot.Prelude.{ℕ, String, Bool, Option, none, List, [], ◌∷◌, ◌++◌}
use moon_bot.JsMap.{JsMap}
use moon_bot.Task.{TaskState, TaskError}
use moon_bot.Registry
use moon_bot.Registry.{Registry}
use moon_bot.ChannelQueue
use moon_bot.ChannelQueue.{ChannelQueue}
use moon_bot.SessionMapper
use moon_bot.SessionMapper.{SessionMapper}

pub data Status : Type 0 where
  completed failed pending : Status

-- The `metadata` of a response.
pub record Metadata : Type 0 where
  pub state : TaskState
  pub error_code : Option String
  pub approval_request_id : Option String
  pub tool_id : Option String

pub record TaskResponse : Type 0 where
  pub task_id : String
  pub channel_id : String
  pub text : String
  pub status : Status
  pub metadata : Metadata

pub record PendingApproval : Type 0 where
  pub task_id : String
  pub channel_id : String
  pub tool_id : String
  pub requested_at : ℕ

-- Calls of the registered callbacks, and events emitted on the tool runtime.
pub data Output : Type 0 where
  response : TaskResponse → Output
  approval_request : PendingApproval → String → Output
  approval_resolved : String → String → Bool → String → Output
  approval_cancelled : String → Output

-- An `executeTask` that awaits the executor: the task, its channel session, and the channel to
-- which it answers.
pub record Execution : Type 0 where
  pub task_id : String
  pub channel_session_id : String
  pub channel_id : String

pub record Timer : Type 0 where
  pub deadline : ℕ
  pub fired : Bool

-- `session_of` is the session that the session manager gives a task of a channel session, by the id of
-- the task; `none` where no executor or no session manager is configured. `timeout_message` is the internal
-- text of a timeout, with `task_timeout_ms` in it.
pub record Config : Type 0 where
  pub task_timeout_ms : ℕ
  pub max_queue_size_per_channel : ℕ
  pub pending_ttl_ms : ℕ
  pub has_tool_runtime : Bool
  pub timeout_message : String
  pub session_of : String → String → Option String

pub record Orchestrator : Type 0 where
  pub config : Config
  pub registry : Registry
  pub queue : ChannelQueue
  pub mapper : SessionMapper
  pub pending_approvals : JsMap PendingApproval
  pub processing_timers : JsMap Timer
  pub in_flight : List Execution
  pub outputs : List Output

abbrev pub init : Config → Orchestrator
init config = record {
  config = config;
  registry = Registry.empty;
  queue = ChannelQueue.new config.max_queue_size_per_channel;
  mapper = SessionMapper.new SessionMapper.default_ttl_ms;
  pending_approvals = [];
  processing_timers = [];
  in_flight = [];
  outputs = [];
}

abbrev pub send : Output → Orchestrator → Orchestrator
send out o = record o { outputs = o.outputs ++ out ∷ [] }

abbrev pub of_state : TaskState → Metadata
of_state s = record { state = s; error_code = none; approval_request_id = none; tool_id = none }

unfoldable pub send_response : TaskResponse → Orchestrator → Orchestrator
send_response r o = send (response r) o

-- `registry.updateState`, whose result no caller reads.
unfoldable pub update_state :
    String → TaskState → Option String → Option TaskError → ℕ → Orchestrator → Orchestrator
update_state id new result error now o = record o {
  registry = (Registry.update_state id new result error now o.registry).0;
}

unfoldable pub cleanup_session_mappings : String → Orchestrator → Orchestrator
cleanup_session_mappings id o = record o {
  mapper = (SessionMapper.cleanup_by_task_id id o.mapper).0;
}

-- `queue.dequeue` and `queue.stopProcessing`, the result of the first unread.
unfoldable pub leave_channel : String → Orchestrator → Orchestrator
leave_channel c o = record o {
  queue = ChannelQueue.stop_processing c (ChannelQueue.dequeue c o.queue).0;
}
