-- ===== src/Task.antt =====
-- The task entity and its events: src/types/index.ts. A message's `metadata` is carried along and
-- never read, so it is left out.
use moon_bot.Prelude.{ℕ, String, Bool, true, false, Option, ◌||◌}

pub data TaskState : Type 0 where
  pending running paused done failed aborted : TaskState

abbrev pub state_eq : TaskState → TaskState → Bool
state_eq pending pending = true
state_eq running running = true
state_eq paused paused = true
state_eq done done = true
state_eq failed failed = true
state_eq aborted aborted = true
state_eq _ _ = false

pub record TaskError : Type 0 where
  pub code : String
  pub user_message : String
  pub internal_message : Option String
  pub stack : Option String

pub record ChatMessage : Type 0 where
  pub agent_id : String
  pub text : String
  pub user_id : String
  pub channel_id : String

pub record Task : Type 0 where
  pub id : String
  pub state : TaskState
  pub channel_session_id : String
  pub message : ChatMessage
  pub created_at : ℕ
  pub updated_at : ℕ
  pub result : Option String
  pub error : Option TaskError

pub record TaskEvent : Type 0 where
  pub task_id : String
  pub previous_state : Option TaskState
  pub new_state : TaskState
  pub timestamp : ℕ

-- `state === "DONE" || state === "FAILED" || state === "ABORTED"`.
abbrev pub is_terminal : TaskState → Bool
is_terminal s = state_eq s done || state_eq s failed || state_eq s aborted

pub data MessageType : Type 0 where
  user assistant thought tool result error : MessageType

pub record SessionMessage : Type 0 where
  pub type : MessageType
  pub content : String
  pub timestamp : ℕ
