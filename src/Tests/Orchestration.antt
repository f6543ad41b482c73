-- ===== src/Tests/Orchestration.antt =====
-- The orchestrator on concrete runs.
use mathlib.Core.Option
use moon_bot.Prelude.{ℕ, String, ◌≡◌, refl, true, false, none, some, [], ◌∷◌, arith, eq_iff}
use moon_bot.JsMap
use moon_bot.Task.{TaskState, pending, running, paused, failed, aborted, ChatMessage, Task}
use moon_bot.Registry
use moon_bot.Registry.Events.{IsConsistent, IsSettled, observe}
use moon_bot.ChannelQueue
use moon_bot.ChannelQueue.{items, tail, is_processing}
use moon_bot.SessionMapper
use moon_bot.Orchestrator.State.{
  Orchestrator, Config, Execution, PendingApproval, init, update_state, leave_channel,
  send_response, cleanup_session_mappings,
}
use moon_bot.Orchestrator.Channel.{
  finish, settle, execute_task, begin, start_next, release, handle_task_error, returned, time_out,
  process_channel, drop,
}
use moon_bot.Orchestrator.Approvals.{
  handle_approval_requested, handle_approval_resolved, resolve_task, resume_approved_task,
  abort_denied_task,
}
use moon_bot.Orchestrator.Tasks.{create_task, abort_task, is_waiting, Step, Reach}
use moon_bot.Orchestrator.Lifecycle.{Reach-IsConsistent, Reach-IsSettled, IsConsistent-init}
use moon_bot.Orchestrator.Sequential.{Undenied, Undenied-IsSerial, Serial-init}
use moon_bot.Orchestrator.Serial.{IsSerial}
use moon_bot.Orchestrator.Abort.{abort_task_effect}
use moon_bot.Orchestrator.Creation.{state_of, create_task_full}
use moon_bot.Orchestrator.Denial.{denial_loses_next}

abbrev hello : ChatMessage
hello = record { agent_id = "main"; text = "hello"; user_id = "u"; channel_id = "discord" }

abbrev config : Config
config = record {
  task_timeout_ms = 600000;
  max_queue_size_per_channel = 2;
  pending_ttl_ms = 3600000;
  has_tool_runtime = true;
  timeout_message = "Task exceeded 600000ms timeout";
  session_of = λ id c. some "s1";
}

abbrev start : Orchestrator
start = init config

-- Two tasks of one channel session: the first runs, the second waits.
abbrev one : Orchestrator
one = (create_task "t1" hello "c" 1 start).0

abbrev two : Orchestrator
two = (create_task "t2" hello "c" 2 one).0

-- What a run computes with.
everything : Unit {0}
unfolding create_task process_channel execute_task begin start_next update_state leave_channel
    finish settle release drop send_response handle_task_error abort_task time_out
    cleanup_session_mappings handle_approval_requested handle_approval_resolved resolve_task
    resume_approved_task abort_denied_task is_waiting JsMap.get JsMap.set JsMap.has JsMap.delete
    JsMap.retain Registry.create Registry.get Registry.update_state Registry.updated
    Registry.is_valid_transition observe ChannelQueue.enqueue ChannelQueue.dequeue ChannelQueue.peek
    ChannelQueue.start_processing ChannelQueue.stop_processing ChannelQueue.is_processing
    SessionMapper.set SessionMapper.get SessionMapper.cleanup_by_task_id
everything = tt

two_queue : items "c" two.queue ≡ "t1" ∷ "t2" ∷ []
unfolding everything
two_queue = refl

abbrev t1_run : Execution
t1_run = record { task_id = "t1"; channel_session_id = "c"; channel_id = "discord" }

-- The first asks for an approval, and is PAUSED.
abbrev asked : Orchestrator
asked = handle_approval_requested "r1" "s1" "system.run" 3 two

task : String → TaskState → ℕ → ℕ → Task
task id s made now = record {
  id = id;
  state = s;
  channel_session_id = "c";
  message = hello;
  created_at = made;
  updated_at = now;
  result = none;
  error = none;
}

asked_task : Registry.get "t1" asked.registry ≡ some (task "t1" paused 1 3)
unfolding everything task
asked_task = refl

abbrev wanted : PendingApproval
wanted = record { task_id = "t1"; channel_id = "discord"; tool_id = "system.run"; requested_at = 3 }

to_two : Reach start two
to_two =
    Reach.next (Reach.next Reach.here (Step.creates "t1" hello "c" 1 (unfold everything in refl)))
      (Step.creates "t2" hello "c" 2 (unfold everything in refl))

Reach-IsConsistent_example : IsConsistent two.registry
Reach-IsConsistent_example = Reach-IsConsistent (IsConsistent-init config) to_two

abbrev stopped : Orchestrator
stopped = (abort_task "t1" 4 two).0

to_stopped : Reach start stopped
to_stopped = Reach.next to_two (Step.aborts "t1" 4)

stopped_IsSettled : IsSettled "t1" aborted stopped.registry
unfolding everything
stopped_IsSettled = record { shown = refl; final = refl }

-- The aborted task's execution still returns.
after_stop : Reach stopped (finish t1_run (returned "late" none) 5 stopped)
after_stop =
    Reach.next Reach.here
      (Step.finishes t1_run (returned "late" none) 5 (unfold everything in refl))

Reach-IsSettled_example :
    IsSettled "t1" aborted (finish t1_run (returned "late" none) 5 stopped).registry
Reach-IsSettled_example =
    Reach-IsSettled "t1" aborted (Reach-IsConsistent (IsConsistent-init config) to_stopped)
      stopped_IsSettled after_stop

undenied_two : Undenied start two
undenied_two =
    Undenied.next
      (Undenied.next Undenied.here (Step.creates "t1" hello "c" 1 (unfold everything in refl)) refl)
      (Step.creates "t2" hello "c" 2 (unfold everything in refl)) refl

Undenied-IsSerial_example : IsSerial two.queue two.in_flight
Undenied-IsSerial_example =
    Undenied-IsSerial (IsConsistent-init config) (Serial-init config) undenied_two

running_task : Registry.get "t1" two.registry ≡ some (task "t1" running 1 1)
unfolding everything task
running_task = refl

stopped_task :
    Option.map (λ (t : Task). t.state) (Registry.get "t1" stopped.registry) ≡ some aborted
unfolding everything
stopped_task = refl

waiting_task : Registry.get "t2" asked.registry ≡ some (task "t2" pending 2 2)
unfolding everything task
waiting_task = refl

-- The waiting task is aborted, and stays in the queue.
abort_task_effect_example : (abort_task "t2" 4 asked).0.queue ≡ asked.queue
abort_task_effect_example = (abort_task_effect "t2" 4 asked (task "t2" pending 2 2) waiting_task).2

create_task_full_example : state_of "t3" (create_task "t3" hello "c" 3 two).0 ≡ some failed
unfolding everything
create_task_full_example = (create_task_full "t3" hello "c" 3 two (omega arith)).1

pending_request : JsMap.get "r1" asked.pending_approvals ≡ some wanted
unfolding everything
pending_request = refl

asked_queue : items "c" asked.queue ≡ "t1" ∷ "t2" ∷ []
unfolding everything
asked_queue = refl

denial_loses_next_example :
    items "c"
      (finish t1_run (returned "denied" none) 5 (handle_approval_resolved "r1" false 4 asked)).queue
    ≡ []
unfolding task
denial_loses_next_example =
    (denial_loses_next "r1" "t2" wanted t1_run (returned "denied" none) 4 5 asked
      (task "t1" paused 1 3) (task "t2" pending 2 2) pending_request asked_task refl refl
      asked_queue waiting_task (λ e. ground (arith, eq_iff "t1" "t2", e)) refl refl).0
