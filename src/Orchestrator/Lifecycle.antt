-- ===== src/Orchestrator/Lifecycle.antt =====
-- TaskOrchestrator: what its steps do to the registry, by way of the registry's operations.
use moon_bot.Prelude.{
  ℕ, ◌||◌, String, Bool, true, false, Option, none, some, [], ◌∷◌, if◌then◌else◌,
}
use moon_bot.JsMap
use moon_bot.JsMap.{JsMap}
use moon_bot.Task.{TaskState, state_eq, running, paused, TaskError, Task}
use moon_bot.Registry
use moon_bot.Registry.{Registry}
use moon_bot.Registry.Events.{IsConsistent, IsSettled}
use moon_bot.Registry.Trace.{
  Trace, start, creates, updates, cleans, Trace-IsConsistent, Trace-IsSettled,
}
use moon_bot.Orchestrator.State.{
  Orchestrator, Config, init, Execution, Timer, PendingApproval, send_response, update_state,
  cleanup_session_mappings, leave_channel,
}
use moon_bot.Orchestrator.Channel.{
  Outcome, returned, threw, map_session, begin, execute_task, start_next, process_channel, fail,
  handle_task_error, settle, release, finish, fire, time_out,
}
use moon_bot.Orchestrator.Approvals.{
  request_for, handle_approval_requested, handle_approval_resolved, resolve, resolve_task,
  resume_approved_task, abort_denied_task, forget_approval, grant, grant_request, grant_approval,
  cancellations, cancel_where, find_approval_request_id, cancel_task_approvals,
  cleanup_stale_approvals,
}
use moon_bot.Orchestrator.Tasks.{
  Step, Reach, here, next, create_task, cleanup, shutdown, enqueued, abort_task, abort, abort_rest,
  abort_active, abort_pending,
}

module _ (r : Registry) where
  abbrev pub Traced : Orchestrator → Type 0
  Traced o = Trace r o.registry

  pub update-Traced :
      (id : String) (new : TaskState) (result : Option String) (error : Option TaskError) (now : ℕ)
      (o : Orchestrator)
      → Traced o
      → Traced (update_state id new result error now o)
  unfolding update_state
  update-Traced id new result error now o h = updates id new result error now h

  map_session-Traced :
      (s : Option String) (id : String) (now : ℕ) (o : Orchestrator)
      → Traced o
      → Traced (map_session s id now o)
  map_session-Traced none id now o h = h
  map_session-Traced (some s) id now o h = h

  begin-Traced :
      (t : Option Task) (id c : String) (now : ℕ) (o : Orchestrator)
      → Traced o
      → Traced (begin t id c now o)
  unfolding begin leave_channel
  begin-Traced none id c now o h = h
  begin-Traced (some t) id c now o h =
      map_session-Traced (o.config.session_of t.id t.channel_session_id) t.id now _
        (update-Traced id _ none none now o h)

  execute_task-Traced :
      (id c : String) (now : ℕ) (o : Orchestrator) → Traced o → Traced (execute_task id c now o)
  unfolding execute_task
  execute_task-Traced id c now o h = begin-Traced (Registry.get id o.registry) id c now o h

  start_next-Traced :
      (x : Option String) (c : String) (now : ℕ) (o : Orchestrator)
      → Traced o
      → Traced (start_next x c now o)
  unfolding start_next
  start_next-Traced none c now o h = h
  start_next-Traced (some id) c now o h = execute_task-Traced id c now _ h

  choice-Traced :
      (b : Bool) (o p : Orchestrator) → Traced o → Traced p → Traced (if b then o else p)
  choice-Traced true o p h k = h
  choice-Traced false o p h k = k

  choice_pair-Traced :
      {A : Type 0} (b : Bool) (x y : Orchestrator × A)
      → Traced x.0
      → Traced y.0
      → Traced (if b then x else y).0
  choice_pair-Traced true x y h k = h
  choice_pair-Traced false x y h k = k

  process_channel-Traced :
      (c : String) (now : ℕ) (o : Orchestrator) → Traced o → Traced (process_channel c now o)
  unfolding process_channel
  process_channel-Traced c now o h = choice-Traced _ _ _ h (start_next-Traced _ c now o h)

  fail-Traced :
      (t : Option Task) (id : String) (e : TaskError) (now : ℕ) (o : Orchestrator)
      → Traced o
      → Traced (fail t id e now o)
  unfolding fail send_response
  fail-Traced none id e now o h = h
  fail-Traced (some t) id e now o h = update-Traced id _ none (some e) now o h

  pub settle-Traced :
      (x : Execution) (outcome : Outcome) (now : ℕ) (o : Orchestrator)
      → Traced o
      → Traced (settle x outcome now o)
  unfolding settle send_response handle_task_error
  settle-Traced x (returned text session) now o h =
      update-Traced x.task_id _ (some text) none now _
        (map_session-Traced session x.task_id now o h)
  settle-Traced x (threw message stack) now o h = fail-Traced _ x.task_id _ now _ h

  finish-Traced :
      (x : Execution) (outcome : Outcome) (now : ℕ) (o : Orchestrator)
      → Traced o
      → Traced (finish x outcome now o)
  unfolding finish release leave_channel cleanup_session_mappings
  finish-Traced x outcome now o h =
      process_channel-Traced x.channel_session_id now _ (settle-Traced x outcome now _ h)

  fire-Traced :
      (t : Option Timer) (id : String) (o : Orchestrator) → Traced o → Traced (fire t id o)
  fire-Traced none id o h = h
  fire-Traced (some t) id o h = h

  time_out-Traced :
      (id : String) (now : ℕ) (o : Orchestrator) → Traced o → Traced (time_out id now o)
  unfolding time_out handle_task_error
  time_out-Traced id now o h = fail-Traced _ id _ now _ (fire-Traced _ id o h)

  request_for-Traced :
      (t : Option Task) (request tool : String) (now : ℕ) (o : Orchestrator)
      → Traced o
      → Traced (request_for t request tool now o)
  unfolding handle_approval_requested send_response
  request_for-Traced none request tool now o h = h
  request_for-Traced (some t) request tool now o h = update-Traced t.id _ none none now _ h

  resolve_task-Traced :
      (t : Option Task) (p : PendingApproval) (request : String) (approved : Bool) (now : ℕ)
      (o : Orchestrator)
      → Traced o
      → Traced (resolve_task t p request approved now o)
  unfolding resolve_task resume_approved_task abort_denied_task send_response leave_channel
      cleanup_session_mappings
  resolve_task-Traced none p request approved now o h = h
  resolve_task-Traced (some t) p request true now o h =
      process_channel-Traced t.channel_session_id now _ (update-Traced t.id _ none none now o h)
  resolve_task-Traced (some t) p request false now o h = update-Traced t.id _ none _ now o h

  resolve-Traced :
      (p : Option PendingApproval) (request : String) (approved : Bool) (now : ℕ) (o : Orchestrator)
      → Traced o
      → Traced (resolve p request approved now o)
  unfolding resolve forget_approval
  resolve-Traced none request approved now o h = h
  resolve-Traced (some p) request approved now o h =
      resolve_task-Traced _ p request approved now _ h

  resolved-Traced :
      (request : String) (approved : Bool) (now : ℕ) (o : Orchestrator)
      → Traced o
      → Traced (handle_approval_resolved request approved now o)
  unfolding handle_approval_resolved
  resolved-Traced request approved now o h = resolve-Traced _ request approved now o h

  grant_request-Traced :
      (x : Option String) (approved : Bool) (now : ℕ) (o : Orchestrator)
      → Traced o
      → Traced (grant_request x approved now o).0
  unfolding grant_request
  grant_request-Traced none approved now o h = h
  grant_request-Traced (some request) approved now o h =
      choice-Traced _ _ _ (resolved-Traced request approved now o h) h

  grant-Traced :
      (t : Option Task) (id : String) (approved : Bool) (now : ℕ) (o : Orchestrator)
      → Traced o
      → Traced (grant t id approved now o).0
  unfolding grant
  grant-Traced none id approved now o h = h
  grant-Traced (some t) id approved now o h =
      choice_pair-Traced (state_eq t.state paused) _ _
        (grant_request-Traced (find_approval_request_id id o.pending_approvals) approved now o h) h

  cancellations-Traced :
      (gone : PendingApproval → Bool) (m : JsMap PendingApproval) (o : Orchestrator)
      → Traced o
      → Traced (cancellations gone m o)
  unfolding cancellations
  cancellations-Traced gone [] o h = h
  cancellations-Traced gone ((request, p) ∷ m) o h =
      cancellations-Traced gone m _ (choice-Traced _ _ _ h h)

  cancel_where-Traced :
      (gone : PendingApproval → Bool) (o : Orchestrator) → Traced o → Traced (cancel_where gone o)
  unfolding cancel_where
  cancel_where-Traced gone o h = cancellations-Traced gone o.pending_approvals o h

  cancel_task_approvals-Traced :
      (id : String) (o : Orchestrator) → Traced o → Traced (cancel_task_approvals id o)
  unfolding cancel_task_approvals
  cancel_task_approvals-Traced id o h = cancel_where-Traced _ o h

  leave_channel-Traced : (c : String) (o : Orchestrator) → Traced o → Traced (leave_channel c o)
  unfolding leave_channel
  leave_channel-Traced c o h = h

  abort_active-Traced :
      (t : Task) (now : ℕ) (o : Orchestrator) → Traced o → Traced (abort_active t now o)
  unfolding abort_active
  abort_active-Traced t now o h =
      let left = leave_channel t.channel_session_id o in
      let left-Traced = leave_channel-Traced t.channel_session_id o h in
      let quiet-Traced = cancel_task_approvals-Traced t.id left left-Traced in
      choice-Traced (state_eq t.state running || state_eq t.state paused) _ o
        (process_channel-Traced t.channel_session_id now (cancel_task_approvals t.id left)
          quiet-Traced)
        h

  abort_pending-Traced : (t : Task) (o : Orchestrator) → Traced o → Traced (abort_pending t o)
  unfolding abort_pending
  abort_pending-Traced t o h = choice-Traced _ _ _ h h

  abort_rest-Traced :
      (t : Option Task) (now : ℕ) (o : Orchestrator) → Traced o → Traced (abort_rest t now o)
  unfolding abort_rest send_response cleanup_session_mappings
  abort_rest-Traced none now o h = h
  abort_rest-Traced (some t) now o h =
      abort_active-Traced t now (abort_pending t o) (abort_pending-Traced t o h)

  abort-Traced :
      (t : Option Task) (id : String) (now : ℕ) (o : Orchestrator)
      → Traced o
      → Traced (abort t id now o).0
  unfolding abort
  abort-Traced none id now o h = h
  abort-Traced (some t) id now o h =
      choice_pair-Traced _ _ _ (abort_rest-Traced _ now _ (update-Traced id _ none _ now o h)) h

  enqueued-Traced :
      (accepted : Bool) (id c : String) (now : ℕ) (o : Orchestrator)
      → Traced o
      → Traced (enqueued accepted id c now o).0
  unfolding enqueued
  enqueued-Traced false id c now o h = update-Traced id _ none _ now o h
  enqueued-Traced true id c now o h = process_channel-Traced c now o h

pub Step-Trace : {o p : Orchestrator} → Step o p → Trace o.registry p.registry
unfolding create_task handle_approval_requested grant_approval abort_task cleanup
    cleanup_stale_approvals shutdown
Step-Trace {o} (Step.creates id message c now fresh) =
    enqueued-Traced o.registry _ id c now _ (creates id message c now start fresh)
Step-Trace {o} (Step.finishes x outcome now h) = finish-Traced o.registry x outcome now o start
Step-Trace {o} (Step.times_out id t now h f d) = time_out-Traced o.registry id now o start
Step-Trace {o} (Step.requests request session tool now) =
    request_for-Traced o.registry _ request tool now _ start
Step-Trace {o} (Step.resolves request approved now) =
    resolved-Traced o.registry request approved now o start
Step-Trace {o} (Step.grants id approved now) = grant-Traced o.registry _ id approved now o start
Step-Trace {o} (Step.aborts id now) = abort-Traced o.registry _ id now o start
Step-Trace {o} (Step.cleans older_than now) = cleans older_than now start
Step-Trace {o} (Step.sweeps_approvals now) = cancel_where-Traced o.registry _ o start
Step-Trace (Step.sweeps_sessions now) = start
Step-Trace Step.shuts_down = start

-- From a consistent registry, no sequence of orchestrator steps makes the registry and its
-- listeners disagree: keys are unique and name their tasks, a listener that follows the events
-- holds the present state of every task, and the events of each task walk the lifecycle.
pub Reach-IsConsistent :
    {o p : Orchestrator} → IsConsistent o.registry → Reach o p → IsConsistent p.registry
Reach-IsConsistent c here = c
Reach-IsConsistent c (next r s) = Trace-IsConsistent (Reach-IsConsistent c r) (Step-Trace s)

-- From a consistent registry, once the listeners have seen a task DONE, FAILED or ABORTED, no later
-- sequence of orchestrator steps shows them another state of it.
pub Reach-IsSettled :
    {o p : Orchestrator} (k : String) (s : TaskState)
    → IsConsistent o.registry
    → IsSettled k s o.registry
    → Reach o p
    → IsSettled k s p.registry
Reach-IsSettled k s c h here = h
Reach-IsSettled k s c h (next r t) =
    Trace-IsSettled k s (Reach-IsConsistent c r) (Reach-IsSettled k s c h r) (Step-Trace t)

pub IsConsistent-init : (config : Config) → IsConsistent (init config).registry
unfolding Registry.get JsMap.get
IsConsistent-init config = record {
  unique = tt;
  ids = λ k t h. cc;
  agrees = λ k t h. cc;
  legal = tt;
}
