-- ===== src/Orchestrator/Sequential.antt =====
-- TaskOrchestrator: the flag, the queue and the executions of a channel session over steps that deny
-- no approval.
use moon_bot.Prelude.{
  ℕ, String, ◌≡◌, refl, Bool, true, false, Option, none, some, [], ◌∷◌, arith, Bool-cases,
  Option-cases, inl, inr, if◌then◌else◌,
}
use moon_bot.JsMap
use moon_bot.JsMap.{JsMap}
use moon_bot.Task.{TaskState, running, Task, TaskError, state_eq, paused}
use moon_bot.Registry
use moon_bot.Registry.{Registry}
use moon_bot.Registry.Events.{IsConsistent, create-IsConsistent}
use moon_bot.Registry.Trace.{Trace, Trace-IsConsistent}
use moon_bot.ChannelQueue.{peek, is_processing, start_processing}
use moon_bot.Orchestrator.State.{
  Orchestrator, Config, init, Execution, Timer, PendingApproval, send_response, update_state,
  cleanup_session_mappings, leave_channel,
}
use moon_bot.Orchestrator.Channel.{
  Outcome, returned, threw, map_session, begin, execute_task, process_channel, fail,
  handle_task_error, settle, release, finish, fire, time_out, drop,
}
use moon_bot.Orchestrator.Approvals.{
  request_for, handle_approval_requested, handle_approval_resolved, resolve, resolve_task,
  resume_approved_task, forget_approval, grant, grant_request, grant_approval, cancellations,
  find_approval_request_id, cleanup_stale_approvals,
}
use moon_bot.Orchestrator.Tasks.{
  Step, create_task, cleanup, shutdown, enqueued, abort_task, is_waiting,
}
use moon_bot.Orchestrator.Lifecycle.{Step-Trace, settle-Traced, update-Traced}
use moon_bot.Orchestrator.Abort.{abort_task_cases}
use moon_bot.Orchestrator.Serial.{
  IsSerial, running_in, start-IsSerial, skip-IsSerial, enqueue-IsSerial, finish-IsSerial,
}

abbrev pub Serial : Orchestrator → Type 0
Serial o = IsSerial o.queue o.in_flight

map_session-Serial :
    (s : Option String) (id : String) (now : ℕ) (o : Orchestrator)
    → Serial o
    → Serial (map_session s id now o)
map_session-Serial none id now o h = h
map_session-Serial (some s) id now o h = h

-- The channel session is idle and `id` at its head: whether the task is found or not.
begin-Serial :
    (t : Option Task) (id c : String) (now : ℕ) (o : Orchestrator)
    → Registry.get id o.registry ≡ t
    → IsConsistent o.registry
    → Serial o
    → is_processing c o.queue ≡ false
    → peek c o.queue ≡ some id
    → Serial (begin t id c now (record o { queue = start_processing c o.queue }))
unfolding begin update_state leave_channel
begin-Serial none id c now o e k s idle top = skip-IsSerial o.queue o.in_flight s c idle
begin-Serial (some t) id c now o e k s idle top =
    map_session-Serial (o.config.session_of t.id t.channel_session_id) t.id now _ (
      start-IsSerial o.queue o.in_flight s c t.id t.message.channel_id idle (rw (k.ids id t e) top))

process_channel-Serial :
    (c : String) (now : ℕ) (o : Orchestrator)
    → IsConsistent o.registry
    → Serial o
    → Serial (process_channel c now o)
unfolding process_channel execute_task
process_channel-Serial c now o k s = elim (Bool-cases (is_processing c o.queue)) [
  | inl busy ↦ rw busy s
  | inr idle ↦ rw idle (elim (Option-cases (peek c o.queue)) [
    | inl e ↦ rw e s
    | inr (id, e) ↦ rw e (begin-Serial _ id c now o refl k s idle e)
  ])
]

fail-Serial :
    (t : Option Task) (id : String) (e : TaskError) (now : ℕ) (o : Orchestrator)
    → Serial o
    → Serial (fail t id e now o)
unfolding fail send_response update_state
fail-Serial none id e now o s = s
fail-Serial (some t) id e now o s = s

fire-Serial : (t : Option Timer) (id : String) (o : Orchestrator) → Serial o → Serial (fire t id o)
fire-Serial none id o s = s
fire-Serial (some t) id o s = s

-- Settling leaves the queue and the other executions alone.
pub settle-queue :
    (x : Execution) (outcome : Outcome) (now : ℕ) (o : Orchestrator)
    → ((settle x outcome now o).queue ≡ o.queue)
      × ((settle x outcome now o).in_flight ≡ o.in_flight)
unfolding settle send_response update_state handle_task_error
settle-queue x (returned text none) now o = (refl, refl)
settle-queue x (returned text (some s)) now o = (refl, refl)
settle-queue x (threw message stack) now o =
    elim (Option-cases (Registry.get x.task_id o.registry)) [
      | inl e ↦ rw (e, fail) (refl, refl)
      | inr (t, e) ↦ rw (e, fail) (refl, refl)
    ]

settle-IsConsistent :
    (x : Execution) (outcome : Outcome) (now : ℕ) (o : Orchestrator)
    → IsConsistent o.registry
    → IsConsistent (settle x outcome now o).registry
settle-IsConsistent x outcome now o k =
    Trace-IsConsistent k (settle-Traced o.registry x outcome now o Trace.start)

finish-Serial :
    (x : Execution) (outcome : Outcome) (now : ℕ) (o : Orchestrator)
    → IsConsistent o.registry
    → Serial o
    → is_waiting x o.in_flight ≡ true
    → Serial (finish x outcome now o)
unfolding finish release leave_channel cleanup_session_mappings
finish-Serial x outcome now o k s w =
    let rest = drop x o.in_flight in
    let p : Orchestrator = record o { in_flight = rest } in
    let kept = settle-queue x outcome now p in
    process_channel-Serial x.channel_session_id now _ (settle-IsConsistent x outcome now p k)
      (rw (kept.0, kept.1) (finish-IsSerial o.queue o.in_flight s x w))

request_for-Serial :
    (t : Option Task) (request tool : String) (now : ℕ) (o : Orchestrator)
    → Serial o
    → Serial (request_for t request tool now o)
unfolding handle_approval_requested send_response update_state
request_for-Serial none request tool now o s = s
request_for-Serial (some t) request tool now o s = s

update-IsConsistent :
    (id : String) (new : TaskState) (now : ℕ) (o : Orchestrator)
    → IsConsistent o.registry
    → IsConsistent (update_state id new none none now o).registry
update-IsConsistent id new now o k =
    Trace-IsConsistent k (update-Traced o.registry id new none none now o Trace.start)

update-Serial :
    (id : String) (new : TaskState) (now : ℕ) (o : Orchestrator)
    → Serial o
    → Serial (update_state id new none none now o)
unfolding update_state
update-Serial id new now o s = s

resolve_task-Serial :
    (t : Option Task) (p : PendingApproval) (request : String) (now : ℕ) (o : Orchestrator)
    → IsConsistent o.registry
    → Serial o
    → Serial (resolve_task t p request true now o)
unfolding resolve_task resume_approved_task
resolve_task-Serial none p request now o k s = s
resolve_task-Serial (some t) p request now o k s =
    process_channel-Serial t.channel_session_id now _ (update-IsConsistent t.id running now o k)
      (update-Serial t.id running now o s)

resolve-Serial :
    (p : Option PendingApproval) (request : String) (now : ℕ) (o : Orchestrator)
    → IsConsistent o.registry
    → Serial o
    → Serial (resolve p request true now o)
unfolding resolve forget_approval
resolve-Serial none request now o k s = s
resolve-Serial (some p) request now o k s = resolve_task-Serial _ p request now _ k s

approve-Serial :
    (request : String) (now : ℕ) (o : Orchestrator)
    → IsConsistent o.registry
    → Serial o
    → Serial (handle_approval_resolved request true now o)
unfolding handle_approval_resolved
approve-Serial request now o k s = resolve-Serial _ request now o k s

pick-Serial : (b : Bool) (o p : Orchestrator) → Serial o → Serial p → Serial (if b then o else p)
pick-Serial true o p s u = s
pick-Serial false o p s u = u

choice-Serial :
    {A : Type 0} (b : Bool) (x y : Orchestrator × A)
    → Serial x.0
    → Serial y.0
    → Serial (if b then x else y).0
choice-Serial true x y s u = s
choice-Serial false x y s u = u

grant_request-Serial :
    (x : Option String) (now : ℕ) (o : Orchestrator)
    → IsConsistent o.registry
    → Serial o
    → Serial (grant_request x true now o).0
unfolding grant_request
grant_request-Serial none now o k s = s
grant_request-Serial (some request) now o k s =
    pick-Serial o.config.has_tool_runtime _ o (approve-Serial request now o k s) s

grant-Serial :
    (t : Option Task) (id : String) (now : ℕ) (o : Orchestrator)
    → IsConsistent o.registry
    → Serial o
    → Serial (grant t id true now o).0
unfolding grant
grant-Serial none id now o k s = s
grant-Serial (some t) id now o k s =
    choice-Serial (state_eq t.state paused) _ (o, false)
      (grant_request-Serial (find_approval_request_id id o.pending_approvals) now o k s) s

cancellations-Serial :
    (gone : PendingApproval → Bool) (m : JsMap PendingApproval) (o : Orchestrator)
    → Serial o
    → Serial (cancellations gone m o)
unfolding cancellations
cancellations-Serial gone [] o s = s
cancellations-Serial gone ((request, p) ∷ m) o s = cancellations-Serial gone m _ (ground (arith, s))

enqueued-Serial :
    (accepted : Bool) (id c : String) (now : ℕ) (o : Orchestrator)
    → IsConsistent o.registry
    → Serial o
    → Serial (enqueued accepted id c now o).0
unfolding enqueued update_state
enqueued-Serial false id c now o k s = s
enqueued-Serial true id c now o k s = process_channel-Serial c now o k s

abort-Serial :
    (id : String) (now : ℕ) (o : Orchestrator) → Serial o → Serial (abort_task id now o).0
abort-Serial id now o s = elim (abort_task_cases id now o) [
  | inl e ↦ rw e s
  | inr (t, _, _, e) ↦ rw e s
]

-- A step in which an approval is denied.
abbrev pub denies : {o p : Orchestrator} → Step o p → Bool
denies (Step.resolves request false now) = true
denies (Step.grants id false now) = true
denies _ = false

Step-Serial :
    {o p : Orchestrator} (t : Step o p)
    → denies t ≡ false
    → IsConsistent o.registry
    → Serial o
    → Serial p
unfolding create_task handle_approval_requested grant_approval cleanup cleanup_stale_approvals
    shutdown time_out handle_task_error
Step-Serial {o} (Step.creates id message c now fresh) n k s =
    enqueued-Serial _ id c now _ (create-IsConsistent id message c now o.registry k fresh)
      (enqueue-IsSerial o.queue o.in_flight s c id)
Step-Serial {o} (Step.finishes x outcome now w) n k s = finish-Serial x outcome now o k s w
Step-Serial {o} (Step.times_out id t now e f d) n k s =
    fail-Serial _ id _ now _ (fire-Serial _ id o s)
Step-Serial {o} (Step.requests request session tool now) n k s =
    request_for-Serial _ request tool now _ s
Step-Serial {o} (Step.resolves request true now) n k s = approve-Serial request now o k s
Step-Serial {o} (Step.resolves request false now) n k s = cc
Step-Serial {o} (Step.grants id true now) n k s = grant-Serial _ id now o k s
Step-Serial {o} (Step.grants id false now) n k s = cc
Step-Serial {o} (Step.aborts id now) n k s = abort-Serial id now o s
Step-Serial {o} (Step.cleans older_than now) n k s = s
Step-Serial {o} (Step.sweeps_approvals now) n k s = cancellations-Serial _ o.pending_approvals o s
Step-Serial (Step.sweeps_sessions now) n k s = s
Step-Serial Step.shuts_down n k s = s

-- Runs in which no approval is denied.
pub data Undenied (o : Orchestrator) : Orchestrator → Type 0 where
  here : Undenied o o
  next : {p q : Orchestrator} → Undenied o p → (t : Step p q) → denies t ≡ false → Undenied o q

undenied :
    {o p : Orchestrator}
    → IsConsistent o.registry
    → Serial o
    → Undenied o p
    → IsConsistent p.registry × Serial p
undenied k s here = (k, s)
undenied k s (next r t n) =
    let h = undenied k s r in (Trace-IsConsistent h.0 (Step-Trace t), Step-Serial t n h.0 h.1)

-- From a consistent start, as long as no approval is denied and in whatever order calls and events
-- come, a channel session has one waiting execution where its processing flag is up and none where
-- it is not, and the task of each waiting execution is the head of its queue.
pub Undenied-IsSerial :
    {o p : Orchestrator}
    → IsConsistent o.registry
    → IsSerial o.queue o.in_flight
    → Undenied o p
    → IsSerial p.queue p.in_flight
Undenied-IsSerial k s r = (undenied k s r).1

pub Serial-init : (config : Config) → Serial (init config)
unfolding running_in is_waiting is_processing JsMap.get
Serial-init config = record { one = λ c. refl; at_head = λ x h. cc }
