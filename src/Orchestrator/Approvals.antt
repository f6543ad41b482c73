-- ===== src/Orchestrator/Approvals.antt =====
-- ApprovalFlowCoordinator: pausing a task for an approval, resuming or aborting it, and the removal
-- of approvals. Its callbacks `resumeCallback` and `cleanupCallback` are the orchestrator's
-- functions that the constructor passes in.
use moon_bot.Prelude.{
  concat, ◌&&◌, ℕ, ◌+◌, String, Bool, true, false, not, Option, none, some, List, [], ◌∷◌, ltb,
  ◌==◌, if◌then◌else◌,
}
use moon_bot.JsMap
use moon_bot.JsMap.{JsMap, retain, values}
use moon_bot.Task.{running, paused, aborted, state_eq, Task, TaskError}
use moon_bot.Registry
use moon_bot.SessionMapper
use moon_bot.Orchestrator.State.{
  Orchestrator, Status, PendingApproval, approval_request, approval_resolved, approval_cancelled,
  of_state, send, send_response, update_state, cleanup_session_mappings, leave_channel,
}
use moon_bot.Orchestrator.Channel.{process_channel}

unfoldable pub track_pending_approval : String → PendingApproval → Orchestrator → Orchestrator
track_pending_approval request p o = record o {
  pending_approvals = JsMap.set request p o.pending_approvals;
}

-- The text is that of the source with the tool's name in it.
unfoldable pub pause_task : Task → String → String → ℕ → Orchestrator → Orchestrator
pause_task t request tool now o =
    send_response
      (record {
        task_id = t.id;
        channel_id = t.message.channel_id;
        text = concat "승인 필요: 도구 '" (concat tool "' 실행을 위한 승인이 필요합니다.");
        status = Status.pending;
        metadata = record (of_state paused) {
          approval_request_id = some request;
          tool_id = some tool;
        };
      })
      (update_state t.id paused none none now o)

unfoldable pub request_for : Option Task → String → String → ℕ → Orchestrator → Orchestrator
request_for none request tool now o = o
request_for (some t) request tool now o =
    let p : PendingApproval = record {
      task_id = t.id;
      channel_id = t.message.channel_id;
      tool_id = tool;
      requested_at = now;
    } in
    send (approval_request p request)
      (pause_task t request tool now (track_pending_approval request p o))

unfoldable pub find_task : Option String → Orchestrator → Option Task
find_task none o = none
find_task (some id) o = Registry.get id o.registry

unfoldable pub handle_approval_requested :
    String → String → String → ℕ → Orchestrator → Orchestrator
unfolding request_for find_task track_pending_approval pause_task
handle_approval_requested request session tool now o =
    let (mapper, id) = SessionMapper.get session now o.mapper in
    request_for (find_task id o) request tool now (record o { mapper = mapper })

unfoldable pub resume_approved_task : Task → String → ℕ → Orchestrator → Orchestrator
resume_approved_task t request now o =
    send (approval_resolved t.id t.message.channel_id true request)
      (process_channel t.channel_session_id now (update_state t.id running none none now o))

abbrev pub denial : String → TaskError
denial tool = record {
  code = "APPROVAL_DENIED";
  user_message = "승인이 거부되어 작업이 중단되었습니다.";
  internal_message = some (concat "Tool " (concat tool " approval denied"));
  stack = none;
}

abbrev pub channel_of : Option Task → String
channel_of none = ""
channel_of (some t) = t.channel_session_id

-- The orchestrator's `cleanupCallback`. The channel is looked up again for each of the two calls.
unfoldable pub cleanup_callback : String → Orchestrator → Orchestrator
cleanup_callback id o =
    leave_channel (channel_of (Registry.get id o.registry)) (cleanup_session_mappings id o)

unfoldable pub abort_denied_task : Task → PendingApproval → String → ℕ → Orchestrator → Orchestrator
unfolding cleanup_callback
abort_denied_task t p request now o =
    send (approval_resolved t.id t.message.channel_id false request) (
      cleanup_callback t.id (
        send_response
          (record {
            task_id = t.id;
            channel_id = t.message.channel_id;
            text = (denial p.tool_id).user_message;
            status = Status.failed;
            metadata = of_state aborted;
          })
          (update_state t.id aborted none (some (denial p.tool_id)) now o)))

unfoldable pub forget_approval : String → Orchestrator → Orchestrator
forget_approval request o = record o {
  pending_approvals = JsMap.delete request o.pending_approvals;
}

unfoldable pub resolve_task :
    Option Task → PendingApproval → String → Bool → ℕ → Orchestrator → Orchestrator
resolve_task none p request approved now o = o
resolve_task (some t) p request true now o = resume_approved_task t request now o
resolve_task (some t) p request false now o = abort_denied_task t p request now o

unfoldable pub resolve : Option PendingApproval → String → Bool → ℕ → Orchestrator → Orchestrator
resolve none request approved now o = o
resolve (some p) request approved now o =
    resolve_task (Registry.get p.task_id o.registry) p request approved now
      (forget_approval request o)

unfoldable pub handle_approval_resolved : String → Bool → ℕ → Orchestrator → Orchestrator
unfolding resolve resolve_task forget_approval
handle_approval_resolved request approved now o =
    resolve (JsMap.get request o.pending_approvals) request approved now o

unfoldable pub find_approval_request_id : String → JsMap PendingApproval → Option String
find_approval_request_id id [] = none
find_approval_request_id id ((request, p) ∷ m) =
    if p.task_id == id then some request else find_approval_request_id id m

-- With no tool runtime there is nobody to emit to; otherwise the handler that `setup` has registered
-- runs before `emit` returns.
abbrev pub emit_resolved : String → Bool → ℕ → Orchestrator → Orchestrator
emit_resolved request approved now o =
    if o.config.has_tool_runtime then handle_approval_resolved request approved now o else o

unfoldable pub grant_request : Option String → Bool → ℕ → Orchestrator → Orchestrator × Bool
grant_request none approved now o = (o, false)
grant_request (some request) approved now o = (emit_resolved request approved now o, true)

unfoldable pub grant : Option Task → String → Bool → ℕ → Orchestrator → Orchestrator × Bool
grant none id approved now o = (o, false)
grant (some t) id approved now o =
    if state_eq t.state paused
    then grant_request (find_approval_request_id id o.pending_approvals) approved now o
    else (o, false)

unfoldable pub grant_approval : String → Bool → ℕ → Orchestrator → Orchestrator × Bool
unfolding grant grant_request
grant_approval id approved now o = grant (Registry.get id o.registry) id approved now o

unfoldable pub get_pending_approvals : Orchestrator → List PendingApproval
get_pending_approvals o = values o.pending_approvals

-- `approvalCancelled` for each entry that goes, in the map's order.
unfoldable pub cancellations :
    (PendingApproval → Bool) → JsMap PendingApproval → Orchestrator → Orchestrator
cancellations gone [] o = o
cancellations gone ((request, p) ∷ m) o =
    cancellations gone m
      (if o.config.has_tool_runtime && gone p then send (approval_cancelled request) o else o)

unfoldable pub cancel_where : (PendingApproval → Bool) → Orchestrator → Orchestrator
unfolding cancellations
cancel_where gone o = record (cancellations gone o.pending_approvals o) {
  pending_approvals = retain (λ _ p. not (gone p)) o.pending_approvals;
}

unfoldable pub cancel_task_approvals : String → Orchestrator → Orchestrator
unfolding cancel_where
cancel_task_approvals id o = cancel_where (λ p. p.task_id == id) o

-- `pending.requestedAt < Date.now() - this.pendingTtlMs`.
unfoldable pub cleanup_stale_approvals : ℕ → Orchestrator → Orchestrator
unfolding cancel_where
cleanup_stale_approvals now o =
    cancel_where (λ p. ltb (p.requested_at + o.config.pending_ttl_ms) now) o
