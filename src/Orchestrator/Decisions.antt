-- ===== src/Orchestrator/Decisions.antt =====
-- ApprovalFlowCoordinator: what a request for approval and its decision do to the task, the pending
-- approvals, the channel session and the listeners.
use moon_bot.Prelude.{
  ℕ, String, ◌≡◌, refl, ap, subst, ◌∙◌, Bool, true, false, Option, none, some, arith, Bool-cases,
  Option-cases, eq_of_test, eq_iff, eq_refl, ◌==◌, inl, inr, ◌≢◌,
}
use moon_bot.JsMap
use moon_bot.JsMap.Laws.{get-delete}
use moon_bot.Task.{TaskState, running, paused, aborted, Task, TaskError}
use moon_bot.Registry
use moon_bot.Registry.{Registry, updated, is_valid_transition}
use moon_bot.Registry.Transitions.{get-update_state_self, get-update_state_ne, state-updated}
use moon_bot.ChannelQueue
use moon_bot.ChannelQueue.{items, tail, is_processing, peek}
use moon_bot.ChannelQueue.Contents.{items-dequeue}
use moon_bot.ChannelQueue.Flags.{flags}
use moon_bot.Orchestrator.State.{
  Orchestrator, PendingApproval, update_state, send_response, leave_channel,
  cleanup_session_mappings,
}
use moon_bot.Orchestrator.Channel.{process_channel, execute_task, begin, map_session, start_next}
use moon_bot.Orchestrator.Approvals.{
  handle_approval_resolved, resolve_task, denial, resume_approved_task, abort_denied_task,
  forget_approval, channel_of,
}
use moon_bot.Orchestrator.Creation.{state_of}
use moon_bot.Orchestrator.Settling.{state_of-update_state}

-- A RUNNING task is still RUNNING after another one is started.
update_keeps_running :
    (id k : String) (now : ℕ) (o : Orchestrator)
    → state_of k o ≡ some running
    → state_of k (update_state id running none none now o) ≡ some running
update_keeps_running id k now o h = elim (Option-cases (Registry.get k o.registry)) [
  | inl e ↦ absurd (ground (arith, e, h))
  | inr (t, e) ↦ elim (Bool-cases (id == k)) [
    | inl same ↦
        let is_running : t.state ≡ running = ground (arith, e, h) in
        rw (eq_of_test id k same) (
          state_of-update_state k running none none now o t e
          ∙ (unfold is_valid_transition in ground (arith, is_running)))
    | inr other ↦
        let ne : id ≢ k = λ p. ground (arith, eq_iff id k, other, p) in
        unfold update_state in rw (get-update_state_ne id running none none now o.registry k ne) h
  ]
]

map_session_keeps :
    (s : Option String) (id k : String) (now : ℕ) (o : Orchestrator)
    → state_of k o ≡ some running
    → state_of k (map_session s id now o) ≡ some running
map_session_keeps none id k now o h = h
map_session_keeps (some s) id k now o h = h

begin_keeps :
    (t : Option Task) (id c k : String) (now : ℕ) (o : Orchestrator)
    → state_of k o ≡ some running
    → state_of k (begin t id c now o) ≡ some running
unfolding begin
begin_keeps none id c k now o h = unfold leave_channel in h
begin_keeps (some t) id c k now o h =
    map_session_keeps (o.config.session_of t.id t.channel_session_id) t.id k now _
      (update_keeps_running id k now o h)

start_next_keeps :
    (x : Option String) (c k : String) (now : ℕ) (o : Orchestrator)
    → state_of k o ≡ some running
    → state_of k (start_next x c now o) ≡ some running
unfolding start_next execute_task
start_next_keeps none c k now o h = h
start_next_keeps (some id) c k now o h =
    begin_keeps (Registry.get id o.registry) id c k now
      (record o { queue = ChannelQueue.start_processing c o.queue }) h

process_channel_keeps :
    (c k : String) (now : ℕ) (o : Orchestrator)
    → state_of k o ≡ some running
    → state_of k (process_channel c now o) ≡ some running
unfolding process_channel
process_channel_keeps c k now o h = elim (Bool-cases (is_processing c o.queue)) [
  | inl e ↦ rw e h
  | inr e ↦ rw e (start_next_keeps (peek c o.queue) c k now o h)
]

map_session_pending :
    (s : Option String) (id : String) (now : ℕ) (o : Orchestrator)
    → (map_session s id now o).pending_approvals ≡ o.pending_approvals
map_session_pending none id now o = refl
map_session_pending (some s) id now o = refl

begin_pending :
    (t : Option Task) (id c : String) (now : ℕ) (o : Orchestrator)
    → (begin t id c now o).pending_approvals ≡ o.pending_approvals
unfolding begin leave_channel update_state
begin_pending none id c now o = refl
begin_pending (some t) id c now o =
    map_session_pending (o.config.session_of t.id t.channel_session_id) t.id now _

process_channel_pending :
    (c : String) (now : ℕ) (o : Orchestrator)
    → (process_channel c now o).pending_approvals ≡ o.pending_approvals
unfolding process_channel execute_task
process_channel_pending c now o = elim (Bool-cases (is_processing c o.queue)) [
  | inl e ↦ rw e refl
  | inr e ↦ rw e (elim (Option-cases (peek c o.queue)) [
    | inl n ↦ rw n refl
    | inr (id, n) ↦ rw n (begin_pending (Registry.get id o.registry) id c now _)
  ])
]

channel-updated :
    (new : TaskState) (result : Option String) (error : Option TaskError) (now : ℕ) (t : Task)
    → (updated new result error now t).channel_session_id ≡ t.channel_session_id
unfolding updated
channel-updated new result error now t = ground arith

module _ (request : String) (p : PendingApproval) (now : ℕ) (o : Orchestrator) (t : Task)
    (asked : JsMap.get request o.pending_approvals ≡ some p)
    (found : Registry.get p.task_id o.registry ≡ some t) (key : t.id ≡ p.task_id)
    (waits : t.state ≡ paused) where
  resolves_to :
      (approved : Bool)
      → handle_approval_resolved request approved now o
        ≡ resolve_task (some t) p request approved now (forget_approval request o)
  unfolding handle_approval_resolved forget_approval
  resolves_to approved = rw asked (rw found refl)

  pub found_by_id : Registry.get t.id o.registry ≡ some t
  found_by_id = ap (λ k. Registry.get k o.registry) key ∙ found

  resumed : state_of t.id (update_state t.id running none none now o) ≡ some running
  resumed =
      state_of-update_state t.id running none none now o t found_by_id
      ∙ (unfold is_valid_transition in ground (arith, waits))

  -- If the pending approval of a PAUSED task is approved, the task is RUNNING and its request is no
  -- longer pending.
  pub approve_effect :
      (state_of p.task_id (handle_approval_resolved request true now o) ≡ some running)
      × (JsMap.get request (handle_approval_resolved request true now o).pending_approvals ≡ none)
  approve_effect = (
    subst (λ k. state_of k (handle_approval_resolved request true now o) ≡ some running) key
        (rw (resolves_to true) (
          unfold resolve_task resume_approved_task forget_approval in
          process_channel_keeps t.channel_session_id t.id now _ (unfold update_state in resumed))),
    rw (resolves_to true) (
        unfold resolve_task resume_approved_task forget_approval update_state in
        rw process_channel_pending (rw (get-delete, eq_refl) refl)),
  )

  denied_entry :
      Registry.get t.id
        (Registry.update_state t.id aborted none (some (denial p.tool_id)) now o.registry).0
      ≡ some (updated aborted none (some (denial p.tool_id)) now t)
  denied_entry =
      get-update_state_self t.id aborted none (some (denial p.tool_id)) now o.registry t found_by_id
        (unfold is_valid_transition in ground (arith, waits))

  denied_channel :
      channel_of (
        Registry.get t.id
          (Registry.update_state t.id aborted none (some (denial p.tool_id)) now o.registry).0)
      ≡ t.channel_session_id
  denied_channel =
      ap channel_of denied_entry ∙ channel-updated aborted none (some (denial p.tool_id)) now t

  pub denied_queue :
      (handle_approval_resolved request false now o).queue
      ≡ ChannelQueue.stop_processing t.channel_session_id
          (ChannelQueue.dequeue t.channel_session_id o.queue).0
  denied_queue = rw (resolves_to false) (
      unfold resolve_task abort_denied_task forget_approval leave_channel cleanup_session_mappings
        send_response update_state in
      ap (λ c. ChannelQueue.stop_processing c (ChannelQueue.dequeue c o.queue).0) denied_channel)

  pub denied_other :
      (n : String)
      → t.id ≢ n
      → Registry.get n (handle_approval_resolved request false now o).registry
        ≡ Registry.get n o.registry
  denied_other n ne = rw (resolves_to false) (
      unfold resolve_task abort_denied_task forget_approval leave_channel cleanup_session_mappings
        send_response update_state in
      get-update_state_ne t.id aborted none (some (denial p.tool_id)) now o.registry n ne)

  -- If the pending approval of a PAUSED task is denied, the task is ABORTED, its request is no
  -- longer pending, the queue of its channel session has lost its head and its processing flag is
  -- down, and the waiting executions are as they were.
  pub deny_effect :
      (state_of p.task_id (handle_approval_resolved request false now o) ≡ some aborted)
      × (JsMap.get request (handle_approval_resolved request false now o).pending_approvals ≡ none)
      × (items t.channel_session_id (handle_approval_resolved request false now o).queue
          ≡ tail (items t.channel_session_id o.queue))
      × (is_processing t.channel_session_id (handle_approval_resolved request false now o).queue
          ≡ false)
      × ((handle_approval_resolved request false now o).in_flight ≡ o.in_flight)
  deny_effect = (
    subst (λ k. state_of k (handle_approval_resolved request false now o) ≡ some aborted) key
        (rw (resolves_to false) (
          unfold resolve_task abort_denied_task forget_approval leave_channel
            cleanup_session_mappings send_response update_state in
          rw denied_entry (ap some (state-updated aborted none (some (denial p.tool_id)) now t)))),
    rw (resolves_to false) (
        unfold resolve_task abort_denied_task forget_approval leave_channel cleanup_session_mappings
          send_response update_state in
        rw (get-delete, eq_refl) refl),
    rw denied_queue (
        unfold ChannelQueue.stop_processing in
        items-dequeue t.channel_session_id t.channel_session_id o.queue ∙ (rw eq_refl refl)),
    rw denied_queue (simp flags (rw eq_refl refl)),
    rw (resolves_to false) (
        unfold resolve_task abort_denied_task forget_approval leave_channel cleanup_session_mappings
          send_response update_state in
        refl),
  )
