-- ===== src/Orchestrator/Denial.antt =====
-- TaskOrchestrator: a denial while the execution that asked still waits, and what its end does then.
use moon_bot.Prelude.{
  ℕ, String, ◌≡◌, refl, ap, subst, sym, ◌∙◌, ◌≢◌, false, none, some, [], ◌∷◌, arith, Option-cases,
  eq_refl, inl, inr,
}
use moon_bot.JsMap
use moon_bot.Task.{paused, done, failed, Task}
use moon_bot.Registry
use moon_bot.Registry.{Registry}
use moon_bot.Registry.Transitions.{get-update_state_ne}
use moon_bot.ChannelQueue.{items, tail, peek, stop_processing}
use moon_bot.ChannelQueue.Contents.{items-dequeue}
use moon_bot.Orchestrator.State.{
  Orchestrator, Execution, PendingApproval, update_state, send_response, leave_channel,
  cleanup_session_mappings,
}
use moon_bot.Orchestrator.Channel.{
  Outcome, returned, threw, process_channel, settle, release, finish, fail, handle_task_error,
  execution_error, drop,
}
use moon_bot.Orchestrator.Approvals.{handle_approval_resolved}
use moon_bot.Orchestrator.Decisions.{denied_other, deny_effect}
use moon_bot.Orchestrator.Sequential.{settle-queue}

-- Another task is not touched when an execution settles.
settle_other :
    (x : Execution) (outcome : Outcome) (now : ℕ) (o : Orchestrator) (n : String)
    → x.task_id ≢ n
    → Registry.get n (settle x outcome now o).registry ≡ Registry.get n o.registry
unfolding settle send_response update_state handle_task_error
settle_other x (returned text none) now o n ne =
    get-update_state_ne x.task_id done (some text) none now o.registry n ne
settle_other x (returned text (some s)) now o n ne =
    get-update_state_ne x.task_id done (some text) none now o.registry n ne
settle_other x (threw message stack) now o n ne =
    elim (Option-cases (Registry.get x.task_id o.registry)) [
      | inl e ↦ rw (e, fail) refl
      | inr (t, e) ↦
          rw (e, fail)
            (get-update_state_ne x.task_id failed none (some (execution_error message stack)) now
              o.registry n ne)
    ]

-- On an empty channel session there is nothing to start.
process_channel_empty :
    (c : String) (now : ℕ) (o : Orchestrator) → items c o.queue ≡ [] → process_channel c now o ≡ o
unfolding process_channel peek
process_channel_empty c now o h = rw h (ground arith)

module _ (x : Execution) (outcome : Outcome) (now : ℕ) (o : Orchestrator) (n : String)
    (last : items x.channel_session_id o.queue ≡ n ∷ []) (ne : x.task_id ≢ n) where
  abbrev settled : Orchestrator
  settled = settle x outcome now (record o { in_flight = drop x o.in_flight })

  abbrev left : Orchestrator
  left = leave_channel x.channel_session_id (cleanup_session_mappings x.task_id settled)

  left_empty : items x.channel_session_id left.queue ≡ []
  unfolding leave_channel cleanup_session_mappings stop_processing
  left_empty =
      items-dequeue x.channel_session_id x.channel_session_id settled.queue
      ∙ (rw eq_refl (
          ap (λ q. tail (items x.channel_session_id q))
            (settle-queue x outcome now (record o { in_flight = drop x o.in_flight })).0
          ∙ ap tail last))

  -- An execution that settles while another task is alone in its queue takes that task off.
  finish_alone :
      (items x.channel_session_id (finish x outcome now o).queue ≡ [])
      × (Registry.get n (finish x outcome now o).registry ≡ Registry.get n o.registry)
      × ((finish x outcome now o).in_flight ≡ drop x o.in_flight)
  unfolding finish release
  finish_alone = rw (process_channel_empty x.channel_session_id now left left_empty) (
    left_empty,
    unfold leave_channel cleanup_session_mappings in
        settle_other x outcome now (record o { in_flight = drop x o.in_flight }) n ne,
    unfold leave_channel cleanup_session_mappings in
        (settle-queue x outcome now (record o { in_flight = drop x o.in_flight })).1,
  )

-- If the approval of a PAUSED task is denied while one other task waits behind it in the queue,
-- then, once the execution of the denied task settles in any way, the waiting task is in no queue
-- of its channel session, no execution has been started for it, and its entry is as it was.
pub denial_loses_next :
    (request n : String) (p : PendingApproval) (x : Execution) (outcome : Outcome) (now later : ℕ)
    (o : Orchestrator) (t u : Task)
    → JsMap.get request o.pending_approvals ≡ some p
    → Registry.get p.task_id o.registry ≡ some t
    → t.id ≡ p.task_id
    → t.state ≡ paused
    → items t.channel_session_id o.queue ≡ t.id ∷ n ∷ []
    → Registry.get n o.registry ≡ some u
    → t.id ≢ n
    → x.task_id ≡ t.id
    → x.channel_session_id ≡ t.channel_session_id
    → let q = finish x outcome later (handle_approval_resolved request false now o) in
      (items t.channel_session_id q.queue ≡ [])
      × (Registry.get n q.registry ≡ some u)
      × (q.in_flight ≡ drop x o.in_flight)
denial_loses_next request n p x outcome now later o t u asked found key waits queued next ne
      same_task same_channel =
    let d = handle_approval_resolved request false now o in
    let (_, _, its, _, fl) = deny_effect request p now o t asked found key waits in
    let last : items x.channel_session_id d.queue ≡ n ∷ [] =
      ap (λ c. items c d.queue) same_channel ∙ its ∙ ap tail queued in
    let ne' : x.task_id ≢ n = λ e. ne (sym same_task ∙ e) in
    let (a, b, c) = finish_alone x outcome later d n last ne' in
    (
      subst (λ k. items k (finish x outcome later d).queue ≡ []) same_channel a,
      b ∙ denied_other request p now o t asked found key waits n ne ∙ next,
      c ∙ ap (drop x) fl,
    )
