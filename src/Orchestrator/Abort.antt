-- ===== src/Orchestrator/Abort.antt =====
-- TaskOrchestrator.abortTask on every branch. `updateState` writes to the object that the method tests.
use moon_bot.Prelude.{
  ℕ, String, ◌≡◌, refl, ap, Bool, true, false, none, some, ◌||◌, arith, Bool-cases, Option-cases,
  inl, inr, ◌⊎◌, if◌then◌else◌,
}
use mathlib.Core.Option
use moon_bot.JsMap
use moon_bot.Task.{TaskState, pending, running, paused, aborted, state_eq, Task}
use moon_bot.Registry
use moon_bot.Registry.{Registry, updated, is_valid_transition}
use moon_bot.Registry.Transitions.{update_state_valid, moved, get-moved_self, state-updated}
use moon_bot.SessionMapper
use moon_bot.Orchestrator.State.{
  Orchestrator, Status, TaskResponse, response, of_state, send, send_response, update_state,
  cleanup_session_mappings,
}
use moon_bot.Orchestrator.Tasks.{abort_task, abort, abort_rest, abort_error}

abbrev pub is_active : TaskState → Bool
is_active s = state_eq s pending || (state_eq s running || state_eq s paused)

active-aborts : (s : TaskState) → is_active s ≡ true → is_valid_transition s aborted ≡ true
unfolding is_valid_transition
active-aborts s h = ground arith

module _ (t : Task) (id : String) (now : ℕ) (o : Orchestrator) where
  abbrev aborted_task : Task
  aborted_task = updated aborted none (some abort_error) now t

  abbrev aborted_response : TaskResponse
  aborted_response = record {
    task_id = t.id;
    channel_id = t.message.channel_id;
    text = "작업이 중단되었습니다.";
    status = Status.failed;
    metadata = of_state aborted;
  }

  -- All that an abort does.
  abbrev pub after_abort : Orchestrator
  after_abort = send (response aborted_response) (record o {
    registry = moved id aborted none (some abort_error) now o.registry t;
    mapper = (SessionMapper.cleanup_by_task_id t.id o.mapper).0;
    processing_timers = JsMap.delete id o.processing_timers;
  })

  abort_rest_lem :
      (q : Orchestrator)
      → abort_rest (some aborted_task) now q
        ≡ send
            (response aborted_response)
            (record q { mapper = (SessionMapper.cleanup_by_task_id t.id q.mapper).0 })
  unfolding abort_rest send_response cleanup_session_mappings updated
  abort_rest_lem q = refl

  abort_task_active :
      Registry.get id o.registry ≡ some t
      → is_active t.state ≡ true
      → abort_task id now o ≡ (after_abort, true)
  unfolding abort_task update_state
  abort_task_active e a =
      let step =
        update_state_valid id aborted none (some abort_error) now o.registry t e
          (active-aborts t.state a) in
      let found = get-moved_self id aborted none (some abort_error) now o.registry t in
      rw e (rw a (rw step (rw found (rw abort_rest_lem refl))))

abort_task_refused :
    (id : String) (now : ℕ) (o : Orchestrator)
    → ((t : Task) → Registry.get id o.registry ≡ some t → is_active t.state ≡ false)
    → abort_task id now o ≡ (o, false)
unfolding abort_task abort
abort_task_refused id now o h = elim (Option-cases (Registry.get id o.registry)) [
  | inl e ↦ rw e
  | inr (t, e) ↦ rw e (rw (h t e))
]

-- An abort, granted or refused, does one of two things.
pub abort_task_cases :
    (id : String) (now : ℕ) (o : Orchestrator)
    → (abort_task id now o ≡ (o, false))
      ⊎ ((t : Task) × (Registry.get id o.registry ≡ some t)
          × (is_active t.state ≡ true)
          × (abort_task id now o ≡ (after_abort t id now o, true)))
abort_task_cases id now o = elim (Option-cases (Registry.get id o.registry)) [
  | inl e ↦ inl (abort_task_refused id now o (λ t h. absurd (ground (arith, e, h))))
  | inr (t, e) ↦ elim (Bool-cases (is_active t.state)) [
    | inl a ↦ inr (t, e, a, abort_task_active t id now o e a)
    | inr a ↦ inl (abort_task_refused id now o (λ u h. ground (arith, e, h, a)))
  ]
]

-- Of a known task, abortTask succeeds exactly if the task is PENDING, RUNNING or PAUSED, and then
-- the task is ABORTED, otherwise its state stays; in every case the queue, the processing flags,
-- the waiting executions and the pending approvals stay as they are.
pub abort_task_effect :
    (id : String) (now : ℕ) (o : Orchestrator) (t : Task)
    → Registry.get id o.registry ≡ some t
    → ((abort_task id now o).1 ≡ is_active t.state)
      × (Option.map (λ (u : Task). u.state) (Registry.get id (abort_task id now o).0.registry)
          ≡ some (if is_active t.state then aborted else t.state))
      × ((abort_task id now o).0.queue ≡ o.queue)
      × ((abort_task id now o).0.in_flight ≡ o.in_flight)
      × ((abort_task id now o).0.pending_approvals ≡ o.pending_approvals)
abort_task_effect id now o t e = elim (Bool-cases (is_active t.state)) [
  | inl a ↦
      let found = get-moved_self id aborted none (some abort_error) now o.registry t in
      rw (abort_task_active t id now o e a, a)
        (
          refl,
          rw found (ap some (state-updated aborted none (some abort_error) now t)),
          refl,
          refl,
          refl,
        )
  | inr a ↦
      rw (abort_task_refused id now o (λ u h. ground (arith, e, h, a)), a)
        (refl, rw e refl, refl, refl, refl)
]
