-- ===== src/Orchestrator/Creation.antt =====
-- TaskOrchestrator.createTask on every branch.
use mathlib.Core.Option
use moon_bot.Prelude.{
  ℕ, ◌+◌, ◌≤◌, ◌<◌, String, ◌≡◌, refl, ap, ◌∙◌, true, false, Option, none, some, [], ◌∷◌, ◌++◌,
  arith, length, ltb, eq_refl,
}
use moon_bot.JsMap
use moon_bot.JsMap.Laws.{get-set}
use moon_bot.Task.{TaskState, pending, running, failed, ChatMessage, Task, TaskError}
use moon_bot.Registry
use moon_bot.Registry.{Registry, new_task, updated, is_valid_transition}
use moon_bot.Registry.Transitions.{get-create_self, get-update_state_self}
use moon_bot.ChannelQueue.{items, enqueue, is_processing, peek, start_processing}
use moon_bot.ChannelQueue.Contents.{items-enqueue, accepted-enqueue}
use moon_bot.ChannelQueue.Flags.{flags}
use moon_bot.Orchestrator.State.{Orchestrator, update_state}
use moon_bot.Orchestrator.Channel.{process_channel, execute_task, begin, execution, map_session}
use moon_bot.Orchestrator.Tasks.{create_task, enqueued, queue_full}

abbrev pub state_of : String → Orchestrator → Option TaskState
state_of id o = Option.map (λ (t : Task). t.state) (Registry.get id o.registry)

abbrev pub error_of : String → Orchestrator → Option (Option TaskError)
error_of id o = Option.map (λ (t : Task). t.error) (Registry.get id o.registry)

module _ (id : String) (message : ChatMessage) (c : String) (now : ℕ) (o : Orchestrator) where
  abbrev made : Orchestrator
  made = record o {
    registry = Registry.create id message c now o.registry;
    queue = (enqueue c id o.queue).0;
  }

  accepted_branch :
      length (items c o.queue) < o.queue.max_size_per_channel
      → create_task id message c now o ≡ enqueued true id c now made
  unfolding create_task
  accepted_branch h =
      let room : ltb (length (items c o.queue)) o.queue.max_size_per_channel ≡ true =
        ground arith in
      ap (λ b. enqueued b id c now made) (accepted-enqueue c o.queue id ∙ room)

  rejected_branch :
      o.queue.max_size_per_channel ≤ length (items c o.queue)
      → create_task id message c now o ≡ enqueued false id c now made
  unfolding create_task
  rejected_branch h =
      let full : ltb (length (items c o.queue)) o.queue.max_size_per_channel ≡ false =
        ground arith in
      ap (λ b. enqueued b id c now made) (accepted-enqueue c o.queue id ∙ full)

  -- On a full queue createTask throws, the new task is FAILED with the error QUEUE_FULL, the queue
  -- of every channel holds what it held, and no execution is started.
  pub create_task_full :
      o.queue.max_size_per_channel ≤ length (items c o.queue)
      → let p = create_task id message c now o in
        (p.1 ≡ none)
        × (state_of id p.0 ≡ some failed)
        × (error_of id p.0 ≡ some (some (queue_full c)))
        × ((d : String) → items d p.0.queue ≡ items d o.queue)
        × (p.0.in_flight ≡ o.in_flight)
  unfolding enqueued update_state
  create_task_full h =
      let found =
        get-update_state_self id failed none (some (queue_full c)) now
          (Registry.create id message c now o.registry) (new_task id message c now)
          (get-create_self id message c now o.registry) (unfold is_valid_transition in refl) in
      rw (rejected_branch h) (
        refl,
        rw found (unfold updated in refl),
        rw found (unfold updated in refl),
        λ d. items-enqueue c d o.queue id ∙ ground arith,
        refl,
      )

  items_after :
      length (items c o.queue) < o.queue.max_size_per_channel
      → items c (enqueue c id o.queue).0 ≡ items c o.queue ++ id ∷ []
  items_after h = items-enqueue c c o.queue id ∙ ground (arith, eq_refl c)

  -- With room in the queue of a channel session that is processing, createTask returns the id as
  -- PENDING, the task is PENDING at the end of the queue, and no execution is started.
  pub create_task_busy :
      length (items c o.queue) < o.queue.max_size_per_channel
      → is_processing c o.queue ≡ true
      → let p = create_task id message c now o in
        (p.1 ≡ some (id, pending))
        × (state_of id p.0 ≡ some pending)
        × (items c p.0.queue ≡ items c o.queue ++ id ∷ [])
        × (p.0.in_flight ≡ o.in_flight)
  unfolding enqueued process_channel
  create_task_busy h busy = rw (accepted_branch h) (
      simp flags (
        rw busy (
          rw (get-create_self id message c now o.registry) refl,
          rw (get-create_self id message c now o.registry) refl,
          items_after h,
          refl,
        )))

  abbrev launched : Orchestrator
  launched =
      begin (some (new_task id message c now)) id c now
        (record made { queue = start_processing c made.queue })

  launch :
      length (items c o.queue) < o.queue.max_size_per_channel
      → is_processing c o.queue ≡ false
      → items c o.queue ≡ []
      → process_channel c now made ≡ launched
  unfolding process_channel execute_task peek
  launch h idle clear =
      simp flags
        (rw (idle, items_after h, clear) (rw (get-create_self id message c now o.registry) refl))

  launched-session :
      (s : Option String) (q : Orchestrator)
      → ((map_session s id now q).registry ≡ q.registry)
        × ((map_session s id now q).queue ≡ q.queue)
        × ((map_session s id now q).in_flight ≡ q.in_flight)
        × ((map_session s id now q).processing_timers ≡ q.processing_timers)
  launched-session none q = (refl, refl, refl, refl)
  launched-session (some s) q = (refl, refl, refl, refl)

  abbrev before_session : Orchestrator
  before_session =
      record (update_state id running none none now
        (record made { queue = start_processing c made.queue })) {
          processing_timers =
              JsMap.set id (record { deadline = now + o.config.task_timeout_ms; fired = false })
                o.processing_timers;
          in_flight = execution (new_task id message c now) c ∷ o.in_flight;
        }

  launched_task :
      Registry.get id launched.registry
      ≡ some (updated running none none now (new_task id message c now))
  unfolding begin update_state
  launched_task =
      ap (Registry.get id) (launched-session (o.config.session_of id c) before_session).0
      ∙ get-update_state_self id running none none now (Registry.create id message c now o.registry)
          (new_task id message c now) (get-create_self id message c now o.registry)
          (unfold is_valid_transition in refl)

  launched_items :
      length (items c o.queue) < o.queue.max_size_per_channel
      → items c o.queue ≡ []
      → items c launched.queue ≡ id ∷ []
  unfolding begin update_state start_processing
  launched_items h clear =
      ap (items c) (launched-session (o.config.session_of id c) before_session).1
      ∙ items_after h
      ∙ ap (λ xs. xs ++ id ∷ []) clear

  launched_rest :
      (launched.in_flight ≡ execution (new_task id message c now) c ∷ o.in_flight)
      × (JsMap.get id launched.processing_timers
          ≡ some (record { deadline = now + o.config.task_timeout_ms; fired = false }))
  unfolding begin
  launched_rest =
      let frame = launched-session (o.config.session_of id c) before_session in
      (frame.2, ap (JsMap.get id) frame.3 ∙ (rw (get-set, eq_refl) refl))

  -- With room in the queue of a channel session that is not processing and has nothing queued,
  -- createTask returns the id as RUNNING, the task is RUNNING, alone in the queue, with a new
  -- waiting execution and a timer set for the configured time from now.
  pub create_task_idle :
      length (items c o.queue) < o.queue.max_size_per_channel
      → is_processing c o.queue ≡ false
      → items c o.queue ≡ []
      → let p = create_task id message c now o in
        (p.1 ≡ some (id, running))
        × (state_of id p.0 ≡ some running)
        × (items c p.0.queue ≡ id ∷ [])
        × (p.0.in_flight ≡ execution (new_task id message c now) c ∷ o.in_flight)
        × (JsMap.get id p.0.processing_timers
            ≡ some (record { deadline = now + o.config.task_timeout_ms; fired = false }))
  unfolding enqueued
  create_task_idle h idle clear = rw (accepted_branch h) (
      rw (launch h idle clear) (
        rw launched_task (unfold updated in refl),
        rw launched_task (unfold updated in refl),
        launched_items h clear,
        launched_rest.0,
        launched_rest.1,
      ))
