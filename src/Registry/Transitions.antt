-- ===== src/Registry/Transitions.antt =====
-- TaskRegistry.updateState: what it does on every branch, and the states that nothing leaves.
use moon_bot.Prelude.{
  ℕ, String, ◌≡◌, refl, ◌⊎◌, inl, inr, ◌≢◌, Bool, true, false, Option, none, some, [], ◌∷◌, ◌++◌,
  arith, eq_refl, ap, Option-cases, Bool-cases, test_of_ne,
}
use mathlib.Core.Option
use moon_bot.JsMap
use moon_bot.JsMap.Laws.{get-set}
use moon_bot.Task.{
  ChatMessage, TaskState, pending, running, paused, done, failed, aborted, is_terminal, TaskError,
  Task,
}
use moon_bot.Registry.{Registry, get, create, new_task, is_valid_transition, updated, update_state}

-- The lifecycle, as the diagram of the states draws it.
pub data Transition : TaskState → TaskState → Type 0 where
  start : Transition pending running
  reject : Transition pending failed
  drop : Transition pending aborted
  finish : Transition running done
  fail : Transition running failed
  pause : Transition running paused
  stop : Transition running aborted
  resume : Transition paused running
  deny : Transition paused aborted

Transition-valid : {s t : TaskState} → Transition s t → is_valid_transition s t ≡ true
unfolding is_valid_transition
Transition-valid start = refl
Transition-valid reject = refl
Transition-valid drop = refl
Transition-valid finish = refl
Transition-valid fail = refl
Transition-valid pause = refl
Transition-valid stop = refl
Transition-valid resume = refl
Transition-valid deny = refl

valid-Transition : (s t : TaskState) → is_valid_transition s t ≡ true → Transition s t
unfolding is_valid_transition
valid-Transition pending running h = start
valid-Transition pending failed h = reject
valid-Transition pending aborted h = drop
valid-Transition running done h = finish
valid-Transition running failed h = fail
valid-Transition running paused h = pause
valid-Transition running aborted h = stop
valid-Transition paused running h = resume
valid-Transition paused aborted h = deny
valid-Transition s t h = cc

pub state-updated :
    (new : TaskState) (result : Option String) (error : Option TaskError) (now : ℕ) (t : Task)
    → (updated new result error now t).state ≡ new
unfolding updated
state-updated new result error now t = ground arith

-- Nothing leaves a terminal state, and every other state can be left.
pub terminal-no_exit : (s t : TaskState) → is_terminal s ≡ true → is_valid_transition s t ≡ false
unfolding is_valid_transition
terminal-no_exit s t h = ground arith

module _ (id : String) (new : TaskState) (result : Option String) (error : Option TaskError)
    (now : ℕ) (r : Registry) where
  -- The registry after a transition of `t`.
  abbrev pub moved : Task → Registry
  moved t = record {
    tasks = JsMap.set id (updated new result error now t) r.tasks;
    events =
        r.events
        ++ record { task_id = id; previous_state = some t.state; new_state = new; timestamp = now }
          ∷ [];
  }

  pub update_state_missing : get id r ≡ none → update_state id new result error now r ≡ (r, false)
  unfolding update_state
  update_state_missing h = ground arith

  pub update_state_invalid :
      (t : Task)
      → get id r ≡ some t
      → is_valid_transition t.state new ≡ false
      → update_state id new result error now r ≡ (r, false)
  unfolding update_state
  update_state_invalid t h e = ground arith

  pub update_state_valid :
      (t : Task)
      → get id r ≡ some t
      → is_valid_transition t.state new ≡ true
      → update_state id new result error now r ≡ (moved t, true)
  unfolding update_state
  update_state_valid t h e = ground arith

  -- Whatever holds before, and after a transition of the task, holds after an update.
  pub update_state_rule {ℓ} :
      (P : Registry → Type ℓ)
      → P r
      → ((t : Task) → get id r ≡ some t → is_valid_transition t.state new ≡ true → P (moved t))
      → P (update_state id new result error now r).0
  update_state_rule P keep move = elim (Option-cases (get id r)) [
    | inl e ↦ rw (update_state_missing e) keep
    | inr (t, e) ↦ elim (Bool-cases (is_valid_transition t.state new)) [
      | inl v ↦ rw (update_state_valid t e v) (move t e v)
      | inr v ↦ rw (update_state_invalid t e v) keep
    ]
  ]

  -- Another task is not touched.
  pub get-update_state_ne :
      (j : String) → id ≢ j → get j (update_state id new result error now r).0 ≡ get j r
  get-update_state_ne j h =
      update_state_rule (λ q. get j q ≡ get j r) refl
        λ t _ _. unfold get in rw (get-set, test_of_ne id j h)

  pub get-moved_self : (t : Task) → get id (moved t) ≡ some (updated new result error now t)
  unfolding get
  get-moved_self t = rw (get-set, eq_refl)

-- updateState is refused, and then changes neither a task nor the events; or it is a transition of
-- the lifecycle, and then the task has the new state, the listeners are handed one event with both
-- states and the time, and every other task is as it was.
pub update_state_outcome :
    (id : String) (new : TaskState) (result : Option String) (error : Option TaskError) (now : ℕ)
    (r : Registry)
    → (((update_state id new result error now r).1 ≡ false)
        × ((update_state id new result error now r).0 ≡ r))
      ⊎ ((t : Task) × (get id r ≡ some t)
          × Transition t.state new
          × ((update_state id new result error now r).1 ≡ true)
          × (Option.map (λ (u : Task). u.state) (get id (update_state id new result error now r).0)
              ≡ some new)
          × ((update_state id new result error now r).0.events
              ≡ r.events
                ++ record {
                  task_id = id;
                  previous_state = some t.state;
                  new_state = new;
                  timestamp = now;
                }
                  ∷ [])
          × ((j : String) → id ≢ j → get j (update_state id new result error now r).0 ≡ get j r))
update_state_outcome id new result error now r = elim (Option-cases (get id r)) [
  | inl e ↦ inl (refused (update_state_missing id new result error now r e))
  | inr (t, e) ↦ elim (Bool-cases (is_valid_transition t.state new)) [
    | inl v ↦
        let step = update_state_valid id new result error now r t e v in
        inr (
          t,
          e,
          valid-Transition t.state new v,
          rw step refl,
          rw step (rw get-moved_self (ap some (state-updated new result error now t))),
          rw step refl,
          get-update_state_ne id new result error now r,
        )
    | inr v ↦ inl (refused (update_state_invalid id new result error now r t e v))
  ]
]
  where
    refused :
        update_state id new result error now r ≡ (r, false)
        → ((update_state id new result error now r).1 ≡ false)
          × ((update_state id new result error now r).0 ≡ r)
    refused e = (ap (λ (p : Registry × Bool). p.1) e, ap (λ (p : Registry × Bool). p.0) e)

pub get-create_self :
    (id : String) (message : ChatMessage) (c : String) (now : ℕ) (r : Registry)
    → get id (create id message c now r) ≡ some (new_task id message c now)
unfolding get create
get-create_self id message c now r = rw (get-set, eq_refl)

-- The entry of a task after a valid transition, whole.
pub get-update_state_self :
    (id : String) (new : TaskState) (result : Option String) (error : Option TaskError) (now : ℕ)
    (r : Registry) (t : Task)
    → get id r ≡ some t
    → is_valid_transition t.state new ≡ true
    → get id (update_state id new result error now r).0 ≡ some (updated new result error now t)
get-update_state_self id new result error now r t e v =
    rw (update_state_valid id new result error now r t e v)
      (get-moved_self id new result error now r t)
