-- ===== src/Registry/Events.antt =====
-- TaskRegistry: what a listener can rebuild from the events alone, against the tasks.
use moon_bot.Prelude.{
  ℕ, String, ◌≡◌, refl, ◌∙◌, Bool, true, not, Option, none, some, List, [], ◌∷◌, ◌++◌, arith,
  eq_iff, ◌==◌, if◌then◌else◌,
}
use moon_bot.JsMap
use moon_bot.JsMap.{JsMap, IsMap, retain}
use moon_bot.JsMap.Laws.{get-set, get-retain-some, IsMap-set, IsMap-retain}
use moon_bot.Task.{TaskState, pending, is_terminal, ChatMessage, TaskError, Task, TaskEvent}
use moon_bot.Registry.{
  Registry, get, create, is_valid_transition, updated, update_state, cleanup, new_task, is_stale,
}
use moon_bot.Registry.Transitions.{update_state_rule, terminal-no_exit, state-updated}

abbrev pub View : Type 0
View = String → Option TaskState

abbrev pub nothing_seen : View
nothing_seen id = none

abbrev pub see : View → TaskEvent → View
see v e id = if e.task_id == id then some e.new_state else v id

-- A listener's table of states after some events.
unfoldable pub observe : View → List TaskEvent → View
observe v [] = v
observe v (e ∷ es) = observe (see v e) es

-- A task is created once, and then moves along the lifecycle from where it was.
abbrev pub Allowed : View → TaskEvent → Option TaskState → Type 0
Allowed v e none = (v e.task_id ≡ none) × (e.new_state ≡ pending)
Allowed v e (some s) = (v e.task_id ≡ some s) × (is_valid_transition s e.new_state ≡ true)

abbrev pub IsLegal : View → List TaskEvent → Type 0
IsLegal v [] = Unit
IsLegal v (e ∷ es) = Allowed v e e.previous_state × IsLegal (see v e) es

observe-append :
    (v : View) (es : List TaskEvent) (e : TaskEvent)
    → observe v (es ++ e ∷ []) ≡ see (observe v es) e
unfolding observe
observe-append v [] e = refl
observe-append v (x ∷ es) e = observe-append (see v x) es e

IsLegal-append :
    (v : View) (es : List TaskEvent) (e : TaskEvent)
    → IsLegal v es
    → Allowed (observe v es) e e.previous_state
    → IsLegal v (es ++ e ∷ [])
unfolding observe
IsLegal-append v [] e h a = (a, tt)
IsLegal-append v (x ∷ es) e h a = (h.0, IsLegal-append (see v x) es e h.1 a)

abbrev pub seen : Registry → View
seen r = observe nothing_seen r.events

-- The registry and its listeners agree.
pub record IsConsistent (r : Registry) : Type 0 where
  pub unique : IsMap r.tasks
  pub ids : (k : String) (t : Task) → get k r ≡ some t → t.id ≡ k
  pub agrees : (k : String) (t : Task) → get k r ≡ some t → seen r k ≡ some t.state
  pub legal : IsLegal nothing_seen r.events

-- The id of a new task has never been used.
abbrev pub IsFresh : String → Registry → Type 0
IsFresh id r = seen r id ≡ none

id-updated :
    (new : TaskState) (result : Option String) (error : Option TaskError) (now : ℕ) (t : Task)
    → (updated new result error now t).id ≡ t.id
unfolding updated
id-updated new result error now t = ground arith

-- One more event of a task, and its new entry in the map: what the two emitting operations share.
module _ (r : Registry) (c : IsConsistent r) (e : TaskEvent) (t : Task) where
  abbrev next : Registry
  next = record { tasks = JsMap.set e.task_id t r.tasks; events = r.events ++ e ∷ [] }

  next-IsConsistent :
      t.id ≡ e.task_id
      → t.state ≡ e.new_state
      → Allowed (seen r) e e.previous_state
      → IsConsistent next
  unfolding get
  next-IsConsistent i s a = record {
    unique = IsMap-set e.task_id t r.tasks c.unique;
    ids = λ k u h. ground (arith, eq_iff e.task_id k, get-set e.task_id k t r.tasks, c.ids k u);
    agrees = λ k u h.
        rw observe-append
          (ground (arith, eq_iff e.task_id k, get-set e.task_id k t r.tasks, c.agrees k u));
    legal = IsLegal-append nothing_seen r.events e c.legal a;
  }

pub create-IsConsistent :
    (id : String) (message : ChatMessage) (channel_session_id : String) (now : ℕ) (r : Registry)
    → IsConsistent r
    → IsFresh id r
    → IsConsistent (create id message channel_session_id now r)
unfolding create
create-IsConsistent id message csid now r c fresh =
    next-IsConsistent r c _ (new_task id message csid now) refl refl (fresh, refl)

pub update_state-IsConsistent :
    (id : String) (new : TaskState) (result : Option String) (error : Option TaskError) (now : ℕ)
    (r : Registry)
    → IsConsistent r
    → IsConsistent (update_state id new result error now r).0
update_state-IsConsistent id new result error now r c =
    update_state_rule id new result error now r IsConsistent c λ t e v.
      next-IsConsistent r c _ (updated new result error now t)
        (id-updated new result error now t ∙ c.ids id t e) (state-updated new result error now t)
        (c.agrees id t e, v)

pub cleanup-IsConsistent :
    (older_than now : ℕ) (r : Registry) → IsConsistent r → IsConsistent (cleanup older_than now r).0
unfolding cleanup get
cleanup-IsConsistent older_than now r c =
    let keep : String → Task → Bool = λ _ t. not (is_stale older_than now t) in
    record {
      unique = IsMap-retain keep r.tasks c.unique;
      ids = λ k t h. c.ids k t (get-retain-some keep k r.tasks t c.unique h).0;
      agrees = λ k t h. c.agrees k t (get-retain-some keep k r.tasks t c.unique h).0;
      legal = c.legal;
    }

-- A finished task: its last event showed a terminal state.
pub record IsSettled (id : String) (s : TaskState) (r : Registry) : Type 0 where
  pub shown : seen r id ≡ some s
  pub final : is_terminal s ≡ true

module _ (k : String) (s : TaskState) (r : Registry) (c : IsConsistent r)
    (h : IsSettled k s r) where
  pub create-IsSettled :
      (id : String) (message : ChatMessage) (channel_session_id : String) (now : ℕ)
      → IsFresh id r
      → IsSettled k s (create id message channel_session_id now r)
  unfolding create
  create-IsSettled id message csid now fresh = record {
    shown = rw observe-append (ground (arith, eq_iff id k, h.shown));
    final = h.final;
  }

  pub update_state-IsSettled :
      (id : String) (new : TaskState) (result : Option String) (error : Option TaskError) (now : ℕ)
      → IsSettled k s (update_state id new result error now r).0
  update_state-IsSettled id new result error now =
      update_state_rule id new result error now r (IsSettled k s) h λ t e v. record {
        shown =
            rw observe-append (
              ground
                (arith, eq_iff id k, c.agrees id t e, h.shown, terminal-no_exit s new h.final));
        final = h.final;
      }

  pub cleanup-IsSettled : (older_than now : ℕ) → IsSettled k s (cleanup older_than now r).0
  unfolding cleanup
  cleanup-IsSettled older_than now = record { shown = h.shown; final = h.final }
