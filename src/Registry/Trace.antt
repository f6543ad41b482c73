-- ===== src/Registry/Trace.antt =====
-- Sequences of calls of TaskRegistry, and what they keep.
use moon_bot.Prelude.{ℕ, String, Option}
use moon_bot.Task.{TaskState, TaskError, ChatMessage}
use moon_bot.Registry.{Registry, create, update_state, cleanup}
use moon_bot.Registry.Events.{
  IsConsistent, IsFresh, IsSettled, create-IsConsistent, update_state-IsConsistent,
  cleanup-IsConsistent, create-IsSettled, update_state-IsSettled, cleanup-IsSettled,
}

pub data Trace (r : Registry) : Registry → Type 0 where
  start : Trace r r
  creates :
      {q : Registry} (id : String) (message : ChatMessage) (c : String) (now : ℕ)
      → Trace r q
      → IsFresh id q
      → Trace r (create id message c now q)
  updates :
      {q : Registry} (id : String) (new : TaskState) (result : Option String)
      (error : Option TaskError) (now : ℕ)
      → Trace r q
      → Trace r (update_state id new result error now q).0
  cleans : {q : Registry} (older_than now : ℕ) → Trace r q → Trace r (cleanup older_than now q).0

pub Trace-IsConsistent : {r q : Registry} → IsConsistent r → Trace r q → IsConsistent q
Trace-IsConsistent c start = c
Trace-IsConsistent c (creates id message csid now t fresh) =
    create-IsConsistent id message csid now _ (Trace-IsConsistent c t) fresh
Trace-IsConsistent c (updates id new result error now t) =
    update_state-IsConsistent id new result error now _ (Trace-IsConsistent c t)
Trace-IsConsistent c (cleans older_than now t) =
    cleanup-IsConsistent older_than now _ (Trace-IsConsistent c t)

pub Trace-IsSettled :
    {r q : Registry} (k : String) (s : TaskState)
    → IsConsistent r
    → IsSettled k s r
    → Trace r q
    → IsSettled k s q
Trace-IsSettled k s c h start = h
Trace-IsSettled k s c h (creates id message csid now t fresh) =
    create-IsSettled k s _ (Trace-IsConsistent c t) (Trace-IsSettled k s c h t) id message csid now
      fresh
Trace-IsSettled k s c h (updates id new result error now t) =
    update_state-IsSettled k s _ (Trace-IsConsistent c t) (Trace-IsSettled k s c h t) id new result
      error now
Trace-IsSettled k s c h (cleans older_than now t) =
    cleanup-IsSettled k s _ (Trace-IsConsistent c t) (Trace-IsSettled k s c h t) older_than now
