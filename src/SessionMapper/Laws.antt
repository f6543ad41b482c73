-- ===== src/SessionMapper/Laws.antt =====
-- SessionTaskMapper: which task a session is mapped to, after each of its calls.
use moon_bot.Prelude.{
  ℕ, ◌+◌, ◌≤◌, String, ◌≡◌, refl, Bool, false, not, ◌||◌, Option, none, some, List, [], ◌∷◌, arith,
  eq_iff, leb, ltb, ◌==◌, if◌then◌else◌,
}
use moon_bot.JsMap
use moon_bot.JsMap.{JsMap, IsMap, retain}
use moon_bot.JsMap.Laws.{get-set, get-delete, get-retain, kept}
use moon_bot.SessionMapper.{
  SessionMapper, SessionEntry, set, get, is_expired, find_session_ids_by_task_id, delete_all,
  cleanup_by_task_id, auto_cleanup,
}

abbrev pub live : ℕ → ℕ → Option SessionEntry → Option String
live now ttl none = none
live now ttl (some e) = if is_expired now ttl e then none else some e.task_id

-- The task that a session is mapped to at a time.
abbrev pub task_of : String → ℕ → SessionMapper → Option String
task_of s now m = (get s now m).1

pub task_of-eq-live :
    (s : String) (now : ℕ) (m : SessionMapper)
    → task_of s now m ≡ live now m.ttl_ms (JsMap.get s m.entries)
unfolding get
task_of-eq-live s now m = ground arith

-- After set, the session maps to the task up to and including the end of the time to live and to
-- none later, and every other session maps to what it did.
pub task_of-set :
    (s j task_id : String) (now later : ℕ) (m : SessionMapper)
    → task_of j later (set s task_id now m) ≡ (
        if s == j
        then (if leb later (now + m.ttl_ms) then some task_id else none)
        else task_of j later m)
task_of-set s j task_id now later m =
    rw (task_of-eq-live j later (set s task_id now m), task_of-eq-live j later m)
      (unfold set in rw get-set (ground arith))

gone_stays :
    (now later ttl : ℕ) (o : Option SessionEntry)
    → now ≤ later
    → live later ttl (kept (λ _ e. not (ltb (e.created_at + ttl) now)) "" o) ≡ live later ttl o
gone_stays now later ttl o h = ground arith

-- With unique keys, the sweep of expired mappings changes no lookup made at its time or later.
pub task_of-auto_cleanup :
    (s : String) (now later : ℕ) (m : SessionMapper)
    → IsMap m.entries
    → now ≤ later
    → task_of s later (auto_cleanup now m).0 ≡ task_of s later m
task_of-auto_cleanup s now later m u h =
    rw (task_of-eq-live s later (auto_cleanup now m).0, task_of-eq-live s later m)
      (unfold auto_cleanup in rw (get-retain _ s m.entries u) (gone_stays now later m.ttl_ms _ h))

-- Nor is the entry that a lookup drops.
pub task_of-get :
    (s j : String) (now later : ℕ) (m : SessionMapper)
    → now ≤ later
    → task_of j later (get s now m).0 ≡ task_of j later m
task_of-get s j now later m h =
    rw (task_of-eq-live j later (get s now m).0, task_of-eq-live j later m)
      (unfold get in ground (arith, eq_iff s j, get-delete s j m.entries))

unfoldable contains : List String → String → Bool
contains [] s = false
contains (x ∷ xs) s = x == s || contains xs s

get-delete_all :
    (ss : List String) (j : String) (m : JsMap SessionEntry)
    → JsMap.get j (delete_all ss m) ≡ (if contains ss j then none else JsMap.get j m)
unfolding delete_all contains
get-delete_all [] j m = refl
get-delete_all (s ∷ ss) j m =
    ground (arith, get-delete_all ss j (JsMap.delete s m), get-delete s j m)

abbrev is_for : String → Option SessionEntry → Bool
is_for task_id none = false
is_for task_id (some e) = e.task_id == task_id

found_in_map :
    (task_id j : String) (m : JsMap SessionEntry)
    → IsMap m
    → contains (find_session_ids_by_task_id task_id m) j ≡ is_for task_id (JsMap.get j m)
unfolding find_session_ids_by_task_id contains JsMap.get
found_in_map task_id j [] u = refl
found_in_map task_id j ((s, e) ∷ m) u = ground (arith, eq_iff s j, found_in_map task_id j m u.1)

abbrev pub unless_for : String → Option String → Option String
unless_for task_id none = none
unless_for task_id (some t) = if t == task_id then none else some t

-- With unique keys, after cleanupByTaskId no session maps to the task, and every mapping to another
-- task is found as before.
pub task_of-cleanup_by_task_id :
    (task_id s : String) (now : ℕ) (m : SessionMapper)
    → IsMap m.entries
    → task_of s now (cleanup_by_task_id task_id m).0 ≡ unless_for task_id (task_of s now m)
task_of-cleanup_by_task_id task_id s now m u =
    rw (task_of-eq-live s now (cleanup_by_task_id task_id m).0, task_of-eq-live s now m)
      (unfold cleanup_by_task_id in
        ground (
          arith,
          get-delete_all (find_session_ids_by_task_id task_id m.entries) s m.entries,
          found_in_map task_id s m.entries u,
        ))
