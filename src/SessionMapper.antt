-- ===== src/SessionMapper.antt =====
-- SessionTaskMapper (src/orchestrator/SessionTaskMapper.ts): which task a session works for, with a
-- time to live. Clock readings are arguments; the interval timer calls `auto_cleanup`.
pub mod Laws
use moon_bot.Prelude.{
  ℕ, ◌+◌, ◌-◌, String, Bool, true, false, not, Option, none, some, List, [], ◌∷◌, ltb, length, ◌==◌,
  if◌then◌else◌, is_some,
}
use moon_bot.JsMap
use moon_bot.JsMap.{JsMap, retain}

pub record SessionEntry : Type 0 where
  pub task_id : String
  pub created_at : ℕ

pub record SessionMapper : Type 0 where
  pub entries : JsMap SessionEntry
  pub ttl_ms : ℕ

abbrev pub default_ttl_ms : ℕ
default_ttl_ms = 3600000

abbrev pub new : ℕ → SessionMapper
new ttl = record { entries = []; ttl_ms = ttl }

unfoldable pub set : String → String → ℕ → SessionMapper → SessionMapper
set session_id task_id now m = record m {
  entries = JsMap.set session_id (record { task_id = task_id; created_at = now }) m.entries;
}

-- `Date.now() - entry.createdAt > this.ttlMs`, with the subtraction moved to the other side.
abbrev pub is_expired : ℕ → ℕ → SessionEntry → Bool
is_expired now ttl e = ltb (e.created_at + ttl) now

look : Option SessionEntry → String → ℕ → SessionMapper → SessionMapper × Option String
look none s now m = (m, none)
look (some e) s now m =
    if is_expired now m.ttl_ms e
    then (record m { entries = JsMap.delete s m.entries }, none)
    else (m, some e.task_id)

-- Drops the entry that it finds expired.
unfoldable pub get : String → ℕ → SessionMapper → SessionMapper × Option String
unfolding look
get s now m = look (JsMap.get s m.entries) s now m

unfoldable pub has : String → ℕ → SessionMapper → SessionMapper × Bool
unfolding get
has s now m = let (m', found) = get s now m in (m', is_some found)

unfoldable pub find_session_ids_by_task_id : String → JsMap SessionEntry → List String
find_session_ids_by_task_id task_id [] = []
find_session_ids_by_task_id task_id ((s, e) ∷ m) =
    let rest = find_session_ids_by_task_id task_id m in
    if e.task_id == task_id then s ∷ rest else rest

unfoldable pub get_session_ids_for_task : String → SessionMapper → List String
unfolding find_session_ids_by_task_id
get_session_ids_for_task task_id m = find_session_ids_by_task_id task_id m.entries

unfoldable pub delete_all : List String → JsMap SessionEntry → JsMap SessionEntry
delete_all [] m = m
delete_all (s ∷ ss) m = delete_all ss (JsMap.delete s m)

unfoldable pub cleanup_by_task_id : String → SessionMapper → SessionMapper × ℕ
unfolding delete_all get_session_ids_for_task
cleanup_by_task_id task_id m =
    let ids = get_session_ids_for_task task_id m in
    (record m { entries = delete_all ids m.entries }, length ids)

unfoldable pub delete : String → SessionMapper → SessionMapper × Bool
delete s m = (record m { entries = JsMap.delete s m.entries }, JsMap.has s m.entries)

unfoldable pub size : SessionMapper → ℕ
size m = length m.entries

unfoldable pub get_entries : JsMap SessionEntry → JsMap String
get_entries [] = []
get_entries ((s, e) ∷ m) = (s, e.task_id) ∷ get_entries m

unfoldable pub shutdown : SessionMapper → SessionMapper
shutdown m = record m { entries = [] }

-- `entry.createdAt < Date.now() - this.ttlMs`.
unfoldable pub auto_cleanup : ℕ → SessionMapper → SessionMapper × ℕ
auto_cleanup now m =
    let kept = retain (λ _ e. not (ltb (e.created_at + m.ttl_ms) now)) m.entries in
    (record m { entries = kept }, length m.entries - length kept)
