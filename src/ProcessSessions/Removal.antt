-- ===== src/ProcessSessions/Removal.antt =====
-- Sessions that are removed, and the sweeps (ProcessSessionManager).
use moon_bot.Prelude.{
  ℕ, ◌+◌, ◌-◌, ◌*◌, String, Bool, true, false, ◌&&◌, ◌||◌, not, Option, none, some, List, [], ◌∷◌,
  length, ltb, if◌then◌else◌,
}
use moon_bot.JsMap
use moon_bot.JsMap.{JsMap, values, keys}
use moon_bot.ProcessSessions.{ManagerConfig, ProcessSession, ProcessSessions, count_of, is_running}

-- `if (currentCount > 1) … else …` of `removeSession`.
abbrev pub uncount : ℕ → String → JsMap ℕ → JsMap ℕ
uncount current user counts =
    if ltb 1 current then JsMap.set user (current - 1) counts else JsMap.delete user counts

abbrev pub remove_found : Option ProcessSession → String → ProcessSessions → ProcessSessions × Bool
remove_found none id m = (m, false)
remove_found (some p) id m = (
  record m {
    sessions = JsMap.delete id m.sessions;
    user_session_count = uncount (count_of p.user_id m) p.user_id m.user_session_count;
  },
  true,
)

-- The signal to a process that still runs changes nothing here until its exit is reported.
unfoldable pub remove_session : String → ProcessSessions → ProcessSessions × Bool
remove_session id m = remove_found (JsMap.get id m.sessions) id m

-- `age > limit` of the time since the last activity.
abbrev idle : ℕ → ℕ → ProcessSession → Bool
idle limit now p = ltb (p.last_activity_at + limit) now

abbrev pub is_expired : ManagerConfig → ℕ → ProcessSession → Bool
is_expired config now p =
    (not (is_running p.status) && idle config.idle_timeout_ms now p)
    || idle (config.idle_timeout_ms * 2) now p

unfoldable pub expired_ids : ManagerConfig → ℕ → JsMap ProcessSession → List String
expired_ids config now [] = []
expired_ids config now ((id, p) ∷ ps) =
    let rest = expired_ids config now ps in if is_expired config now p then id ∷ rest else rest

unfoldable pub remove_all : List String → ProcessSessions → ProcessSessions
remove_all [] m = m
remove_all (id ∷ ids) m = remove_all ids (remove_session id m).0

unfoldable pub cleanup_expired : ℕ → ProcessSessions → ProcessSessions × ℕ
cleanup_expired now m =
    let ids = expired_ids m.config now m.sessions in (remove_all ids m, length ids)

abbrev pub close_all : ProcessSessions → ProcessSessions
close_all m = remove_all (keys m.sessions) m
