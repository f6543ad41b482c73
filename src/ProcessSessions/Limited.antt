-- ===== src/ProcessSessions/Limited.antt =====
-- What keeps the counts right and the users within the limit (ProcessSessionManager).
use moon_bot.Prelude.{
  ℕ, ◌+◌, ◌-◌, ◌≤◌, ◌<◌, ◌≡◌, refl, String, Option, none, some, List, [], ◌∷◌, arith, eq_iff, ◌==◌,
  if◌then◌else◌, sym, subst,
}
use moon_bot.JsMap
use moon_bot.JsMap.{JsMap, IsMap, keys}
use moon_bot.JsMap.Laws.{get-set, get-delete, IsMap-set, IsMap-delete}
use moon_bot.JsMap.Counting.{count-set, count-delete}
use moon_bot.ProcessSessions.{
  ProcessSessions, ProcessSession, ManagerConfig, count_of, is_of, finish_create, or_zero, change,
  new,
}
use moon_bot.ProcessSessions.Removal.{remove_session, remove_all, remove_found, uncount}
use moon_bot.ProcessSessions.Counts.{IsCounted, finish_create-IsCounted}

-- The counts are right, and no user is past the limit.
pub record IsLimited (m : ProcessSessions) : Type 0 where
  pub counted : IsCounted m
  pub limited : (user : String) → count_of user m ≤ m.config.max_sessions_per_user

pub creates-IsLimited :
    (p : ProcessSession) (captured : ℕ) (m : ProcessSessions)
    → (captured ≡ count_of p.user_id m) × (captured < m.config.max_sessions_per_user)
    → JsMap.get p.id m.sessions ≡ none
    → IsLimited m
    → IsLimited (finish_create captured p m)
unfolding finish_create
creates-IsLimited p captured m (same, room) fresh l = record {
  counted =
      subst (λ n. IsCounted (finish_create n p m)) (sym same)
        (finish_create-IsCounted p m fresh l.counted);
  limited = λ user. ground (
    arith,
    get-set p.user_id user (captured + 1) m.user_session_count,
    l.limited user,
    eq_iff p.user_id user,
  );
}

-- Fields of a session that is there are set, but not its id or its user.
pub change-IsLimited :
    (f : ProcessSession → ProcessSession) (o : Option ProcessSession) (id : String)
    (m : ProcessSessions)
    → ((p : ProcessSession) → ((f p).id ≡ p.id) × ((f p).user_id ≡ p.user_id))
    → JsMap.get id m.sessions ≡ o
    → IsLimited m
    → IsLimited (change f o m)
change-IsLimited f none id m keeps e l = l
change-IsLimited f (some p) id m keeps e l =
    let c = l.counted in
    record {
      counted = record {
        unique = IsMap-set p.id (f p) m.sessions c.unique;
        named = λ k q h.
            ground (arith, get-set p.id k (f p) m.sessions, eq_iff p.id k, c.named k q, keeps p);
        right = λ user. ground (
          arith,
          c.right user,
          c.named id p e,
          count-set (is_of user) p.id (f p) m.sessions,
          keeps p,
        );
      };
      limited = l.limited;
    }

pub uncounted :
    (u user : String) (counts : JsMap ℕ)
    → or_zero (JsMap.get user (uncount (or_zero (JsMap.get u counts)) u counts))
      ≡ or_zero (JsMap.get user counts) - (if u == user then 1 else 0)
uncounted u user counts = ground (
  arith,
  get-set u user (or_zero (JsMap.get u counts) - 1) counts,
  get-delete u user counts,
  eq_iff u user,
)

pub remove-IsLimited :
    (o : Option ProcessSession) (id : String) (m : ProcessSessions)
    → JsMap.get id m.sessions ≡ o
    → IsLimited m
    → IsLimited (remove_found o id m).0
remove-IsLimited none id m e l = l
remove-IsLimited (some p) id m e l =
    let c = l.counted in
    record {
      counted = record {
        unique = IsMap-delete id m.sessions c.unique;
        named = λ k q h. ground (arith, get-delete id k m.sessions, c.named k q);
        right = λ user. ground (
          arith,
          uncounted p.user_id user m.user_session_count,
          count-delete (is_of user) id m.sessions c.unique,
          c.right user,
        );
      };
      limited =
          λ user. ground (arith, uncounted p.user_id user m.user_session_count, l.limited user);
    }

pub remove_session-IsLimited :
    (id : String) (m : ProcessSessions) → IsLimited m → IsLimited (remove_session id m).0
unfolding remove_session
remove_session-IsLimited id m l = remove-IsLimited (JsMap.get id m.sessions) id m refl l

pub remove_all-IsLimited :
    (ids : List String) (m : ProcessSessions) → IsLimited m → IsLimited (remove_all ids m)
unfolding remove_all
remove_all-IsLimited [] m l = l
remove_all-IsLimited (id ∷ ids) m l =
    remove_all-IsLimited ids (remove_session id m).0 (remove_session-IsLimited id m l)

pub new-IsLimited : (config : ManagerConfig) → IsLimited (new config)
unfolding JsMap.get JsMap.values
new-IsLimited config = record {
  counted = record { unique = tt; named = λ id p e. ground arith; right = λ user. refl };
  limited = λ user. omega arith;
}
