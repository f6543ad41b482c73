-- ===== src/ProcessSessions/Counts.antt =====
-- The count of sessions that is kept for each user.
use moon_bot.Prelude.{ℕ, ◌+◌, ◌≡◌, String, none, some, arith, eq_iff, ◌==◌, if◌then◌else◌}
use moon_bot.JsMap
use moon_bot.JsMap.{JsMap, IsMap, keys}
use moon_bot.JsMap.Laws.{get-set, IsMap-set}
use moon_bot.JsMap.Counting.{count, one, count-set}
use moon_bot.ProcessSessions.{
  ProcessSessions, ProcessSession, count_of, is_of, begin_create, finish_create,
}

-- Each id once, each session under its id, and the count of each user right.
pub record IsCounted (m : ProcessSessions) : Type 0 where
  pub unique : IsMap m.sessions
  pub named : (id : String) (p : ProcessSession) → JsMap.get id m.sessions ≡ some p → p.id ≡ id
  pub right : (user : String) → count_of user m ≡ count (is_of user) m.sessions

finish_create-count :
    (captured : ℕ) (p : ProcessSession) (m : ProcessSessions) (user : String)
    → count_of user (finish_create captured p m)
      ≡ (if p.user_id == user then captured + 1 else count_of user m)
unfolding finish_create
finish_create-count captured p m user =
    ground (arith, get-set p.user_id user (captured + 1) m.user_session_count)

finish_create-sessions :
    (captured : ℕ) (p : ProcessSession) (m : ProcessSessions) (user : String)
    → JsMap.get p.id m.sessions ≡ none
    → count (is_of user) (finish_create captured p m).sessions
      ≡ count (is_of user) m.sessions + one (is_of user) p
unfolding finish_create
finish_create-sessions captured p m user fresh =
    ground (arith, count-set (is_of user) p.id p m.sessions)

pub finish_create-IsCounted :
    (p : ProcessSession) (m : ProcessSessions)
    → JsMap.get p.id m.sessions ≡ none
    → IsCounted m
    → IsCounted (finish_create (count_of p.user_id m) p m)
unfolding finish_create
finish_create-IsCounted p m fresh c = record {
  unique = IsMap-set p.id p m.sessions c.unique;
  named = λ id q e. ground (arith, get-set p.id id p m.sessions, eq_iff p.id id, c.named id q);
  right = λ user. ground (
    arith,
    finish_create-count (count_of p.user_id m) p m user,
    finish_create-sessions (count_of p.user_id m) p m user fresh,
    c.right user,
    c.right p.user_id,
    eq_iff p.user_id user,
  );
}

-- If two creations for a user have both passed the test of the limit before either has ended, then,
-- with right counts before and fresh ids, the user has afterwards one session more than the count
-- says.
pub race_undercounts :
    (p q : ProcessSession) (m : ProcessSessions) (captured : ℕ)
    → IsCounted m
    → begin_create p.user_id m ≡ some captured
    → begin_create q.user_id m ≡ some captured
    → p.user_id ≡ q.user_id
    → JsMap.get p.id m.sessions ≡ none
    → JsMap.get q.id (finish_create captured p m).sessions ≡ none
    → count (is_of p.user_id) (finish_create captured q (finish_create captured p m)).sessions
      ≡ count_of p.user_id (finish_create captured q (finish_create captured p m)) + 1
unfolding begin_create
race_undercounts p q m captured c hp hq same fresh fresh_next = ground (
  arith,
  finish_create-count captured q (finish_create captured p m) p.user_id,
  finish_create-sessions captured q (finish_create captured p m) p.user_id fresh_next,
  finish_create-sessions captured p m p.user_id fresh,
  c.right p.user_id,
  eq_iff q.user_id p.user_id,
  eq_iff p.user_id p.user_id,
)
