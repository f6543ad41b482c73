-- ===== src/ProcessSessions/Captured.antt =====
-- What a creation that waits has captured is still the count (ProcessSessionManager).
use moon_bot.Prelude.{
  All, List, ◌∷◌, ◌==◌, ℕ, ◌+◌, ◌<◌, ap, ◌∙◌, ◌≡◌, String, false, Option, none, some, [], arith,
  Bool-cases, inl, inr, eq_iff, sym, subst,
}
use moon_bot.JsMap
use moon_bot.JsMap.{JsMap, IsMap, keys}
use moon_bot.JsMap.Laws.{get-set, get-delete}
use moon_bot.ProcessSessions.{
  ProcessSessions, ProcessSession, count_of, begin_create, finish_create, change,
}
use moon_bot.ProcessSessions.Removal.{remove_all, remove_session, remove_found}
use moon_bot.ProcessSessions.Limited.{uncounted}

abbrev pub IsOfNone : JsMap ℕ → Option ProcessSession → Type 0
IsOfNone waiting none = Unit
IsOfNone waiting (some p) = JsMap.get p.user_id waiting ≡ none

-- None of the sessions is of a user whose creation waits.
abbrev pub AreOfNone : JsMap ℕ → JsMap ProcessSession → List String → Type 0
AreOfNone waiting sessions ids = All (λ id. IsOfNone waiting (JsMap.get id sessions)) ids

-- What a waiting creation has captured is the count, below the limit.
abbrev pub AreCaptured : JsMap ℕ → ProcessSessions → Type 0
AreCaptured waiting m =
    (user : String) (captured : ℕ)
    → JsMap.get user waiting ≡ some captured
    → (captured ≡ count_of user m) × (captured < m.config.max_sessions_per_user)

pub begins-AreCaptured :
    (u : String) (n : ℕ) (waiting : JsMap ℕ) (m : ProcessSessions)
    → begin_create u m ≡ some n
    → AreCaptured waiting m
    → AreCaptured (JsMap.set u n waiting) m
unfolding begin_create
begins-AreCaptured u n waiting m h are user captured e =
    ground (arith, get-set u user n waiting, eq_iff u user, are user captured)

pub delete-AreCaptured :
    (u : String) (waiting : JsMap ℕ) (m : ProcessSessions)
    → AreCaptured waiting m
    → AreCaptured (JsMap.delete u waiting) m
delete-AreCaptured u waiting m are user captured e =
    ground (arith, get-delete u user waiting, are user captured)

pub finishes-AreCaptured :
    (p : ProcessSession) (n : ℕ) (waiting : JsMap ℕ) (m : ProcessSessions)
    → AreCaptured waiting m
    → AreCaptured (JsMap.delete p.user_id waiting) (finish_create n p m)
unfolding finish_create
finishes-AreCaptured p n waiting m are user captured e = ground (
  arith,
  get-delete p.user_id user waiting,
  are user captured,
  get-set p.user_id user (n + 1) m.user_session_count,
)

pub changed-AreCaptured :
    (f : ProcessSession → ProcessSession) (o : Option ProcessSession) (waiting : JsMap ℕ)
    (m : ProcessSessions)
    → AreCaptured waiting m
    → AreCaptured waiting (change f o m)
changed-AreCaptured f none waiting m are = are
changed-AreCaptured f (some p) waiting m are = are

pub removed-AreCaptured :
    (o : Option ProcessSession) (id : String) (waiting : JsMap ℕ) (m : ProcessSessions)
    → IsOfNone waiting o
    → AreCaptured waiting m
    → AreCaptured waiting (remove_found o id m).0
removed-AreCaptured none id waiting m free are user captured e = are user captured e
removed-AreCaptured (some p) id waiting m free are user captured e =
    let other : (p.user_id == user) ≡ false = elim (Bool-cases (p.user_id == user)) [
      | inl same ↦
          let clash =
            sym free ∙ ap (λ u. JsMap.get u waiting) ((eq_iff p.user_id user).0 same) ∙ e in
          ground arith
      | inr differs ↦ differs
    ] in
    ground (arith, uncounted p.user_id user m.user_session_count, are user captured e)

pub removed-IsOfNone :
    (o : Option ProcessSession) (id j : String) (waiting : JsMap ℕ) (m : ProcessSessions)
    → IsOfNone waiting (JsMap.get j m.sessions)
    → IsOfNone waiting (JsMap.get j (remove_found o id m).0.sessions)
removed-IsOfNone none id j waiting m h = h
removed-IsOfNone (some p) id j waiting m h =
    rw (get-delete id j m.sessions)
      (elim (Bool-cases (id == j)) [ inl same ↦ rw same tt | inr other ↦ rw other h ])

pub removed-AreOfNone :
    (id : String) (ids : List String) (waiting : JsMap ℕ) (m : ProcessSessions)
    → AreOfNone waiting m.sessions ids
    → AreOfNone waiting (remove_session id m).0.sessions ids
unfolding remove_session
removed-AreOfNone id [] waiting m free = tt
removed-AreOfNone id (j ∷ js) waiting m (h, free) = (
  removed-IsOfNone (JsMap.get id m.sessions) id j waiting m h,
  removed-AreOfNone id js waiting m free,
)

pub remove_all-AreCaptured :
    (ids : List String) (waiting : JsMap ℕ) (m : ProcessSessions)
    → AreOfNone waiting m.sessions ids
    → AreCaptured waiting m
    → AreCaptured waiting (remove_all ids m)
unfolding remove_all remove_session
remove_all-AreCaptured [] waiting m free are = are
remove_all-AreCaptured (id ∷ ids) waiting m (h, free) are =
    remove_all-AreCaptured ids waiting (remove_session id m).0
      (removed-AreOfNone id ids waiting m free)
      (removed-AreCaptured (JsMap.get id m.sessions) id waiting m h are)

pub none-AreCaptured :
    (waiting : JsMap ℕ) (m : ProcessSessions) → waiting ≡ [] → AreCaptured waiting m
unfolding JsMap.get
none-AreCaptured waiting m e =
    subst (λ ws. AreCaptured ws m) (sym e) (λ user captured h. ground arith)
