-- ===== src/ApprovalFlow/Contract.antt =====
-- The contract of ApprovalFlowManager: each call as a function of the request that is on record under
-- its id. The record is the file, which every call reads first.
use moon_bot.Prelude.{
  ℕ, String, ◌≡◌, refl, ◌∙◌, ap, Bool, true, Option, none, some, List, [], ◌∷◌, arith, eq_iff, ltb,
  ◌==◌, if◌then◌else◌, inl, inr, Bool-cases,
}
use moon_bot.JsMap
use moon_bot.JsMap.{JsMap, values}
use moon_bot.JsMap.Laws.{get-set}
use moon_bot.ApprovalStore
use moon_bot.ApprovalStore.{
  ApprovalStore, ApprovalRequest, expired, is_pending, responded, of_content, load_content,
  set_status, expire, expire_all, overdue_ids,
}
use moon_bot.ApprovalStore.Persistence.{
  IsKeyed-set, IsKeyed-of_content, get-reload, get-expire_all, IsKeyed-expire_all, IsKeyed-get,
}
use moon_bot.ApprovalFlow.{
  FlowManager, Reply, ToolInvocation, Verdict, refuses, expires, decides, request_of, not_found,
  already, too_late, reply_to, new_status, request_approval, judge, decide, written, conclude,
  handle_response, saved_if_any, expire_pending,
}

abbrev pub recorded : String → FlowManager → Option ApprovalRequest
recorded id m = JsMap.get id (of_content m.store.file)

-- The request after a response.
abbrev pub answered : Bool → String → ℕ → ℕ → Option ApprovalRequest → Option ApprovalRequest
answered ok user now later none = none
answered ok user now later (some r) = some (
    if is_pending r.status
    then responded (if ltb r.expires_at now then expired else new_status ok) user later r
    else r)

-- The reply to it.
abbrev pub reply : String → Bool → ℕ → Option ApprovalRequest → Reply
reply id ok now none = not_found id
reply id ok now (some r) =
    if is_pending r.status
    then (if ltb r.expires_at now then too_late else reply_to ok)
    else already r.status

abbrev pub expired_at : ℕ → Option ApprovalRequest → Option ApprovalRequest
expired_at now none = none
expired_at now (some r) = some (expire now r)

pub recorded-request_approval :
    (id j : String) (i : ToolInvocation) (now : ℕ) (m : FlowManager)
    → recorded j (request_approval id i now m).0
      ≡ (if id == j then some (request_of id i now m.default_timeout_ms) else recorded j m)
unfolding request_approval ApprovalStore.add ApprovalStore.load load_content ApprovalStore.save
recorded-request_approval id j i now m =
    let r = request_of id i now m.default_timeout_ms in
    get-reload j (JsMap.set id r (of_content m.store.file))
      (IsKeyed-set id r (of_content m.store.file) refl (IsKeyed-of_content m.store.file))
    ∙ get-set id j r (of_content m.store.file)

module _ (id j : String) (ok : Bool) (user : String) (now later : ℕ) (s : ApprovalStore) where
  abbrev loaded : ApprovalStore
  loaded = record s { requests = of_content s.file; loaded = true }

  rewritten :
      (r : ApprovalRequest)
      → r.id ≡ id
      → JsMap.get j (of_content (some (values (JsMap.set id r (of_content s.file)))))
        ≡ (if id == j then some r else JsMap.get j (of_content s.file))
  rewritten r h =
      get-reload j (JsMap.set id r (of_content s.file))
        (IsKeyed-set id r (of_content s.file) h (IsKeyed-of_content s.file))
      ∙ get-set id j r (of_content s.file)

  unchanged :
      (o : Option ApprovalRequest)
      → JsMap.get id (of_content s.file) ≡ o
      → JsMap.get j (of_content s.file) ≡ (if id == j then o else JsMap.get j (of_content s.file))
  unchanged o h = ground (arith, eq_iff id j)

  judged :
      (o : Option ApprovalRequest)
      → JsMap.get id (of_content s.file) ≡ o
      → JsMap.get j (
          of_content
            (written
              (judge o id ok user now later loaded).1
              (judge o id ok user now later loaded).0).file)
        ≡ (if id == j then answered ok user now later o else JsMap.get j (of_content s.file))
  unfolding judge set_status ApprovalStore.save
  judged none h = unchanged none h
  judged (some r) h = elim (Bool-cases (is_pending r.status)) [
    | inl p ↦ elim (Bool-cases (ltb r.expires_at now)) [
      | inl late ↦
          rw (p, late)
            (rewritten (responded expired user later r)
              (IsKeyed-get id r (of_content s.file) (IsKeyed-of_content s.file) h))
      | inr timely ↦
          rw (p, timely)
            (rewritten (responded (new_status ok) user later r)
              (IsKeyed-get id r (of_content s.file) (IsKeyed-of_content s.file) h))
    ]
    | inr p ↦ rw p (unchanged (some r) h)
  ]

pub conclude-store :
    (v : Verdict) (id : String) (ok : Bool) (m : FlowManager)
    → (conclude v id ok m).0.store ≡ m.store
unfolding conclude
conclude-store (refuses r) id ok m = refl
conclude-store expires id ok m = refl
conclude-store (decides r) id ok m = refl

judge-reply :
    (o : Option ApprovalRequest) (id : String) (ok : Bool) (user : String) (now later : ℕ)
    (s : ApprovalStore) (m : FlowManager)
    → (conclude (judge o id ok user now later s).1 id ok m).1 ≡ reply id ok now o
unfolding judge conclude
judge-reply none id ok user now later s m = refl
judge-reply (some r) id ok user now later s m = ground arith

-- The reply to a response is decided by the request on record: not found, already resolved,
-- expired, denied or granted; a request that waits becomes approved, rejected or, after its time,
-- expired, with the user and the time, and no other request changes.
pub response_effect :
    (id j : String) (ok : Bool) (user : String) (now later : ℕ) (m : FlowManager)
    → ((handle_response id ok user now later m).1 ≡ reply id ok now (recorded id m))
      × (recorded j (handle_response id ok user now later m).0
          ≡ (if id == j then answered ok user now later (recorded id m) else recorded j m))
unfolding handle_response decide load_content ApprovalStore.get
response_effect id j ok user now later m =
    let s = record m.store { requests = of_content m.store.file; loaded = true } in
    let o = recorded id m in
    (
      judge-reply o id ok user now later s _,
      ap (λ t. JsMap.get j (of_content t.file)) (conclude-store _ id ok _)
          ∙ judged id j ok user now later m.store o refl,
    )

overdue_none :
    (now : ℕ) (j : String) (m : JsMap ApprovalRequest)
    → overdue_ids now m ≡ []
    → JsMap.get j m ≡ expired_at now (JsMap.get j m)
unfolding overdue_ids JsMap.get
overdue_none now j [] h = refl
overdue_none now j ((i, r) ∷ m) h = ground (arith, overdue_none now j m)

saved_if_any-expired :
    (now : ℕ) (j : String) (ids : List String) (s : ApprovalStore)
    → overdue_ids now (of_content s.file) ≡ ids
    → JsMap.get j (
        of_content
          (saved_if_any ids
            (record s { requests = expire_all now (of_content s.file); loaded = true })).file)
      ≡ expired_at now (JsMap.get j (of_content s.file))
unfolding saved_if_any ApprovalStore.save
saved_if_any-expired now j [] s h = overdue_none now j (of_content s.file) h
saved_if_any-expired now j (i ∷ ids) s h =
    get-reload j (expire_all now (of_content s.file))
      (IsKeyed-expire_all now (of_content s.file) (IsKeyed-of_content s.file))
    ∙ get-expire_all now j (of_content s.file)

pub recorded-expire_pending :
    (now : ℕ) (j : String) (m : FlowManager)
    → recorded j (expire_pending now m) ≡ expired_at now (recorded j m)
unfolding expire_pending ApprovalStore.expire_pending ApprovalStore.load load_content
recorded-expire_pending now j m = saved_if_any-expired now j _ m.store refl

conclude-timeout :
    (v : Verdict) (id : String) (ok : Bool) (m : FlowManager)
    → (conclude v id ok m).0.default_timeout_ms ≡ m.default_timeout_ms
unfolding conclude
conclude-timeout (refuses r) id ok m = refl
conclude-timeout expires id ok m = refl
conclude-timeout (decides r) id ok m = refl

pub response_timeout :
    (id : String) (ok : Bool) (user : String) (now later : ℕ) (m : FlowManager)
    → (handle_response id ok user now later m).0.default_timeout_ms ≡ m.default_timeout_ms
unfolding handle_response
response_timeout id ok user now later m = conclude-timeout _ id ok _
