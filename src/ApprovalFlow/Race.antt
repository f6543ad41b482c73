-- ===== src/ApprovalFlow/Race.antt =====
-- Two responses to one request whose reads of the file come before either's write.
use moon_bot.Prelude.{
  ℕ, String, ◌≡◌, refl, ◌∙◌, ap, Bool, true, false, Option, some, List, ltb, eq_refl,
}
use moon_bot.JsMap
use moon_bot.JsMap.Laws.{get-set}
use moon_bot.ApprovalStore
use moon_bot.ApprovalStore.{
  ApprovalStore, ApprovalRequest, is_pending, responded, of_content, load_content, set_status,
}
use moon_bot.ApprovalStore.Persistence.{IsKeyed-get, IsKeyed-of_content, IsKeyed-set, get-reload}
use moon_bot.ApprovalFlow.{
  FlowManager, Reply, decides, reply_to, new_status, judge, decide, written, conclude,
}
use moon_bot.ApprovalFlow.Contract.{recorded, conclude-store}

pub record Response : Type 0 where
  pub approved : Bool
  pub user : String
  pub now : ℕ
  pub later : ℕ

-- What `handle_response` does once the read has answered with `content`.
unfoldable pub respond :
    Option (List ApprovalRequest) → String → Response → FlowManager → FlowManager × Reply
respond content id r m =
    let (s, v) = decide content id r.approved r.user r.now r.later m.store in
    conclude v id r.approved (record m { store = written v s })

-- Both read the file as it is at first; then the one goes on, and then the other.
unfoldable pub race : String → Response → Response → FlowManager → FlowManager × Reply × Reply
unfolding respond
race id r₁ r₂ m =
    let (m₁, reply₁) = respond m.store.file id r₁ m in
    let (m₂, reply₂) = respond m.store.file id r₂ m₁ in (m₂, reply₁, reply₂)

module _ (content : Option (List ApprovalRequest)) (id : String) (q : ApprovalRequest)
    (r : Response) (m : FlowManager) (found : JsMap.get id (of_content content) ≡ some q)
    (waits : is_pending q.status ≡ true) (timely : ltb q.expires_at r.now ≡ false) where
  abbrev answer : ApprovalRequest
  answer = responded (new_status r.approved) r.user r.later q

  decided : decide content id r.approved r.user r.now r.later m.store ≡ (
    record (load_content content m.store) { requests = JsMap.set id answer (of_content content) },
    decides answer,
  )
  unfolding decide judge set_status load_content ApprovalStore.get
  decided = rw (found, waits, timely) refl

  respond-reply : (respond content id r m).1 ≡ reply_to r.approved
  unfolding respond conclude
  respond-reply = rw decided refl

  respond-recorded : recorded id (respond content id r m).0 ≡ some answer
  unfolding respond load_content ApprovalStore.save
  respond-recorded = rw decided (
      ap (λ (s : ApprovalStore). JsMap.get id (of_content s.file))
        (conclude-store (decides answer) id r.approved _)
      ∙ get-reload id (JsMap.set id answer (of_content content)) (
          IsKeyed-set id answer (of_content content)
            (IsKeyed-get id q (of_content content) (IsKeyed-of_content content) found)
            (IsKeyed-of_content content))
      ∙ get-set id id answer (of_content content)
      ∙ rw (eq_refl id) refl)

-- If two responses to a request that waits, both in time, read the file before either has written
-- it, then both are told that their decision holds, whatever the two decisions are, and the record
-- keeps the second alone.
pub race_answers_both :
    (id : String) (q : ApprovalRequest) (r₁ r₂ : Response) (m : FlowManager)
    → recorded id m ≡ some q
    → is_pending q.status ≡ true
    → ltb q.expires_at r₁.now ≡ false
    → ltb q.expires_at r₂.now ≡ false
    → ((race id r₁ r₂ m).1 ≡ reply_to r₁.approved)
      × ((race id r₁ r₂ m).2 ≡ reply_to r₂.approved)
      × (recorded id (race id r₁ r₂ m).0
          ≡ some (responded (new_status r₂.approved) r₂.user r₂.later q))
unfolding race
race_answers_both id q r₁ r₂ m found waits t₁ t₂ =
    let m₁ = (respond m.store.file id r₁ m).0 in
    (
      respond-reply m.store.file id q r₁ m found waits t₁,
      respond-reply m.store.file id q r₂ m₁ found waits t₂,
      respond-recorded m.store.file id q r₂ m₁ found waits t₂,
    )
