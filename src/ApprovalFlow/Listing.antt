-- ===== src/ApprovalFlow/Listing.antt =====
-- ApprovalFlowManager.listPending, and the responses to what it lists.
use moon_bot.Prelude.{
  ℕ, String, ◌≡◌, refl, ◌∙◌, true, false, none, some, List, [], ◌∷◌, arith, Bool-cases, inl, inr,
  eq_iff, ltb, filter, All,
}
use moon_bot.JsMap
use moon_bot.JsMap.{JsMap, values}
use moon_bot.ApprovalStore
use moon_bot.ApprovalStore.{
  ApprovalStore, ApprovalRequest, is_pending, is_listed, of_content, load_content,
}
use moon_bot.ApprovalStore.Persistence.{IsKeyed, IsKeyed-of_content}
use moon_bot.ApprovalFlow.{FlowManager, granted, handle_response, list_pending}
use moon_bot.ApprovalFlow.Contract.{response_effect}

-- A request on record that would be taken in time.
abbrev Answerable : ℕ → JsMap ApprovalRequest → ApprovalRequest → Type 0
Answerable now m r =
    (JsMap.get r.id m ≡ some r) × (is_pending r.status ≡ true) × (ltb r.expires_at now ≡ false)

later_key :
    (now : ℕ) (j : String) (q : ApprovalRequest) (m : JsMap ApprovalRequest)
    (rs : List ApprovalRequest)
    → JsMap.get j m ≡ none
    → All (Answerable now m) rs
    → All (Answerable now ((j, q) ∷ m)) rs
unfolding JsMap.get
later_key now j q m [] h a = tt
later_key now j q m (r ∷ rs) h a =
    (ground (arith, eq_iff j r.id, h, a.0.0, a.0.1, a.0.2), later_key now j q m rs h a.1)

head_Answerable :
    (now : ℕ) (j : String) (r : ApprovalRequest) (m : JsMap ApprovalRequest)
    → r.id ≡ j
    → is_listed now r ≡ true
    → Answerable now ((j, r) ∷ m) r
unfolding JsMap.get
head_Answerable now j r m h l = ground (arith, eq_iff j r.id, h, l)

listed-Answerable :
    (now : ℕ) (m : JsMap ApprovalRequest)
    → IsKeyed m
    → All (Answerable now m) (filter (is_listed now) (values m))
unfolding values
listed-Answerable now [] k = tt
listed-Answerable now ((j, r) ∷ m) k =
    let rest =
      later_key now j r m (filter (is_listed now) (values m)) k.1 (listed-Answerable now m k.2) in
    elim (Bool-cases (is_listed now r)) [
      | inl h ↦ rw h (head_Answerable now j r m k.0 h, rest)
      | inr h ↦ rw h rest
    ]

Answerable-granted :
    (now later : ℕ) (user : String) (m : FlowManager) (rs : List ApprovalRequest)
    → All (Answerable now (of_content m.store.file)) rs
    → All (λ r. (handle_response r.id true user now later m).1 ≡ granted) rs
Answerable-granted now later user m [] a = tt
Answerable-granted now later user m (r ∷ rs) a = (
  (response_effect r.id r.id true user now later m).0 ∙ rw (a.0.0, a.0.1, a.0.2) refl,
  Answerable-granted now later user m rs a.1,
)

-- Each request that listPending shows at a time, the file having just been read, would be granted
-- if it were approved at that time.
pub listed-granted :
    (now later : ℕ) (user : String) (m : FlowManager)
    → All
        (λ r. (handle_response r.id true user now later m).1 ≡ granted)
        (list_pending now (record m { store = ApprovalStore.load m.store }))
unfolding ApprovalStore.load load_content ApprovalStore.list_pending
listed-granted now later user m =
    Answerable-granted now later user m _
      (listed-Answerable now (of_content m.store.file) (IsKeyed-of_content m.store.file))
