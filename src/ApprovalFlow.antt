-- ===== src/ApprovalFlow.antt =====
-- ApprovalFlowManager (src/tools/approval/ApprovalFlowManager.ts). A response falls into the parts
-- between its awaits: `decide` runs once the file has been read, `written` is the write, `conclude`
-- the rest. `log` is what the handlers and the listeners have been handed, oldest first; a handler
-- that fails is only logged by the source. The random id and clock readings are arguments.
pub mod Contract
pub mod Decided
pub mod Listing
pub mod Race
use moon_bot.Prelude.{
  ℕ, ◌+◌, String, Bool, true, false, Option, none, some, List, [], ◌∷◌, ◌++◌, concat, ltb,
  if◌then◌else◌,
}
use moon_bot.JsMap
use moon_bot.JsMap.{JsMap}
use moon_bot.ApprovalStore
use moon_bot.ApprovalStore.{
  ApprovalStore, ApprovalRequest, ApprovalStatus, pending, approved, rejected, expired, is_pending,
  responded, load_content, set_status,
}

pub record ToolInvocation : Type 0 where
  pub id : String
  pub tool_id : String
  pub session_id : String
  pub input : String

pub data Notice : Type 0 where
  approval_requested : ToolInvocation → String → Notice
  approval_resolved : String → Bool → Notice
  sent_request : String → ApprovalRequest → Notice
  sent_update : String → ApprovalRequest → Notice

-- The handlers by surface, each by its name.
pub record FlowManager : Type 0 where
  pub store : ApprovalStore
  pub handlers : JsMap String
  pub default_timeout_ms : ℕ
  pub log : List Notice

abbrev or_five_minutes : Option ℕ → ℕ
or_five_minutes none = 300000
or_five_minutes (some ms) = ms

abbrev pub new : ApprovalStore → Option ℕ → FlowManager
new store timeout_ms = record {
  store = store;
  handlers = [];
  default_timeout_ms = or_five_minutes timeout_ms;
  log = [];
}

unfoldable pub register_handler : String → String → FlowManager → FlowManager
register_handler surface handler m = record m { handlers = JsMap.set surface handler m.handlers }

unfoldable pub unregister_handler : String → FlowManager → FlowManager
unregister_handler surface m = record m { handlers = JsMap.delete surface m.handlers }

unfoldable pub to_each : (String → Notice) → JsMap String → List Notice
to_each notice [] = []
to_each notice ((surface, handler) ∷ hs) = notice surface ∷ to_each notice hs

abbrev pub note : List Notice → FlowManager → FlowManager
note ns m = record m { log = m.log ++ ns }

abbrev pub request_of : String → ToolInvocation → ℕ → ℕ → ApprovalRequest
request_of id i now timeout = record {
  id = id;
  invocation_id = i.id;
  tool_id = i.tool_id;
  session_id = i.session_id;
  input = i.input;
  status = pending;
  user_id = "";
  created_at = now;
  expires_at = now + timeout;
  responded_by = none;
  responded_at = none;
}

unfoldable pub request_approval : String → ToolInvocation → ℕ → FlowManager → FlowManager × String
unfolding to_each
request_approval id i now m =
    let r = request_of id i now m.default_timeout_ms in
    (
      note (approval_requested i r.user_id ∷ to_each (λ s. sent_request s r) m.handlers)
          (record m { store = ApprovalStore.add r (ApprovalStore.load m.store) }),
      id,
    )

-- The `ToolResult` of a response.
pub data Reply : Type 0 where
  granted : Reply
  refused : String → String → Reply

abbrev pub status_text : ApprovalStatus → String
status_text pending = "pending"
status_text approved = "approved"
status_text rejected = "rejected"
status_text expired = "expired"

abbrev pub not_found : String → Reply
not_found id = refused "APPROVAL_NOT_FOUND" (concat "Approval request not found: " id)

abbrev pub already : ApprovalStatus → Reply
already s = refused "APPROVAL_ALREADY_RESOLVED" (concat "Approval request already " (status_text s))

abbrev pub too_late : Reply
too_late = refused "APPROVAL_EXPIRED" "Approval request has expired"

abbrev pub reply_to : Bool → Reply
reply_to true = granted
reply_to false = refused "APPROVAL_DENIED" "Tool execution was denied"

abbrev pub new_status : Bool → ApprovalStatus
new_status true = approved
new_status false = rejected

-- What the part after the read has come to: a reply with nothing to write, or the status written to
-- the request. The request is one object, so that the update sent later shows the new status.
pub data Verdict : Type 0 where
  refuses : Reply → Verdict
  expires : Verdict
  decides : ApprovalRequest → Verdict

abbrev or_same : ApprovalStore → Option ApprovalStore → ApprovalStore
or_same s none = s
or_same s (some s') = s'

abbrev mark : ApprovalRequest → String → ApprovalStatus → String → ℕ → ApprovalStore → ApprovalStore
mark r id status user now s = or_same s (set_status (some r) id status user now s)

unfoldable pub judge :
    Option ApprovalRequest
    → String
    → Bool
    → String
    → ℕ
    → ℕ
    → ApprovalStore
    → ApprovalStore × Verdict
unfolding set_status
judge none id ok user now later s = (s, refuses (not_found id))
judge (some r) id ok user now later s =
    if is_pending r.status
    then (if ltb r.expires_at now then (mark r id expired user later s, expires) else (
      mark r id (new_status ok) user later s,
      decides (responded (new_status ok) user later r),
    ))
    else (s, refuses (already r.status))

unfoldable pub decide :
    Option (List ApprovalRequest)
    → String
    → Bool
    → String
    → ℕ
    → ℕ
    → ApprovalStore
    → ApprovalStore × Verdict
unfolding judge load_content
decide content id ok user now later s =
    let s' = load_content content s in judge (ApprovalStore.get id s') id ok user now later s'

abbrev pub written : Verdict → ApprovalStore → ApprovalStore
written (refuses reply) s = s
written expires s = ApprovalStore.save s
written (decides r) s = ApprovalStore.save s

unfoldable pub conclude : Verdict → String → Bool → FlowManager → FlowManager × Reply
unfolding to_each
conclude (refuses reply) id ok m = (m, reply)
conclude expires id ok m = (m, too_late)
conclude (decides r) id ok m = (
  note (to_each (λ s. sent_update s r) m.handlers ++ approval_resolved id ok ∷ []) m,
  reply_to ok,
)

-- The clock is read for the expiry and again for `respondedAt`.
unfoldable pub handle_response : String → Bool → String → ℕ → ℕ → FlowManager → FlowManager × Reply
unfolding decide conclude
handle_response id ok user now later m =
    let (s, v) = decide m.store.file id ok user now later m.store in
    conclude v id ok (record m { store = written v s })

abbrev updates : JsMap String → Option ApprovalRequest → List Notice
updates hs none = []
updates hs (some r) = to_each (λ s. sent_update s r) hs

unfoldable pub updates_of : JsMap String → ApprovalStore → List String → List Notice
unfolding to_each
updates_of hs s [] = []
updates_of hs s (id ∷ ids) = updates hs (ApprovalStore.get id s) ++ updates_of hs s ids

unfoldable pub saved_if_any : List String → ApprovalStore → ApprovalStore
saved_if_any [] s = s
saved_if_any (id ∷ ids) s = ApprovalStore.save s

unfoldable pub expire_pending : ℕ → FlowManager → FlowManager
unfolding updates_of saved_if_any
expire_pending now m =
    let (s, ids) = ApprovalStore.expire_pending now (ApprovalStore.load m.store) in
    note (updates_of m.handlers s ids) (record m { store = saved_if_any ids s })

abbrev pub list_pending : ℕ → FlowManager → List ApprovalRequest
list_pending now m = ApprovalStore.list_pending now m.store

abbrev pub get : String → FlowManager → Option ApprovalRequest
get id m = ApprovalStore.get id m.store
