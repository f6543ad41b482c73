-- ===== src/ApprovalStore.antt =====
-- ApprovalStore (src/tools/approval/ApprovalStore.ts, types in types.ts): the requests in memory and
-- in the file. The file is the list of requests that it encodes, `none` where it is missing or cannot
-- be read; the input of a tool is its JSON text. Clock readings are arguments.
pub mod Persistence
use moon_bot.Prelude.{
  ℕ, String, Bool, true, false, Option, none, some, List, [], ◌∷◌, ◌&&◌, leb, ltb, filter,
  if◌then◌else◌,
}
use moon_bot.JsMap
use moon_bot.JsMap.{JsMap, values}

pub data ApprovalStatus : Type 0 where
  pending approved rejected expired : ApprovalStatus

abbrev pub is_pending : ApprovalStatus → Bool
is_pending pending = true
is_pending _ = false

pub record ApprovalRequest : Type 0 where
  pub id : String
  pub invocation_id : String
  pub tool_id : String
  pub session_id : String
  pub input : String
  pub status : ApprovalStatus
  pub user_id : String
  pub created_at : ℕ
  pub expires_at : ℕ
  pub responded_by : Option String
  pub responded_at : Option ℕ

pub record ApprovalStore : Type 0 where
  pub file : Option (List ApprovalRequest)
  pub requests : JsMap ApprovalRequest
  pub loaded : Bool

abbrev pub new : Option (List ApprovalRequest) → ApprovalStore
new file = record { file = file; requests = []; loaded = false }

-- `for (const request of data.requests) this.requests.set(request.id, request)`.
unfoldable pub set_all : List ApprovalRequest → JsMap ApprovalRequest → JsMap ApprovalRequest
set_all [] m = m
set_all (r ∷ rs) m = set_all rs (JsMap.set r.id r m)

abbrev pub of_content : Option (List ApprovalRequest) → JsMap ApprovalRequest
of_content none = []
of_content (some rs) = set_all rs []

-- `load`, from the point where the file's content has been read.
unfoldable pub load_content : Option (List ApprovalRequest) → ApprovalStore → ApprovalStore
load_content content s = record s { requests = of_content content; loaded = true }

unfoldable pub load : ApprovalStore → ApprovalStore
unfolding load_content
load s = load_content s.file s

unfoldable pub save : ApprovalStore → ApprovalStore
save s = record s { file = some (values s.requests) }

abbrev pub ensure_loaded : ApprovalStore → ApprovalStore
ensure_loaded s = if s.loaded then s else load s

unfoldable pub add : ApprovalRequest → ApprovalStore → ApprovalStore
unfolding save load
add r s = let s' = ensure_loaded s in save (record s' { requests = JsMap.set r.id r s'.requests })

unfoldable pub get : String → ApprovalStore → Option ApprovalRequest
get id s = JsMap.get id s.requests

abbrev pub is_listed : ℕ → ApprovalRequest → Bool
is_listed now r = is_pending r.status && ltb now r.expires_at

unfoldable pub list_pending : ℕ → ApprovalStore → List ApprovalRequest
list_pending now s = filter (is_listed now) (values s.requests)

unfoldable pub remove : String → ApprovalStore → ApprovalStore
unfolding save
remove id s = save (record s { requests = JsMap.delete id s.requests })

abbrev pub responded : ApprovalStatus → String → ℕ → ApprovalRequest → ApprovalRequest
responded status user now r = record r {
  status = status;
  responded_by = some user;
  responded_at = some now;
}

-- `updateStatus` up to its call of `save`; `none` where it throws.
unfoldable pub set_status :
    Option ApprovalRequest
    → String
    → ApprovalStatus
    → String
    → ℕ
    → ApprovalStore
    → Option ApprovalStore
set_status none id status user now s = none
set_status (some r) id status user now s =
    some (record s { requests = JsMap.set id (responded status user now r) s.requests })

unfoldable pub update_status :
    String → ApprovalStatus → String → ℕ → ApprovalStore → Option ApprovalStore
unfolding set_status get save
update_status id status user now s = elim (set_status (get id s) id status user now s) [
  | none ↦ none
  | some s' ↦ some (save s')
]

abbrev pub is_overdue : ℕ → ApprovalRequest → Bool
is_overdue now r = is_pending r.status && leb r.expires_at now

abbrev pub expire : ℕ → ApprovalRequest → ApprovalRequest
expire now r = if is_overdue now r then record r { status = expired } else r

unfoldable pub expire_all : ℕ → JsMap ApprovalRequest → JsMap ApprovalRequest
expire_all now [] = []
expire_all now ((id, r) ∷ m) = (id, expire now r) ∷ expire_all now m

unfoldable pub overdue_ids : ℕ → JsMap ApprovalRequest → List String
overdue_ids now [] = []
overdue_ids now ((id, r) ∷ m) =
    let rest = overdue_ids now m in if is_overdue now r then id ∷ rest else rest

unfoldable pub expire_pending : ℕ → ApprovalStore → ApprovalStore × List String
unfolding expire_all overdue_ids
expire_pending now s =
    (record s { requests = expire_all now s.requests }, overdue_ids now s.requests)

unfoldable pub get_all : ApprovalStore → List ApprovalRequest
get_all s = values s.requests
