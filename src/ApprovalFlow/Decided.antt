-- ===== src/ApprovalFlow/Decided.antt =====
-- ApprovalFlowManager: sequences of calls, one after the other, against the contract.
use moon_bot.Prelude.{
  ℕ, String, ◌≡◌, refl, ◌∙◌, ap, Bool, false, Option, some, List, [], ◌∷◌, arith, All, inl, inr,
  Bool-cases, eq_of_test, ◌==◌, if◌then◌else◌,
}
use moon_bot.ApprovalStore.{ApprovalRequest, is_pending}
use moon_bot.ApprovalFlow.{
  FlowManager, ToolInvocation, request_of, already, request_approval, handle_response,
  expire_pending, register_handler, unregister_handler,
}
use moon_bot.ApprovalFlow.Contract.{
  recorded, answered, expired_at, recorded-request_approval, response_effect,
  recorded-expire_pending, response_timeout,
}

pub data Call : Type 0 where
  asks : String → ToolInvocation → ℕ → Call
  responds : String → Bool → String → ℕ → ℕ → Call
  sweeps : ℕ → Call
  registers : String → String → Call
  unregisters : String → Call

unfoldable pub perform : FlowManager → Call → FlowManager
perform m (asks id i now) = (request_approval id i now m).0
perform m (responds id ok user now later) = (handle_response id ok user now later m).0
perform m (sweeps now) = expire_pending now m
perform m (registers surface handler) = register_handler surface handler m
perform m (unregisters surface) = unregister_handler surface m

unfoldable pub run : FlowManager → List Call → FlowManager
run m [] = m
run m (c ∷ cs) = run (perform m c) cs

-- What the contract says of the request under one id, which no other id has a part in.
unfoldable pub step_contract : ℕ → String → Option ApprovalRequest → Call → Option ApprovalRequest
step_contract timeout j o (asks id i now) =
    if id == j then some (request_of id i now timeout) else o
step_contract timeout j o (responds id ok user now later) =
    if id == j then answered ok user now later o else o
step_contract timeout j o (sweeps now) = expired_at now o
step_contract timeout j o (registers surface handler) = o
step_contract timeout j o (unregisters surface) = o

unfoldable pub run_contract :
    ℕ → String → Option ApprovalRequest → List Call → Option ApprovalRequest
run_contract timeout j o [] = o
run_contract timeout j o (c ∷ cs) = run_contract timeout j (step_contract timeout j o c) cs

perform-timeout :
    (m : FlowManager) (c : Call) → (perform m c).default_timeout_ms ≡ m.default_timeout_ms
unfolding perform request_approval expire_pending register_handler unregister_handler
perform-timeout m (asks id i now) = refl
perform-timeout m (responds id ok user now later) = response_timeout id ok user now later m
perform-timeout m (sweeps now) = refl
perform-timeout m (registers surface handler) = refl
perform-timeout m (unregisters surface) = refl

perform-Refines :
    (j : String) (m : FlowManager) (c : Call)
    → recorded j (perform m c) ≡ step_contract m.default_timeout_ms j (recorded j m) c
unfolding perform step_contract register_handler unregister_handler
perform-Refines j m (asks id i now) = recorded-request_approval id j i now m
perform-Refines j m (responds id ok user now later) =
    (response_effect id j ok user now later m).1 ∙ (elim (Bool-cases (id == j)) [
      | inl h ↦ rw h (ap (λ k. answered ok user now later (recorded k m)) (eq_of_test id j h))
      | inr h ↦ rw h refl
    ])
perform-Refines j m (sweeps now) = recorded-expire_pending now j m
perform-Refines j m (registers surface handler) = refl
perform-Refines j m (unregisters surface) = refl

-- Whatever calls are made one after the other, the request on record under each id is the one that
-- the contract, which looks at this id alone, has there.
pub recorded-run :
    (j : String) (m : FlowManager) (cs : List Call)
    → recorded j (run m cs) ≡ run_contract m.default_timeout_ms j (recorded j m) cs
unfolding run run_contract
recorded-run j m [] = refl
recorded-run j m (c ∷ cs) =
    recorded-run j (perform m c) cs ∙ rw (perform-timeout m c, perform-Refines j m c) refl

-- The call does not make the id anew.
abbrev pub NotAsking : String → Call → Type 0
NotAsking id (asks j i now) = (j == id) ≡ false
NotAsking id (responds j ok user now later) = Unit
NotAsking id (sweeps now) = Unit
NotAsking id (registers surface handler) = Unit
NotAsking id (unregisters surface) = Unit

step_contract-settled :
    (timeout : ℕ) (id : String) (r : ApprovalRequest) (c : Call)
    → is_pending r.status ≡ false
    → NotAsking id c
    → step_contract timeout id (some r) c ≡ some r
unfolding step_contract
step_contract-settled timeout id r (asks j i now) h d = rw d refl
step_contract-settled timeout id r (responds j ok user now later) h d = ground arith
step_contract-settled timeout id r (sweeps now) h d = ground arith
step_contract-settled timeout id r (registers surface handler) h d = refl
step_contract-settled timeout id r (unregisters surface) h d = refl

run_contract-settled :
    (timeout : ℕ) (id : String) (r : ApprovalRequest) (cs : List Call)
    → is_pending r.status ≡ false
    → All (NotAsking id) cs
    → run_contract timeout id (some r) cs ≡ some r
unfolding run_contract
run_contract-settled timeout id r [] h d = refl
run_contract-settled timeout id r (c ∷ cs) h d =
    rw (step_contract-settled timeout id r c h d.0) (run_contract-settled timeout id r cs h d.1)

-- A request that is on record as approved, rejected or expired stays so, whatever calls follow one
-- after the other, unless its id is made anew, and a later response to it is refused as already
-- resolved.
pub decision_stands :
    (id : String) (r : ApprovalRequest) (m : FlowManager) (cs : List Call) (ok : Bool)
    (user : String) (now later : ℕ)
    → recorded id m ≡ some r
    → is_pending r.status ≡ false
    → All (NotAsking id) cs
    → (recorded id (run m cs) ≡ some r)
      × ((handle_response id ok user now later (run m cs)).1 ≡ already r.status)
decision_stands id r m cs ok user now later e h d =
    let stays : recorded id (run m cs) ≡ some r =
      recorded-run id m cs ∙ rw e (run_contract-settled m.default_timeout_ms id r cs h d) in
    (stays, (response_effect id id ok user now later (run m cs)).0 ∙ rw (stays, h) refl)
