-- ===== src/Tests/Approvals.antt =====
-- The approval store and the approval flow on concrete inputs.
use moon_bot.Prelude.{◌≡◌, refl, true, false, none, some, [], ◌∷◌, ◌==◌, if◌then◌else◌}
use moon_bot.JsMap
use moon_bot.ApprovalStore
use moon_bot.ApprovalStore.{
  ApprovalRequest, ApprovalStore, approved, rejected, is_pending, responded, set_all, load, save,
  load_content, of_content,
}
use moon_bot.ApprovalFlow
use moon_bot.ApprovalFlow.{
  FlowManager, ToolInvocation, granted, reply_to, new_status, request_of, already, handle_response,
  list_pending, not_found,
}
use moon_bot.ApprovalFlow.Contract.{recorded, answered, reply, response_effect}
use moon_bot.ApprovalFlow.Decided.{
  asks, responds, sweeps, registers, run, run_contract, recorded-run, decision_stands,
}
use moon_bot.ApprovalFlow.Race.{Response, race, race_answers_both}

abbrev invocation : ToolInvocation
invocation = record { id = "i"; tool_id = "system.run"; session_id = "s"; input = "{}" }

abbrev asked : ApprovalRequest
asked = request_of "approval-1" invocation 100 50

abbrev denied : ApprovalRequest
denied = responded rejected "u" 121 asked

abbrev store : ApprovalStore
store = ApprovalStore.new (some (asked ∷ []))

abbrev manager : FlowManager
manager = ApprovalFlow.new store (some 50)

recorded-asked : recorded "approval-1" manager ≡ some asked
unfolding set_all JsMap.get JsMap.set
recorded-asked = refl

response_effect_example :
    ((handle_response "approval-1" true "u" 120 121 manager).1
      ≡ reply "approval-1" true 120 (recorded "approval-1" manager))
    × (recorded "approval-1" (handle_response "approval-1" true "u" 120 121 manager).0 ≡ (
        if "approval-1" == "approval-1"
        then answered true "u" 120 121 (recorded "approval-1" manager)
        else recorded "approval-1" manager))
response_effect_example = response_effect "approval-1" "approval-1" true "u" 120 121 manager

recorded-run_example :
    recorded "approval-1" (run manager (registers "cli" "CliApproval" ∷ sweeps 150 ∷ []))
    ≡ run_contract 50 "approval-1"
        (recorded "approval-1" manager)
        (registers "cli" "CliApproval" ∷ sweeps 150 ∷ [])
recorded-run_example =
    recorded-run "approval-1" manager (registers "cli" "CliApproval" ∷ sweeps 150 ∷ [])

abbrev settled : FlowManager
settled = ApprovalFlow.new (ApprovalStore.new (some (denied ∷ []))) none

recorded-denied : recorded "approval-1" settled ≡ some denied
unfolding set_all JsMap.get JsMap.set
recorded-denied = refl

decision_stands_example :
    (recorded "approval-1" (
        run settled
          (responds "approval-1" true "v" 122 123 ∷ asks "approval-2" invocation 124 ∷ []))
      ≡ some denied)
    × ((handle_response "approval-1" true "v" 130 131 (
          run settled
            (responds "approval-1" true "v" 122 123 ∷ asks "approval-2" invocation 124 ∷ []))).1
        ≡ already rejected)
decision_stands_example =
    decision_stands "approval-1" denied settled
      (responds "approval-1" true "v" 122 123 ∷ asks "approval-2" invocation 124 ∷ []) true "v" 130
      131 recorded-denied refl (tt, (refl, tt))

abbrev yes : Response
yes = record { approved = true; user = "u"; now = 120; later = 121 }

abbrev no : Response
no = record { approved = false; user = "v"; now = 122; later = 123 }

race_answers_both_example :
    ((race "approval-1" yes no manager).1 ≡ granted)
    × ((race "approval-1" yes no manager).2 ≡ reply_to false)
    × (recorded "approval-1" (race "approval-1" yes no manager).0
        ≡ some (responded rejected "v" 123 asked))
race_answers_both_example =
    race_answers_both "approval-1" asked yes no manager recorded-asked refl refl refl
