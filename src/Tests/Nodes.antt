-- ===== src/Tests/Nodes.antt =====
-- Node sessions on concrete inputs.
use moon_bot.Prelude.{
  ◌≡◌, refl, true, false, none, some, String, Bool, Option, [], ◌∷◌, ◌↔◌, concat,
}
use moon_bot.JsMap
use moon_bot.NodeSessions
use moon_bot.NodeSessions.{
  NodeSessions, NodeConnection, NodeInfo, default_config, new_node, count_node, put_node,
  generate_pairing_code, complete_pairing,
}
use moon_bot.NodeSessions.Upkeep.{
  mark_offline, remove_node, get_node, grant_screen_capture_consent, has_screen_capture_consent,
  consent_of, select_node_for_command,
}
use moon_bot.ToolRuntime.ApprovalManager.{argv}
use moon_bot.NodeCommandValidator
use moon_bot.NodeCommandValidator.{NodeCommandValidator}
use moon_bot.NodeCommandValidator.Validity.{IsPermitted}
use moon_bot.NodesTool.{run, screen_snap, handed}
use moon_bot.NodesTool.Consented.{HasConsent, snap_consented}
use moon_bot.NodesTool.Handing.{IsOwn, IsPlainIfGiven, IsHarmlessIfGiven, run_iff}
use moon_bot.NodeSessions.Counts.{IsCounted}
use moon_bot.NodeSessions.Steps.{here, next, generates, completes, loses, removes, Reach-IsCounted}

abbrev empty : NodeSessions
empty = NodeSessions.new default_config

abbrev laptop : NodeInfo
laptop = record {
  node_name = "laptop";
  platform = "linux";
  capabilities = record { screen_capture = true; command_exec = true };
}

abbrev asked : NodeSessions
asked = (generate_pairing_code "u" (λ n. "CODE") 1 1 empty).0

abbrev joined : NodeSessions
joined = (complete_pairing "CODE" "n1" "socket" laptop 2 2 asked).0

IsCounted-empty : IsCounted empty
unfolding JsMap.get JsMap.values
IsCounted-empty = record { unique = tt; right = λ user. refl }

nothing_yet : JsMap.get "n1" asked.nodes ≡ none
unfolding generate_pairing_code NodeSessions.get_nodes_for_user NodeSessions.add_pairing
    NodeSessions.unique_code NodeSessions.cleanup_expired_pairings JsMap.get JsMap.has JsMap.values
    JsMap.retain
nothing_yet = refl

Reach-IsCounted_example : IsCounted (remove_node "n1" (mark_offline "socket" joined)).0
Reach-IsCounted_example =
    Reach-IsCounted empty (remove_node "n1" (mark_offline "socket" joined)).0
      (next
        (next
          (next (next here (generates "u" (λ n. "CODE") 1 1))
            (completes "CODE" "n1" "socket" laptop 2 2 nothing_yet))
          (loses "socket"))
        (removes "n1"))
      IsCounted-empty

abbrev node : NodeConnection
node = new_node "n1" "socket" "u" laptop 2

abbrev one_node : NodeSessions
one_node = count_node "u" (put_node "n1" node empty)

there : JsMap.get "n1" one_node.nodes ≡ some node
unfolding JsMap.get JsMap.set
there = refl

abbrev never : String → String → Option Bool
never p text = some false

abbrev same : String → String
same path = path

abbrev behind_root : String → String → String
behind_root root path = concat root path

abbrev validator : NodeCommandValidator
validator = NodeCommandValidator.new never same same behind_root none none

run_iff_example :
    (run never same same behind_root "u" none
        (argv ("git" ∷ "status" ∷ []))
        (some "src")
        none
        validator
        one_node
      ≡ handed node)
    ↔ (IsPermitted never same same behind_root (argv ("git" ∷ "status" ∷ [])) validator
        × IsPlainIfGiven (some "src")
        × IsHarmlessIfGiven none
        × (select_node_for_command "u" none one_node ≡ some node)
        × (node.capabilities.command_exec ≡ true)
        × IsOwn "u" node)
run_iff_example =
    run_iff never same same behind_root "u" none (argv ("git" ∷ "status" ∷ [])) (some "src") none
      validator one_node node

abbrev or_same : Option NodeSessions → NodeSessions
or_same none = one_node
or_same (some s) = s

abbrev agreed : NodeSessions
agreed = or_same (grant_screen_capture_consent "n1" none 5 5 one_node)

abbrev open_node : NodeConnection
open_node = record node { screen_capture_consent = consent_of none 5 5 }

snapped : (screen_snap "u" (some "n1") 9 agreed).1 ≡ handed open_node
unfolding screen_snap grant_screen_capture_consent has_screen_capture_consent get_node JsMap.get
    JsMap.set
snapped = refl

snap_consented_example :
    IsOwn "u" open_node × (open_node.capabilities.screen_capture ≡ true) × HasConsent "n1" 9 agreed
snap_consented_example = snap_consented "u" (some "n1") 9 agreed open_node snapped
