-- ===== src/Replanner/Selector.antt =====
-- AlternativeSelector (src/agents/replanner/AlternativeSelector.ts): the tools that may stand in for
-- a tool. Of the available tools their ids are kept.
use moon_bot.Prelude.{
  String, Bool, true, false, not, Option, none, some, List, [], ◌∷◌, ◌++◌, leb, ltb, filter, length,
  ◌==◌, if◌then◌else◌,
}
use moon_bot.JsMap
use moon_bot.JsMap.{JsMap}
use moon_bot.Replanner.Types.{AlternativeTool, ToolFailure}

pub record AlternativeSelector : Type 0 where
  pub alternatives : JsMap (List AlternativeTool)
  pub available_tools : List String

abbrev pub first : String → AlternativeTool
first id = record { tool_id = id; priority = 1; requires_approval = none }

abbrev pub default_alternatives : JsMap (List AlternativeTool)
default_alternatives =
    ("browser.goto", first "http.request" ∷ [])
    ∷ ("browser.search", first "http.request" ∷ [])
    ∷ ("browser.open", first "http.request" ∷ [])
    ∷ ("http.request", record (first "browser.goto") { requires_approval = some false } ∷ [])
    ∷ ("filesystem.read", [])
    ∷ ("system.run", [])
    ∷ ("filesystem.write", [])
    ∷ []

-- `{ ...a, ...b }`.
unfoldable pub spread :
    JsMap (List AlternativeTool) → JsMap (List AlternativeTool) → JsMap (List AlternativeTool)
spread a [] = a
spread a ((k, v) ∷ b) = spread (JsMap.set k v a) b

abbrev pub new : List String → JsMap (List AlternativeTool) → AlternativeSelector
new tools custom = record {
  alternatives = spread default_alternatives custom;
  available_tools = tools;
}

unfoldable pub has_tool : String → List String → Bool
has_tool id [] = false
has_tool id (t ∷ ts) = if t == id then true else has_tool id ts

-- `sort((a, b) => a.priority - b.priority)`, which is stable.
unfoldable pub insert : AlternativeTool → List AlternativeTool → List AlternativeTool
insert a [] = a ∷ []
insert a (b ∷ bs) =
    let rest = insert a bs in if leb a.priority b.priority then a ∷ b ∷ bs else b ∷ rest

unfoldable pub sort : List AlternativeTool → List AlternativeTool
unfolding insert
sort [] = []
sort (a ∷ as') = insert a (sort as')

abbrev pub or_nil : Option (List AlternativeTool) → List AlternativeTool
or_nil none = []
or_nil (some xs) = xs

abbrev pub configured : String → AlternativeSelector → List AlternativeTool
configured tool_id s = or_nil (JsMap.get tool_id s.alternatives)

unfoldable pub find_alternatives : ToolFailure → AlternativeSelector → List AlternativeTool
unfolding has_tool sort
find_alternatives f s =
    sort (filter (λ a. has_tool a.tool_id s.available_tools) (configured f.tool_id s))

abbrev pub head? : List AlternativeTool → Option AlternativeTool
head? [] = none
head? (a ∷ rest) = some a

unfoldable pub select_best :
    ToolFailure → List String → AlternativeSelector → Option AlternativeTool
unfolding find_alternatives has_tool
select_best f attempted s =
    head? (filter (λ a. not (has_tool a.tool_id attempted)) (find_alternatives f s))

unfoldable pub has_alternatives : String → AlternativeSelector → Bool
has_alternatives tool_id s = ltb 0 (length (configured tool_id s))

unfoldable pub add_alternative :
    String → AlternativeTool → AlternativeSelector → AlternativeSelector
add_alternative tool_id a s = record s {
  alternatives = JsMap.set tool_id (configured tool_id s ++ a ∷ []) s.alternatives;
}

abbrev pub update_tools : List String → AlternativeSelector → AlternativeSelector
update_tools tools s = record s { available_tools = tools }
