-- ===== src/ToolRuntime/ApprovalManager.antt =====
-- The check of a command against the lists of allowed and denied ones:
-- src/tools/runtime/ApprovalManager.ts. The regular expressions, the normal form of a path and the
-- reading of the configuration file are parameters.
use text.Mathlib.Text.{starts_with}
use mathlib.Core.List.{map}
use moon_bot.Prelude.{
  String, Bool, false, ◌||◌, Option, none, some, List, [], ◌∷◌, concat, ◌==◌, if◌then◌else◌,
}

pub record ApprovalConfig : Type 0 where
  pub commands : List String
  pub cwd_prefix : List String
  pub patterns : List String

-- `string | string[]`.
pub data Command : Type 0 where
  line : String → Command
  argv : List String → Command

pub data ApprovalCheck : Type 0 where
  approved : ApprovalCheck
  rejected : String → ApprovalCheck
  -- The call throws: an empty `argv` has no first word to test.
  threw : ApprovalCheck

abbrev pub default_config : ApprovalConfig
default_config = record {
  commands = "git" ∷ "pnpm" ∷ "npm" ∷ "node" ∷ "python" ∷ "python3" ∷ [];
  cwd_prefix = "$workspaceRoot" ∷ [];
  patterns =
      "rm\\s+-rf\\s+/" ∷ "curl.*\\|.*sh" ∷ "wget.*\\|.*sh" ∷ "sudo\\s+" ∷ "chmod\\s+777"
      ∷ ">\\s*/dev/" ∷ ":\\(\\).*\\{" ∷ "eval\\s+" ∷ "exec\\s+" ∷ [];
}

-- What the file holds, or the default where it cannot be read or parsed.
abbrev pub load_config : Option ApprovalConfig → ApprovalConfig
load_config none = default_config
load_config (some config) = config

-- `argv.join(" ")`.
abbrev pub join : List String → String
join [] = ""
join (s ∷ []) = s
join (s ∷ t ∷ ss) = concat s (concat " " (join (t ∷ ss)))

abbrev pub command_text : Command → String
command_text (line s) = s
command_text (argv args) = join args

-- `line.split(" ")[0]`.
abbrev first_word : String → String
first_word String.[] = ""
first_word (String.◌∷◌ c s) =
    let rest = first_word s in if String.◌∷◌ c String.[] == " " then "" else String.◌∷◌ c rest

-- None is `undefined`.
abbrev head : List String → Option String
head [] = none
head (s ∷ ss) = some s

abbrev pub command_name : Command → Option String
command_name (line s) = some (first_word s)
command_name (argv args) = head args

unfoldable pub allows : String → List String → Bool
allows name [] = false
allows name (command ∷ commands) =
    (name == command || starts_with name (concat command " ")) || allows name commands

unfoldable pub in_prefix : String → List String → Bool
in_prefix cwd [] = false
in_prefix cwd (p ∷ ps) = starts_with cwd p || in_prefix cwd ps

abbrev pub expand : String → String → String
expand workspace p = if p == "$workspaceRoot" then workspace else p

-- `matches p t`: whether the regular expression `p` is found in `t`, none where `p` is not one.
module _ (matches : String → String → Option Bool) (normalize : String → String) where
  abbrev pub hits : Option Bool → Bool
  hits none = false
  hits (some b) = b

  unfoldable pub denied_by : String → List String → Option String
  denied_by text [] = none
  denied_by text (p ∷ ps) = if hits (matches p text) then some p else denied_by text ps

  abbrev pub prefixes : ApprovalConfig → String → List String
  prefixes config workspace_root = map (expand (normalize workspace_root)) config.cwd_prefix

  abbrev cwd_check : ApprovalConfig → String → String → ApprovalCheck
  cwd_check config cwd workspace_root =
      if in_prefix (normalize cwd) (prefixes config workspace_root)
      then approved
      else rejected (concat "Working directory outside allowed prefix: " cwd)

  abbrev pub unnamed_check : List String → ApprovalCheck
  unnamed_check [] = rejected "Command not in allowlist: undefined"
  unnamed_check (command ∷ commands) = threw

  abbrev pub name_check : Option String → ApprovalConfig → String → String → ApprovalCheck
  name_check none config cwd workspace_root = unnamed_check config.commands
  name_check (some name) config cwd workspace_root =
      if allows name config.commands
      then cwd_check config cwd workspace_root
      else rejected (concat "Command not in allowlist: " name)

  abbrev pub denied_check :
      Option String → ApprovalConfig → Command → String → String → ApprovalCheck
  denied_check none config command cwd workspace_root =
      name_check (command_name command) config cwd workspace_root
  denied_check (some p) config command cwd workspace_root =
      rejected (concat "Command matches denied pattern: " p)

  unfoldable pub check_approval : ApprovalConfig → Command → String → String → ApprovalCheck
  check_approval config command cwd workspace_root =
      denied_check (denied_by (command_text command) config.patterns) config command cwd
        workspace_root
