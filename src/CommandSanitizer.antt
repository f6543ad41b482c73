-- ===== src/CommandSanitizer.antt =====
-- CommandSanitizer (src/tools/desktop/CommandSanitizer.ts). It tests a command as ApprovalManager does
-- and its directory with PathValidator; regular expressions and paths are parameters.
pub mod Safety
use moon_bot.Prelude.{
  String, Bool, true, false, Option, none, some, List, [], ◌∷◌, ◌++◌, concat, if◌then◌else◌,
}
use moon_bot.PathValidator
use moon_bot.PathValidator.{PathValidation, valid, invalid}
use moon_bot.ToolRuntime.ApprovalManager
use moon_bot.ToolRuntime.ApprovalManager.{Command, command_text, command_name, allows, denied_by}

pub record CommandSanitizer : Type 0 where
  pub denylist : List String
  pub allowlist : List String

abbrev pub default_denylist : List String
default_denylist =
    "rm\\s+-rf\\s+/?$" ∷ "rm\\s+-rf\\s+\\*" ∷ "del\\s+/[SQ]" ∷ "curl.*\\|.*sh" ∷ "wget.*\\|.*sh"
    ∷ "eval\\s+" ∷ "exec\\s+" ∷ "\\$\\(.+\\)" ∷ "sudo\\s+" ∷ "su\\s+" ∷ "chmod\\s+777"
    ∷ "chmod\\s+a\\+rw" ∷ "chown\\s+" ∷ ">\\s*/dev/" ∷ "<\\s+/dev/" ∷ ":\\(\\).*\\{" ∷ ">\\s+/etc/"
    ∷ ">\\s+/sys/" ∷ ">\\s+/proc/" ∷ []

abbrev pub default_allowlist : List String
default_allowlist =
    "git" ∷ "pnpm" ∷ "npm" ∷ "yarn" ∷ "bun" ∷ "node" ∷ "python" ∷ "python3" ∷ "deno" ∷ "pip"
    ∷ "cargo" ∷ "go" ∷ "make" ∷ "cmake" ∷ "ls" ∷ "cat" ∷ "head" ∷ "tail" ∷ "grep" ∷ "find" ∷ "stat"
    ∷ "file" ∷ "which" ∷ "where" ∷ "echo" ∷ "pwd" ∷ "cd" ∷ "mkdir" ∷ "cp" ∷ "mv" ∷ "tar" ∷ "zip"
    ∷ "unzip" ∷ []

abbrev or_list : Option (List String) → List String → List String
or_list none xs = xs
or_list (some ys) xs = ys

abbrev pub new : Option (List String) → Option (List String) → CommandSanitizer
new denylist allowlist = record {
  denylist = or_list denylist default_denylist;
  allowlist = or_list allowlist default_allowlist;
}

pub data Sanitization : Type 0 where
  safe : Sanitization
  unsafe : String → Option String → Sanitization
  -- The call throws: an empty `argv` has no first word to test.
  threw : Sanitization

abbrev pub add_denylist_pattern : String → CommandSanitizer → CommandSanitizer
add_denylist_pattern p s = record s { denylist = s.denylist ++ (p ∷ []) }

abbrev pub add_allowlist_command : String → CommandSanitizer → CommandSanitizer
add_allowlist_command c s = record s { allowlist = s.allowlist ++ (c ∷ []) }

module _ (matches : String → String → Option Bool) (normalize : String → String)
    (resolve : String → String → String) where
  abbrev pub path_check : PathValidation → Sanitization
  path_check (valid path) = safe
  path_check (invalid error) = unsafe (concat "Working directory outside workspace: " error) none

  abbrev pub unnamed_check : List String → Sanitization
  unnamed_check [] = unsafe "Command not in allowlist: undefined" none
  unnamed_check (c ∷ cs) = threw

  abbrev pub name_check : Option String → CommandSanitizer → String → String → Sanitization
  name_check none s cwd root = unnamed_check s.allowlist
  name_check (some name) s cwd root =
      if allows name s.allowlist
      then path_check (PathValidator.validate normalize resolve cwd root)
      else unsafe (concat "Command not in allowlist: " name) none

  abbrev pub denied_check :
      Option String → CommandSanitizer → Command → String → String → Sanitization
  denied_check none s command cwd root = name_check (command_name command) s cwd root
  denied_check (some p) s command cwd root = unsafe "Command matches dangerous pattern" (some p)

  unfoldable pub sanitize : CommandSanitizer → Command → String → String → Sanitization
  sanitize s command cwd root =
      denied_check (denied_by matches normalize (command_text command) s.denylist) s command cwd
        root

  abbrev pub sanitize_many : CommandSanitizer → List (Command × String) → String → List Sanitization
  sanitize_many s [] root = []
  sanitize_many s ((command, cwd) ∷ commands) root =
      sanitize s command cwd root ∷ sanitize_many s commands root
