-- ===== src/NodeCommandValidator.antt =====
-- NodeCommandValidator (src/tools/nodes/NodeCommandValidator.ts). Regular expressions and paths are
-- parameters: `matches p s` is whether the expression `p` is found in `s` without regard to case,
-- none where `p` is not one, `base` is `path.basename`.
pub mod Validity
use Prim.Native.Char.{code}
use text.Mathlib.Text.{starts_with}
use moon_bot.Prelude.{
  ℕ, ◌+◌, String, Bool, true, false, ◌&&◌, ◌||◌, not, Option, none, some, List, [], ◌∷◌, ◌++◌, ◌*◌,
  length, filter, leb, ltb, ◌==◌, if◌then◌else◌,
}
use moon_bot.Text.{Text, codes, contains, same_code}
use moon_bot.JsMap
use moon_bot.JsMap.{JsMap}
use moon_bot.ToolRuntime.ApprovalManager.{Command, line, argv, command_text}

-- Why a command is refused, in place of the words.
pub data Problem : Type 0 where
  too_long : ℕ → Problem
  dangerous not_listed : String → Problem
  traversal outside_base : Problem
  forbidden_key suspicious_value : String → Problem

pub data ValidationResult : Type 0 where
  valid : ValidationResult
  invalid : Problem → ValidationResult
  -- The call throws: an empty `argv` has no first word for `path.basename`.
  threw : ValidationResult

pub record NodeCommandValidator : Type 0 where
  pub max_output_size : ℕ
  pub max_argv_length : ℕ
  pub allowlist : List String
  pub blocklist : List String

abbrev pub default_allowlist : List String
default_allowlist =
    "npm" ∷ "pnpm" ∷ "yarn" ∷ "bun" ∷ "node" ∷ "python" ∷ "python3" ∷ "ruby" ∷ "go" ∷ "rustc"
    ∷ "cargo" ∷ "git" ∷ "make" ∷ "cmake" ∷ "gcc" ∷ "g++" ∷ "clang" ∷ "clang++" ∷ "ls" ∷ "cat"
    ∷ "head" ∷ "tail" ∷ "grep" ∷ "find" ∷ "file" ∷ "stat" ∷ "uname" ∷ "hostname" ∷ "whoami" ∷ "df"
    ∷ "du" ∷ "ps" ∷ "top" ∷ "ping" ∷ "curl" ∷ "wget" ∷ "nslookup" ∷ "dig" ∷ "echo" ∷ "printf"
    ∷ "date" ∷ "which" ∷ "whereis" ∷ "type" ∷ []

abbrev pub default_blocklist : List String
default_blocklist =
    "rm\\s+-rf" ∷ "rm\\s+-r\\s+/" ∷ "rmdir" ∷ "del" ∷ "delete" ∷ "format" ∷ "fdisk" ∷ "mkfs"
    ∷ "shutdown" ∷ "reboot" ∷ "poweroff" ∷ "halt" ∷ "sudo\\s+" ∷ "su\\s+" ∷ "doas\\s+"
    ∷ "dd\\s+if=/dev" ∷ "mkfs" ∷ ":\\(\\).*\\{" ∷ ">\\s*/dev/sda" ∷ ">\\s*/dev/sdb"
    ∷ "curl.*\\|.*sh" ∷ "wget.*\\|.*sh" ∷ "\\|\\s*sh" ∷ "\\|\\s*bash" ∷ "eval\\s+" ∷ "exec\\s+"
    ∷ "\\$\\(.+\\)" ∷ "`[^`]+`" ∷ "\\$\\{[^}]+\\}" ∷ "\\.\\.\\/" ∷ "\\\\.\\." ∷ ";\\s*rm"
    ∷ "&&\\s*rm" ∷ "\\|\\|\\s*rm" ∷ []

abbrev or_number : Option ℕ → ℕ → ℕ
or_number none n = n
or_number (some m) n = m

abbrev pub member : String → List String → Bool
member x [] = false
member x (y ∷ ys) = x == y || member x ys

abbrev one_of : ℕ → List ℕ → Bool
one_of c [] = false
one_of c (d ∷ ds) = same_code c d || one_of c ds

-- A character that `\s` stands for: the blanks and line ends of ASCII and of Unicode.
abbrev pub is_blank : ℕ → Bool
is_blank c =
    (leb 9 c && leb c 13)
    || (leb 8192 c && leb c 8202)
    || one_of c (32 ∷ 160 ∷ 5760 ∷ 8232 ∷ 8233 ∷ 8239 ∷ 8287 ∷ 12288 ∷ 65279 ∷ [])

-- `text.length`: a character past the basic plane is two units of UTF-16.
unfoldable pub units : Text → ℕ
units [] = 0
units (c ∷ s) = let rest = units s in if leb 65536 c then 2 + rest else 1 + rest

-- `text.split(/\s+/)[0]`.
abbrev pub first_word : String → String
first_word String.[] = ""
first_word (String.◌∷◌ c s) =
    let rest = first_word s in if is_blank (code c) then "" else String.◌∷◌ c rest

abbrev head : List String → Option String
head [] = none
head (s ∷ ss) = some s

abbrev pub named : Command → Option String
named (line s) = some (first_word s)
named (argv args) = head args

abbrev pub is_control : ℕ → Bool
is_control c = ltb c 32 || leb 127 c && leb c 127

abbrev pub clean : String → String
clean String.[] = ""
clean (String.◌∷◌ c s) =
    let rest = clean s in if is_control (code c) then rest else String.◌∷◌ c rest

abbrev clean_each : List String → List String
clean_each [] = []
clean_each (s ∷ ss) = clean s ∷ clean_each ss

abbrev pub sanitize_arguments : Command → List String
sanitize_arguments (line s) = clean s ∷ []
sanitize_arguments (argv args) = clean_each args

abbrev pub is_output_size_valid : ℕ → NodeCommandValidator → Bool
is_output_size_valid size v = leb size v.max_output_size

abbrev pub add_allowlist_command : String → NodeCommandValidator → NodeCommandValidator
add_allowlist_command c v = record v {
  allowlist = if member c v.allowlist then v.allowlist else v.allowlist ++ (c ∷ []);
}

abbrev pub remove_allowlist_command : String → NodeCommandValidator → NodeCommandValidator
remove_allowlist_command c v = record v { allowlist = filter (λ d. not (d == c)) v.allowlist }

abbrev pub dangerous_keys : List String
dangerous_keys = "PATH" ∷ "LD_PRELOAD" ∷ "DYLD_INSERT_LIBRARIES" ∷ []

abbrev pub has_dangerous : List String → JsMap String → Option String
has_dangerous [] env = none
has_dangerous (k ∷ ks) env = if JsMap.has k env then some k else has_dangerous ks env

abbrev pub is_suspicious : String → Bool
is_suspicious value = contains ".." value || contains "|" value || contains ";" value

abbrev pub suspicious : JsMap String → Option String
suspicious [] = none
suspicious ((k, value) ∷ env) = if is_suspicious value then some k else suspicious env

abbrev pub value_check : Option String → ValidationResult
value_check none = valid
value_check (some k) = invalid (suspicious_value k)

abbrev pub key_check : Option String → JsMap String → ValidationResult
key_check none env = value_check (suspicious env)
key_check (some k) env = invalid (forbidden_key k)

unfoldable pub validate_env : JsMap String → ValidationResult
validate_env env = key_check (has_dangerous dangerous_keys env) env

module _ (matches : String → String → Option Bool) (base : String → String)
    (normalize : String → String) (resolve : String → String → String) where
  abbrev pub is_regexp : Option Bool → Bool
  is_regexp none = false
  is_regexp (some b) = true

  -- An expression that cannot be compiled is left out.
  abbrev compiled : List String → List String
  compiled [] = []
  compiled (p ∷ ps) = let rest = compiled ps in if is_regexp (matches p "") then p ∷ rest else rest

  abbrev pub new : Option ℕ → Option ℕ → NodeCommandValidator
  new output argv_length = record {
    max_output_size = or_number output (10 * 1024 * 1024);
    max_argv_length = or_number argv_length 10000;
    allowlist = default_allowlist;
    blocklist = compiled default_blocklist;
  }

  abbrev pub hits : Option Bool → Bool
  hits none = false
  hits (some b) = b

  abbrev pub blocked_by : String → List String → Option String
  blocked_by text [] = none
  blocked_by text (p ∷ ps) = if hits (matches p text) then some p else blocked_by text ps

  abbrev pub name_check : Option String → List String → ValidationResult
  name_check none allowlist = threw
  name_check (some name) allowlist =
      if member (base name) allowlist then valid else invalid (not_listed (base name))

  abbrev pub blocked_check : Option String → Command → List String → ValidationResult
  blocked_check none command allowlist = name_check (named command) allowlist
  blocked_check (some p) command allowlist = invalid (dangerous p)

  unfoldable pub validate_arguments : Command → NodeCommandValidator → ValidationResult
  validate_arguments command v =
      if ltb v.max_argv_length (units (codes (command_text command)))
      then invalid (too_long v.max_argv_length)
      else blocked_check (blocked_by (command_text command) v.blocklist) command v.allowlist

  abbrev pub base_check : String → Option String → ValidationResult
  base_check cwd none = valid
  base_check cwd (some allowed) =
      if allowed == "" || starts_with (resolve (normalize allowed) cwd) (normalize allowed)
      then valid
      else invalid outside_base

  unfoldable pub validate_cwd : String → Option String → ValidationResult
  validate_cwd cwd allowed = if contains ".." cwd then invalid traversal else base_check cwd allowed
