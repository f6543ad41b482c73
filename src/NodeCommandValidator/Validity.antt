-- ===== src/NodeCommandValidator/Validity.antt =====
-- Which commands, directories and environments NodeCommandValidator lets through.
use moon_bot.Prelude.{
  ◌≤◌, ◌≡◌, refl, String, Bool, true, false, Option, none, some, List, [], ◌∷◌, arith, ◌↔◌, All,
  Any, eq_iff, some-injective,
}
use moon_bot.Text.{codes, contains}
use moon_bot.JsMap
use moon_bot.JsMap.{JsMap}
use moon_bot.ToolRuntime.ApprovalManager.{Command, command_text}
use moon_bot.NodeCommandValidator.{
  NodeCommandValidator, units, valid, member, named, dangerous_keys, has_dangerous, is_suspicious,
  suspicious, value_check, key_check, validate_env, hits, blocked_by, name_check, blocked_check,
  validate_arguments, validate_cwd,
}

pub member_iff : (x : String) (ys : List String) → (member x ys ≡ true) ↔ Any (λ y. x ≡ y) ys
member_iff x [] = (λ h. ground arith, λ h. absurd h)
member_iff x (y ∷ ys) =
    let below = member_iff x ys in
    (λ h. ground (arith, below, eq_iff x y), λ h. ground (arith, below, eq_iff x y))

-- None of the keys is set, and no value has "..", "|" or ";".
abbrev pub IsHarmless : JsMap String → Type 0
IsHarmless env =
    All (λ k. JsMap.has k env ≡ false) dangerous_keys × All (λ p. is_suspicious p.1 ≡ false) env

has_dangerous_iff :
    (ks : List String) (env : JsMap String)
    → (has_dangerous ks env ≡ none) ↔ All (λ k. JsMap.has k env ≡ false) ks
has_dangerous_iff [] env = (λ h. tt, λ h. refl)
has_dangerous_iff (k ∷ ks) env =
    let below = has_dangerous_iff ks env in (λ h. ground (arith, below), λ h. ground (arith, below))

suspicious_iff :
    (env : JsMap String) → (suspicious env ≡ none) ↔ All (λ p. is_suspicious p.1 ≡ false) env
suspicious_iff [] = (λ h. tt, λ h. refl)
suspicious_iff ((k, v) ∷ env) =
    let below = suspicious_iff env in (λ h. ground (arith, below), λ h. ground (arith, below))

value_check_iff : (o : Option String) → (value_check o ≡ valid) ↔ (o ≡ none)
value_check_iff none = (λ h. refl, λ h. refl)
value_check_iff (some k) = (λ h. ground arith, λ h. ground arith)

key_check_iff :
    (o : Option String) (env : JsMap String)
    → (key_check o env ≡ valid) ↔ ((o ≡ none) × (suspicious env ≡ none))
key_check_iff none env =
    (λ h. (refl, (value_check_iff (suspicious env)).0 h), λ h. (value_check_iff _).1 h.1)
key_check_iff (some k) env = (λ h. ground arith, λ h. ground arith)

pub env_iff : (env : JsMap String) → (validate_env env ≡ valid) ↔ IsHarmless env
unfolding validate_env
env_iff env =
    let stage = key_check_iff (has_dangerous dangerous_keys env) env in
    let keys = has_dangerous_iff dangerous_keys env in
    let values = suspicious_iff env in
    (λ h. (keys.0 (stage.0 h).0, values.0 (stage.0 h).1), λ h. stage.1 (keys.1 h.0, values.1 h.1))

module _ (matches : String → String → Option Bool) (base : String → String)
    (normalize : String → String) (resolve : String → String → String) where
  abbrev pub Spared : String → String → Type 0
  Spared text p = hits matches base normalize resolve (matches p text) ≡ false

  -- Not too long, no blocked pattern is found in it, and the base name of its first word is allowed.
  abbrev pub IsPermitted : Command → NodeCommandValidator → Type 0
  IsPermitted command v =
      (units (codes (command_text command)) ≤ v.max_argv_length)
      × All (Spared (command_text command)) v.blocklist
      × ((name : String) × (named command ≡ some name) × Any (λ y. base name ≡ y) v.allowlist)

  blocked_by_iff :
      (text : String) (ps : List String)
      → (blocked_by matches base normalize resolve text ps ≡ none) ↔ All (Spared text) ps
  blocked_by_iff text [] = (λ h. tt, λ h. refl)
  blocked_by_iff text (p ∷ ps) =
      let below = blocked_by_iff text ps in (λ h. ground (arith, below), λ h. ground (arith, below))

  name_check_iff :
      (o : Option String) (allowlist : List String)
      → (name_check matches base normalize resolve o allowlist ≡ valid)
        ↔ ((name : String) × (o ≡ some name) × Any (λ y. base name ≡ y) allowlist)
  name_check_iff none allowlist = (λ h. ground arith, λ h. ground arith)
  name_check_iff (some name) allowlist = (
    λ h. (name, refl, (member_iff (base name) allowlist).0 (ground arith)),
    λ (n, e, a).
        let listed = (member_iff (base n) allowlist).1 a in ground (arith, some-injective name n e),
  )

  blocked_check_iff :
      (o : Option String) (command : Command) (allowlist : List String)
      → (blocked_check matches base normalize resolve o command allowlist ≡ valid) ↔ (
          (o ≡ none)
          × (name_check matches base normalize resolve (named command) allowlist ≡ valid))
  blocked_check_iff none command allowlist = (λ h. (refl, h), λ h. h.1)
  blocked_check_iff (some p) command allowlist = (λ h. ground arith, λ h. ground arith)

  arguments_stage :
      (command : Command) (v : NodeCommandValidator)
      → (validate_arguments matches base normalize resolve command v ≡ valid) ↔ (
          (units (codes (command_text command)) ≤ v.max_argv_length)
          × (blocked_check matches base normalize resolve
                (blocked_by matches base normalize resolve (command_text command) v.blocklist)
                command
                v.allowlist
              ≡ valid))
  unfolding validate_arguments
  arguments_stage command v = (λ h. ground arith, λ h. ground arith)

  pub arguments_iff :
      (command : Command) (v : NodeCommandValidator)
      → (validate_arguments matches base normalize resolve command v ≡ valid)
        ↔ IsPermitted command v
  arguments_iff command v =
      let stage = arguments_stage command v in
      let blocked = blocked_check_iff _ command v.allowlist in
      let spared = blocked_by_iff (command_text command) v.blocklist in
      let naming = name_check_iff (named command) v.allowlist in
      (
        λ h.
            let (short, rest) = stage.0 h in
            let (clear, listed) = blocked.0 rest in (short, spared.0 clear, naming.0 listed),
        λ (short, clear, listed). stage.1 (short, blocked.1 (spared.1 clear, naming.1 listed)),
      )

  pub cwd_iff :
      (cwd : String)
      → (validate_cwd matches base normalize resolve cwd none ≡ valid) ↔ (contains ".." cwd ≡ false)
  unfolding validate_cwd
  cwd_iff cwd = (λ h. ground arith, λ h. ground arith)
