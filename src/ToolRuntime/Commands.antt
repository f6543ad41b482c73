-- ===== src/ToolRuntime/Commands.antt =====
-- What ApprovalManager lets through.
use text.Mathlib.TextBridge.{IsPrefix}
use text.Mathlib.TextEquality.{starts_with_iff}
use moon_bot.Prelude.{
  String, ◌≡◌, refl, Bool, true, false, Option, none, some, List, [], ◌∷◌, arith, concat, inl, ◌⊎◌,
  eq_iff, some-injective, sym, ◌≢◌, ◌↔◌, All, Any,
}
use moon_bot.ToolRuntime.ApprovalManager.{
  ApprovalConfig, Command, approved, default_config, command_text, command_name, hits, allows,
  in_prefix, denied_by, check_approval, unnamed_check, name_check, denied_check, prefixes,
}

abbrev pub Allowed : String → String → Type 0
Allowed name k = (name ≡ k) ⊎ IsPrefix (concat k " ") name

pub allows_iff :
    (name : String) (ks : List String) → (allows name ks ≡ true) ↔ Any (Allowed name) ks
unfolding allows
allows_iff name [] = (λ h. ground arith, λ h. absurd h)
allows_iff name (k ∷ ks) =
    let below = allows_iff name ks in
    (
      λ h. ground (arith, below, starts_with_iff name (concat k " "), eq_iff name k),
      λ h. ground (arith, below, starts_with_iff name (concat k " "), eq_iff name k),
    )

in_prefix_iff :
    (cwd : String) (ps : List String) → (in_prefix cwd ps ≡ true) ↔ Any (λ p. IsPrefix p cwd) ps
unfolding in_prefix
in_prefix_iff cwd [] = (λ h. ground arith, λ h. absurd h)
in_prefix_iff cwd (p ∷ ps) =
    let below = in_prefix_iff cwd ps in
    (
      λ h. ground (arith, below, starts_with_iff cwd p),
      λ h. ground (arith, below, starts_with_iff cwd p),
    )

module _ (matches : String → String → Option Bool) (normalize : String → String) where
  abbrev pub Spared : String → String → Type 0
  Spared text p = hits matches normalize (matches p text) ≡ false

  pub denied_by_iff :
      (text : String) (ps : List String)
      → (denied_by matches normalize text ps ≡ none) ↔ All (Spared text) ps
  unfolding denied_by
  denied_by_iff text [] = (λ h. tt, λ h. refl)
  denied_by_iff text (p ∷ ps) =
      let below = denied_by_iff text ps in (λ h. ground (arith, below), λ h. ground (arith, below))

  unnamed_not : (commands : List String) → unnamed_check matches normalize commands ≢ approved
  unnamed_not [] h = ground arith
  unnamed_not (k ∷ ks) h = ground arith

  name_check_iff :
      (o : Option String) (config : ApprovalConfig) (cwd root : String)
      → (name_check matches normalize o config cwd root ≡ approved) ↔ (
          (name : String) × (o ≡ some name)
          × (allows name config.commands ≡ true)
          × (in_prefix (normalize cwd) (prefixes matches normalize config root) ≡ true))
  name_check_iff none config cwd root =
      (λ h. absurd (unnamed_not config.commands h), λ h. ground arith)
  name_check_iff (some name) config cwd root = (
    λ h. (name, refl, ground arith, ground arith),
    λ (n, e, a, i). ground (arith, some-injective name n e),
  )

  denied_check_iff :
      (o : Option String) (config : ApprovalConfig) (command : Command) (cwd root : String)
      → (denied_check matches normalize o config command cwd root ≡ approved) ↔ (
          (o ≡ none)
          × (name_check matches normalize (command_name command) config cwd root ≡ approved))
  denied_check_iff none config command cwd root = (λ h. (refl, h), λ h. h.1)
  denied_check_iff (some p) config command cwd root = (λ h. ground arith, λ h. ground arith)

  -- No denied pattern is found in the command, its name is that of an allowed command or continues
  -- one after a blank, and the directory's text begins with a prefix.
  abbrev pub IsSafe : ApprovalConfig → Command → String → String → Type 0
  IsSafe config command cwd root =
      All (Spared (command_text command)) config.patterns
      × ((name : String) × (command_name command ≡ some name) × Any (Allowed name) config.commands)
      × Any (λ p. IsPrefix p (normalize cwd)) (prefixes matches normalize config root)

  -- A command is approved exactly if no denied pattern is found in it, its name is an allowed
  -- command or continues one behind a blank, and the normal form of the directory begins with one
  -- of the prefixes.
  pub approved_iff :
      (config : ApprovalConfig) (command : Command) (cwd root : String)
      → (check_approval matches normalize config command cwd root ≡ approved)
        ↔ IsSafe config command cwd root
  unfolding check_approval
  approved_iff config command cwd root = (
    λ h.
        let (spared, rest) = (denied_check_iff _ config command cwd root).0 h in
        let (name, named, allowed, inside) =
          (name_check_iff (command_name command) config cwd root).0 rest in
        (
          (denied_by_iff (command_text command) config.patterns).0 spared,
          (name, named, (allows_iff name config.commands).0 allowed),
          (in_prefix_iff _ _).0 inside,
        ),
    λ (undenied, (name, named, allowed), inside). (denied_check_iff _ config command cwd root).1 (
      (denied_by_iff (command_text command) config.patterns).1 undenied,
      (name_check_iff (command_name command) config cwd root).1
          (name, named, (allows_iff name config.commands).1 allowed, (in_prefix_iff _ _).1 inside),
    ),
  )

  -- With the default configuration, a command that is approved in the workspace root is approved in
  -- every directory whose normal form continues the text of the root.
  pub sibling_approved :
      (command : Command) (cwd root suffix : String)
      → check_approval matches normalize default_config command root root ≡ approved
      → normalize cwd ≡ concat (normalize root) suffix
      → check_approval matches normalize default_config command cwd root ≡ approved
  sibling_approved command cwd root suffix ok e =
      let (undenied, named, inside) = (approved_iff default_config command root root).0 ok in
      (approved_iff default_config command cwd root).1 (undenied, named, inl (suffix, sym e))
