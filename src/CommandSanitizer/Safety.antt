-- ===== src/CommandSanitizer/Safety.antt =====
-- Which commands CommandSanitizer calls safe.
use text.Mathlib.TextBridge.{IsPrefix}
use text.Mathlib.TextEquality.{starts_with_iff}
use moon_bot.Prelude.{
  String, ◌≡◌, ◌≢◌, refl, Bool, true, false, Option, none, some, List, [], ◌∷◌, arith, ◌↔◌, All,
  Any, some-injective,
}
use moon_bot.Text.{contains}
use moon_bot.PathValidator.{validate, resolved}
use moon_bot.ToolRuntime.ApprovalManager.{Command, command_text, command_name, allows}
use moon_bot.ToolRuntime.Commands.{Allowed, Spared, allows_iff, denied_by_iff}
use moon_bot.CommandSanitizer.{
  CommandSanitizer, safe, path_check, unnamed_check, name_check, denied_check, sanitize,
}

module _ (matches : String → String → Option Bool) (normalize : String → String)
    (resolve : String → String → String) where
  -- The path stays free of "..", and its resolved form begins with the text of the root.
  abbrev pub IsInside : String → String → Type 0
  IsInside path root =
      (contains ".." (normalize path) ≡ false)
      × IsPrefix (normalize root) (resolved normalize resolve path root)

  path_iff :
      (path root : String)
      → (path_check matches normalize resolve (validate normalize resolve path root) ≡ safe)
        ↔ IsInside path root
  unfolding validate
  path_iff path root =
      let prefix = starts_with_iff (resolved normalize resolve path root) (normalize root) in
      (λ h. ground (arith, prefix), λ h. ground (arith, prefix))

  unnamed_not : (cs : List String) → unnamed_check matches normalize resolve cs ≢ safe
  unnamed_not [] h = ground arith
  unnamed_not (c ∷ cs) h = ground arith

  name_iff :
      (o : Option String) (s : CommandSanitizer) (cwd root : String)
      → (name_check matches normalize resolve o s cwd root ≡ safe) ↔ (
          (name : String) × (o ≡ some name)
          × (allows name s.allowlist ≡ true)
          × (path_check matches normalize resolve (validate normalize resolve cwd root) ≡ safe))
  name_iff none s cwd root = (λ h. absurd (unnamed_not s.allowlist h), λ h. ground arith)
  name_iff (some name) s cwd root = (
    λ h. (name, refl, ground arith, ground arith),
    λ (n, e, a, i). ground (arith, some-injective name n e),
  )

  denied_iff :
      (o : Option String) (s : CommandSanitizer) (command : Command) (cwd root : String)
      → (denied_check matches normalize resolve o s command cwd root ≡ safe) ↔ (
          (o ≡ none)
          × (name_check matches normalize resolve (command_name command) s cwd root ≡ safe))
  denied_iff none s command cwd root = (λ h. (refl, h), λ h. h.1)
  denied_iff (some p) s command cwd root = (λ h. ground arith, λ h. ground arith)

  abbrev pub IsSafe : CommandSanitizer → Command → String → String → Type 0
  IsSafe s command cwd root =
      All (Spared matches normalize (command_text command)) s.denylist
      × ((name : String) × (command_name command ≡ some name) × Any (Allowed name) s.allowlist)
      × IsInside cwd root

  -- A command is safe exactly if no denied pattern is found in it, its name is an allowed command
  -- or continues one behind a blank, the normal form of the directory has no "..", and its resolved
  -- form begins with the text of the workspace root.
  pub safe_iff :
      (s : CommandSanitizer) (command : Command) (cwd root : String)
      → (sanitize matches normalize resolve s command cwd root ≡ safe) ↔ IsSafe s command cwd root
  unfolding sanitize
  safe_iff s command cwd root =
      let denied = denied_by_iff matches normalize (command_text command) s.denylist in
      let stage = denied_iff _ s command cwd root in
      let naming = name_iff (command_name command) s cwd root in
      (
        λ h.
            let (spared, rest) = stage.0 h in
            let (name, named, allowed, inside) = naming.0 rest in
            (
              denied.0 spared,
              (name, named, (allows_iff name s.allowlist).0 allowed),
              (path_iff cwd root).0 inside,
            ),
        λ (undenied, (name, named, allowed), inside). stage.1 (
          denied.1 undenied,
          naming.1
              (name, named, (allows_iff name s.allowlist).1 allowed, (path_iff cwd root).1 inside),
        ),
      )
