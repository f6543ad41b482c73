-- ===== src/PathValidator.antt =====
-- PathValidator (src/tools/filesystem/PathValidator.ts). The functions of the path package are
-- parameters.
use text.Mathlib.Text.{starts_with}
use moon_bot.Prelude.{
  String, Bool, true, false, ◌&&◌, Option, none, some, List, [], ◌∷◌, if◌then◌else◌, ◌==◌,
}
use moon_bot.Text.{contains}

pub data PathValidation : Type 0 where
  valid : String → PathValidation
  invalid : String → PathValidation

abbrev pub is_valid : PathValidation → Bool
is_valid (valid path) = true
is_valid (invalid error) = false

module _ (normalize : String → String) (resolve : String → String → String) where
  abbrev pub resolved : String → String → String
  resolved path root = resolve (normalize root) (normalize path)

  unfoldable pub validate : String → String → PathValidation
  validate path root =
      if contains ".." (normalize path)
      then invalid "Path traversal detected: '..' not allowed"
      else (if starts_with (resolved path root) (normalize root)
          then valid (resolved path root)
          else invalid "Path traversal detected: path outside workspace boundary")

  abbrev pub validate_each : List String → String → List PathValidation
  validate_each [] root = []
  validate_each (path ∷ paths) root = validate path root ∷ validate_each paths root

  abbrev all_valid : List PathValidation → Bool
  all_valid [] = true
  all_valid (r ∷ rs) = is_valid r && all_valid rs

  unfoldable pub validate_many : List String → String → Bool × List PathValidation
  validate_many paths root = let results = validate_each paths root in (all_valid results, results)

  abbrev relative_to : (String → String → String) → String → PathValidation → Option String
  relative_to relative root (valid path) = if path == "" then none else some (relative root path)
  relative_to relative root (invalid error) = none

  unfoldable pub get_relative_path : (String → String → String) → String → String → Option String
  get_relative_path relative path root = relative_to relative root (validate path root)

  unfoldable pub join_and_validate : (List String → String) → List String → String → PathValidation
  join_and_validate join segments root = validate (join segments) root
