-- ===== src/JsMap.antt =====
-- The language's `Map` with string keys: an association list in order of insertion. `set` of a key
-- that is there keeps its place; `for (const [k, v] of map.entries()) if (…) map.delete(k)` is
-- `retain`. Keys are unique in every map built by `set`: `IsMap`.
pub mod Laws
pub mod Counting
use moon_bot.Prelude.{
  ℕ, String, ◌≡◌, Bool, true, false, Option, none, some, List, [], ◌∷◌, length, ◌==◌, if◌then◌else◌,
}

abbrev pub JsMap {ℓ} : Type ℓ → Type ℓ
JsMap V = List (String × V)

module _ {ℓ} {V : Type ℓ} where
  unfoldable pub get : String → JsMap V → Option V
  get k [] = none
  get k ((j, v) ∷ m) = if j == k then some v else get k m

  unfoldable pub has : String → JsMap V → Bool
  has k [] = false
  has k ((j, v) ∷ m) = if j == k then true else has k m

  unfoldable pub set : String → V → JsMap V → JsMap V
  set k v [] = (k, v) ∷ []
  set k v ((j, w) ∷ m) = if j == k then (j, v) ∷ m else (j, w) ∷ set k v m

  unfoldable pub delete : String → JsMap V → JsMap V
  delete k [] = []
  delete k ((j, v) ∷ m) = let rest = delete k m in if j == k then rest else (j, v) ∷ rest

  unfoldable pub retain : (String → V → Bool) → JsMap V → JsMap V
  retain keep [] = []
  retain keep ((j, v) ∷ m) = let rest = retain keep m in if keep j v then (j, v) ∷ rest else rest

  unfoldable pub keys : JsMap V → List String
  keys [] = []
  keys ((j, v) ∷ m) = j ∷ keys m

  unfoldable pub values : JsMap V → List V
  values [] = []
  values ((j, v) ∷ m) = v ∷ values m

  abbrev pub size : JsMap V → ℕ
  size m = length m

  -- Every key once.
  abbrev pub IsMap : JsMap V → Type ℓ
  IsMap [] = Unit
  IsMap ((j, v) ∷ m) = (get j m ≡ none) × IsMap m
