-- ===== src/JsMap/Counting.antt =====
-- How many values of a `Map` pass a test, after its operations.
use moon_bot.Prelude.{
  ℕ, ◌+◌, ◌≤◌, String, ◌≡◌, Bool, Option, none, some, [], ◌∷◌, arith, length, filter, eq_iff,
  if◌then◌else◌,
}
use moon_bot.JsMap.{JsMap, IsMap, get, set, delete, retain, values}

module _ {ℓ} {V : Type ℓ} (test : V → Bool) where
  abbrev pub count : JsMap V → ℕ
  count m = length (filter test (values m))

  abbrev pub one : V → ℕ
  one v = if test v then 1 else 0

  abbrev pub was : Option V → ℕ
  was none = 0
  was (some v) = one v

  pub count-set :
      (k : String) (v : V) (m : JsMap V) → count (set k v m) + was (get k m) ≡ count m + one v
  unfolding get set values
  count-set k v [] = ground arith
  count-set k v ((i, w) ∷ m) = ground (arith, count-set k v m)

  pub count-retain-le : (keep : String → V → Bool) (m : JsMap V) → count (retain keep m) ≤ count m
  unfolding retain values
  count-retain-le keep [] = omega arith
  count-retain-le keep ((i, w) ∷ m) = ground (arith, count-retain-le keep m)

  pub count-delete :
      (k : String) (m : JsMap V) → IsMap m → count (delete k m) + was (get k m) ≡ count m
  unfolding get delete values
  count-delete k [] u = omega arith
  count-delete k ((i, w) ∷ m) u = ground (arith, count-delete k m u.1, eq_iff i k)
