-- ===== src/JsMap/Laws.antt =====
-- The laws of the language's `Map` that the other modules go by.
use moon_bot.Prelude.{
  suc, ◌+◌, String, ◌≡◌, refl, Bool, true, Option, none, some, [], ◌∷◌, arith, ap, is_some, eq_iff,
  length, ◌==◌, if◌then◌else◌,
}
use moon_bot.JsMap.{JsMap, get, has, set, delete, retain, values, IsMap}

module _ {ℓ} {V : Type ℓ} where
  pub get-set :
      (k j : String) (v : V) (m : JsMap V)
      → get j (set k v m) ≡ (if k == j then some v else get j m)
  unfolding get set
  get-set k j v [] = refl
  get-set k j v ((i, w) ∷ m) = ground (arith, eq_iff k j, eq_iff i k, eq_iff i j, get-set k j v m)

  pub get-set_self : (k : String) (v : V) (m : JsMap V) → get k (set k v m) ≡ some v
  get-set_self k v m = ground (arith, get-set k k v m, eq_iff k k)

  pub get-delete :
      (k j : String) (m : JsMap V) → get j (delete k m) ≡ (if k == j then none else get j m)
  unfolding get delete
  get-delete k j [] = ground arith
  get-delete k j ((i, w) ∷ m) = ground (arith, eq_iff k j, eq_iff i k, eq_iff i j, get-delete k j m)

  pub has-eq-get : (k : String) (m : JsMap V) → has k m ≡ is_some (get k m)
  unfolding has get
  has-eq-get k [] = refl
  has-eq-get k ((j, v) ∷ m) = ground (arith, has-eq-get k m)

  abbrev pub kept : (String → V → Bool) → String → Option V → Option V
  kept keep k none = none
  kept keep k (some v) = if keep k v then some v else none

  pub get-retain-none :
      (keep : String → V → Bool) (k : String) (m : JsMap V)
      → get k m ≡ none
      → get k (retain keep m) ≡ none
  unfolding get retain
  get-retain-none keep k [] h = refl
  get-retain-none keep k ((i, w) ∷ m) h = ground (arith, get-retain-none keep k m)

  pub get-retain :
      (keep : String → V → Bool) (k : String) (m : JsMap V)
      → IsMap m
      → get k (retain keep m) ≡ kept keep k (get k m)
  unfolding get retain
  get-retain keep k [] u = refl
  get-retain keep k ((i, w) ∷ m) u =
      ground (arith, eq_iff i k, get-retain keep k m u.1, get-retain-none keep k m)

  -- What is left was there.
  pub get-retain-some :
      (keep : String → V → Bool) (k : String) (m : JsMap V) (v : V)
      → IsMap m
      → get k (retain keep m) ≡ some v
      → (get k m ≡ some v) × (keep k v ≡ true)
  get-retain-some keep k m v u h = ground (arith, get-retain keep k m u)

  pub IsMap-set : (k : String) (v : V) (m : JsMap V) → IsMap m → IsMap (set k v m)
  unfolding get set
  IsMap-set k v [] u = (refl, u)
  IsMap-set k v ((i, w) ∷ m) u =
      ground (arith, eq_iff i k, eq_iff k i, IsMap-set k v m u.1, get-set k i v m)

  pub IsMap-delete : (k : String) (m : JsMap V) → IsMap m → IsMap (delete k m)
  unfolding get delete
  IsMap-delete k [] u = u
  IsMap-delete k ((i, w) ∷ m) u = ground (arith, IsMap-delete k m u.1, get-delete k i m)

  pub IsMap-retain : (keep : String → V → Bool) (m : JsMap V) → IsMap m → IsMap (retain keep m)
  unfolding retain
  IsMap-retain keep [] u = u
  IsMap-retain keep ((i, w) ∷ m) u =
      ground (arith, IsMap-retain keep m u.1, get-retain-none keep i m u.0)

  delete-of_none : (k : String) (m : JsMap V) → get k m ≡ none → delete k m ≡ m
  unfolding get delete
  delete-of_none k [] h = refl
  delete-of_none k ((i, w) ∷ m) h = ground (arith, delete-of_none k m)

  -- `map.size` after `map.set` and `map.delete`.
  pub size-set :
      (k : String) (v : V) (m : JsMap V)
      → length (set k v m) ≡ (if has k m then length m else length m + 1)
  unfolding has set
  size-set k v [] = omega arith
  size-set k v ((i, w) ∷ m) = ground (arith, size-set k v m)

  pub size-delete :
      (k : String) (m : JsMap V)
      → IsMap m
      → length m ≡ (if has k m then length (delete k m) + 1 else length (delete k m))
  unfolding has delete get
  size-delete k [] u = refl
  size-delete k ((i, w) ∷ m) u = ground (
    arith,
    eq_iff i k,
    size-delete k m u.1,
    delete-of_none k m,
    ap length (delete-of_none i m u.0),
  )

  pub length-values : (m : JsMap V) → length (values m) ≡ length m
  unfolding values
  length-values [] = refl
  length-values (e ∷ m) = ap suc (length-values m)

  -- `map.has` after `map.set`.
  pub has-set :
      (k j : String) (v : V) (m : JsMap V) → has j (set k v m) ≡ (if k == j then true else has j m)
  has-set k j v m = rw (has-eq-get j (set k v m), has-eq-get j m, get-set k j v m) (ground arith)
