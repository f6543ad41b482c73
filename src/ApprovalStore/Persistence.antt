-- ===== src/ApprovalStore/Persistence.antt =====
-- ApprovalStore: what is saved, and what is loaded.
use moon_bot.Prelude.{
  ℕ, String, ◌≡◌, refl, ◌∙◌, ap, Option, none, some, List, [], ◌∷◌, arith, eq_iff,
}
use moon_bot.JsMap
use moon_bot.JsMap.{JsMap, IsMap, values}
use moon_bot.JsMap.Laws.{get-set}
use moon_bot.ApprovalStore.{
  ApprovalRequest, ApprovalStore, set_all, of_content, load_content, load, save, get, expire,
  expire_all,
}

-- Every request under its own id, and every id once.
abbrev pub IsKeyed : JsMap ApprovalRequest → Type 0
IsKeyed [] = Unit
IsKeyed ((id, r) ∷ m) = (r.id ≡ id) × (JsMap.get id m ≡ none) × IsKeyed m

pub IsKeyed-set :
    (id : String) (r : ApprovalRequest) (m : JsMap ApprovalRequest)
    → r.id ≡ id
    → IsKeyed m
    → IsKeyed (JsMap.set id r m)
unfolding JsMap.get JsMap.set
IsKeyed-set id r [] h k = (h, refl, tt)
IsKeyed-set id r ((j, q) ∷ m) h k =
    ground (arith, eq_iff j id, eq_iff id j, get-set id j r m, IsKeyed-set id r m h k.2)

pub IsKeyed-set_all :
    (rs : List ApprovalRequest) (m : JsMap ApprovalRequest) → IsKeyed m → IsKeyed (set_all rs m)
unfolding set_all
IsKeyed-set_all [] m k = k
IsKeyed-set_all (r ∷ rs) m k = IsKeyed-set_all rs (JsMap.set r.id r m) (IsKeyed-set r.id r m refl k)

pub IsKeyed-of_content : (content : Option (List ApprovalRequest)) → IsKeyed (of_content content)
IsKeyed-of_content none = tt
IsKeyed-of_content (some rs) = IsKeyed-set_all rs [] tt

abbrev pub or_else : Option ApprovalRequest → Option ApprovalRequest → Option ApprovalRequest
or_else none o = o
or_else (some r) o = some r

get-set_all :
    (id : String) (m n : JsMap ApprovalRequest)
    → IsKeyed m
    → JsMap.get id (set_all (values m) n) ≡ or_else (JsMap.get id m) (JsMap.get id n)
unfolding set_all values JsMap.get
get-set_all id [] n k = refl
get-set_all id ((j, r) ∷ m) n k = ground (
  arith,
  eq_iff j id,
  eq_iff r.id id,
  k.0,
  k.1,
  get-set r.id id r n,
  get-set_all id m (JsMap.set r.id r n) k.2,
)

or_else-none : (o : Option ApprovalRequest) → or_else o none ≡ o
or_else-none none = refl
or_else-none (some r) = refl

pub get-reload :
    (id : String) (m : JsMap ApprovalRequest)
    → IsKeyed m
    → JsMap.get id (of_content (some (values m))) ≡ JsMap.get id m
unfolding JsMap.get
get-reload id m k = get-set_all id m [] k ∙ or_else-none (JsMap.get id m)

-- With every request under its own id and every id once, a store that loads what another has saved
-- finds under each id what the other had, whatever it held in memory.
pub get-load-save :
    (id : String) (s t : ApprovalStore)
    → IsKeyed s.requests
    → get id (load (record t { file = (save s).file })) ≡ get id s
unfolding get load load_content save
get-load-save id s t k = get-reload id s.requests k

pub get-expire_all :
    (now : ℕ) (id : String) (m : JsMap ApprovalRequest)
    → JsMap.get id (expire_all now m)
      ≡ elim (JsMap.get id m) [ none ↦ none | some r ↦ some (expire now r) ]
unfolding JsMap.get expire_all
get-expire_all now id [] = refl
get-expire_all now id ((j, r) ∷ m) = ground (arith, get-expire_all now id m)

pub IsKeyed-expire_all :
    (now : ℕ) (m : JsMap ApprovalRequest) → IsKeyed m → IsKeyed (expire_all now m)
unfolding expire_all
IsKeyed-expire_all now [] k = tt
IsKeyed-expire_all now ((j, r) ∷ m) k =
    ground (arith, k.0, k.1, IsKeyed-expire_all now m k.2, get-expire_all now j m)

pub IsKeyed-get :
    (id : String) (r : ApprovalRequest) (m : JsMap ApprovalRequest)
    → IsKeyed m
    → JsMap.get id m ≡ some r
    → r.id ≡ id
unfolding JsMap.get
IsKeyed-get id r [] k h = ground arith
IsKeyed-get id r ((j, q) ∷ m) k h =
    ground (arith, eq_iff j id, k.0, h, ap (λ (x : ApprovalRequest). x.id), IsKeyed-get id r m k.2)
