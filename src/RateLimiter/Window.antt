-- ===== src/RateLimiter/Window.antt =====
-- ConnectionRateLimiter: sequences of attempts and sweeps against the list of what was accepted.
use moon_bot.Prelude.{
  ℕ, ◌≤◌, String, ◌≡◌, refl, ap, sym, ◌∙◌, Bool, true, false, ◌&&◌, none, List, [], ◌∷◌, ◌++◌,
  arith, eq_iff, eq_refl, append-nil, append_assoc, subst, eq_of_test, leb, ltb, filter,
  filter-append, length, length-append, if◌then◌else◌, ◌==◌, Bool-cases, inl, inr,
}
use moon_bot.JsMap.{JsMap, IsMap, set, get}
use moon_bot.JsMap.Laws.{get-set, IsMap-set}
use moon_bot.RateLimiter.{is_recent, or_nil, check_limit_in_map, cleanup_map}

-- What is recent later is recent now.
filter_twice :
    (w now later : ℕ) (ts : List ℕ)
    → now ≤ later
    → filter (is_recent w later) (filter (is_recent w now) ts) ≡ filter (is_recent w later) ts
filter_twice w now later [] h = refl
filter_twice w now later (t ∷ ts) h = ground (arith, filter_twice w now later ts)

length-filter_later :
    (w now later : ℕ) (ts : List ℕ)
    → now ≤ later
    → length (filter (is_recent w later) ts) ≤ length (filter (is_recent w now) ts)
length-filter_later w now later [] h = omega arith
length-filter_later w now later (t ∷ ts) h = ground (arith, length-filter_later w now later ts)

get-cleanup_map-none :
    (w now : ℕ) (key : String) (m : JsMap (List ℕ))
    → get key m ≡ none
    → get key (cleanup_map w now m) ≡ none
unfolding get cleanup_map
get-cleanup_map-none w now key [] h = refl
get-cleanup_map-none w now key ((k, ts) ∷ m) h = ground (arith, get-cleanup_map-none w now key m)

get-cleanup_map :
    (w now : ℕ) (key : String) (m : JsMap (List ℕ))
    → IsMap m
    → or_nil (get key (cleanup_map w now m)) ≡ filter (is_recent w now) (or_nil (get key m))
unfolding get cleanup_map
get-cleanup_map w now key [] u = refl
get-cleanup_map w now key ((k, ts) ∷ m) u =
    ground (arith, eq_iff k key, get-cleanup_map w now key m u.1, get-cleanup_map-none w now key m)

IsMap-cleanup_map : (w now : ℕ) (m : JsMap (List ℕ)) → IsMap m → IsMap (cleanup_map w now m)
unfolding get cleanup_map
IsMap-cleanup_map w now [] u = u
IsMap-cleanup_map w now ((k, ts) ∷ m) u =
    ground (arith, IsMap-cleanup_map w now m u.1, get-cleanup_map-none w now k m u.0)

-- The calls that touch one of the two maps, each with the clock's reading.
pub data Event : Type 0 where
  attempt : String → ℕ → Event
  sweep : ℕ → Event

abbrev pub time : Event → ℕ
time (attempt key now) = now
time (sweep now) = now

unfoldable pub react : ℕ → ℕ → JsMap (List ℕ) → Event → JsMap (List ℕ)
react w max m (attempt key now) = (check_limit_in_map w max key now m).0
react w max m (sweep now) = cleanup_map w now m

unfoldable pub run : ℕ → ℕ → JsMap (List ℕ) → List Event → JsMap (List ℕ)
run w max m [] = m
run w max m (e ∷ es) = run w max (react w max m e) es

-- The times of all the attempts of a key that have been accepted, oldest first.
abbrev pub accepts : ℕ → ℕ → JsMap (List ℕ) → String → Event → List ℕ
accepts w max m key (attempt k now) =
    if k == key && (check_limit_in_map w max k now m).1 then now ∷ [] else []
accepts w max m key (sweep now) = []

unfoldable pub accepted : ℕ → ℕ → JsMap (List ℕ) → String → List Event → List ℕ
accepted w max m key [] = []
accepted w max m key (e ∷ es) = accepts w max m key e ++ accepted w max (react w max m e) key es

-- The clock does not run backwards.
abbrev pub IsOrdered : ℕ → List Event → Type 0
IsOrdered last [] = Unit
IsOrdered last (e ∷ es) = (last ≤ time e) × IsOrdered (time e) es

abbrev pub last_time : ℕ → List Event → ℕ
last_time last [] = last
last_time last (e ∷ es) = last_time (time e) es

-- The map answers for the full history `ts` of a key, from the time `last` on.
record Agrees (w max last : ℕ) (m : JsMap (List ℕ)) (key : String) (ts : List ℕ) : Type 0 where
  unique : IsMap m
  same :
      (now : ℕ)
      → last ≤ now
      → filter (is_recent w now) (or_nil (get key m)) ≡ filter (is_recent w now) ts
  few : length (filter (is_recent w last) ts) ≤ max

-- Nothing accepted of the key, and its list unchanged.
later-Agrees :
    (w max last now : ℕ) (m m' : JsMap (List ℕ)) (key : String) (ts : List ℕ)
    → Agrees w max last m key ts
    → last ≤ now
    → IsMap m'
    → get key m' ≡ get key m
    → Agrees w max now m' key (ts ++ [])
later-Agrees w max last now m m' key ts a h u e = record {
  unique = u;
  same = λ later l. rw (append-nil ts, e) (a.same later (omega arith));
  few = rw append-nil (omega (arith, a.few, length-filter_later w last now ts h));
}

module _ (w max last now : ℕ) (m : JsMap (List ℕ)) (k key : String) (ts : List ℕ) where
  abbrev recent : List ℕ
  recent = filter (is_recent w now) (or_nil (get k m))

  check_full : leb max (length recent) ≡ true → check_limit_in_map w max k now m ≡ (m, false)
  unfolding check_limit_in_map
  check_full h = rw h

  check_free :
      leb max (length recent) ≡ false
      → check_limit_in_map w max k now m ≡ (set k (recent ++ now ∷ []) m, true)
  unfolding check_limit_in_map
  check_free h = rw h

  added-Agrees :
      Agrees w max last m k ts
      → last ≤ now
      → leb max (length recent) ≡ false
      → Agrees w max now (set k (recent ++ now ∷ []) m) k (ts ++ now ∷ [])
  added-Agrees a h free = record {
    unique = IsMap-set k (recent ++ now ∷ []) m a.unique;
    same = λ later l.
        rw (get-set, eq_refl)
          (filter-append (is_recent w later) recent (now ∷ [])
            ∙ ap (λ xs. xs ++ filter (is_recent w later) (now ∷ []))
                (filter_twice w now later (or_nil (get k m)) l ∙ a.same later (omega arith))
            ∙ sym (filter-append (is_recent w later) ts (now ∷ [])));
    few =
        rw (filter-append (is_recent w now) ts (now ∷ []), length-append, ← a.same now h)
          (ground arith);
  }

  attempt-Agrees :
      Agrees w max last m key ts
      → last ≤ now
      → Agrees w max now
          (check_limit_in_map w max k now m).0
          key
          (ts ++ accepts w max m key (attempt k now))
  attempt-Agrees a h = elim (Bool-cases (leb max (length recent))) [
    | inl full ↦
        rw (check_full full)
          (rw (both_false (k == key)) (later-Agrees w max last now m m key ts a h a.unique refl))
    | inr free ↦ rw (check_free free) (elim (Bool-cases (k == key)) [
      | inl same ↦ rw same (
          subst (λ j. Agrees w max now (set k (recent ++ now ∷ []) m) j (ts ++ now ∷ []))
            (eq_of_test k key same)
            (added-Agrees (subst (λ j. Agrees w max last m j ts) (sym (eq_of_test k key same)) a) h
              free))
      | inr other ↦ rw other (
          later-Agrees w max last now m (set k (recent ++ now ∷ []) m) key ts a h
            (IsMap-set k (recent ++ now ∷ []) m a.unique)
            (get-set k key (recent ++ now ∷ []) m ∙ (rw other refl)))
    ])
  ]
    where
      both_false : (b : Bool) → (if b && false then now ∷ [] else []) ≡ []
      both_false true = refl
      both_false false = refl

react-Agrees :
    (w max last : ℕ) (m : JsMap (List ℕ)) (key : String) (ts : List ℕ) (e : Event)
    → Agrees w max last m key ts
    → last ≤ time e
    → Agrees w max (time e) (react w max m e) key (ts ++ accepts w max m key e)
unfolding react
react-Agrees w max last m key ts (sweep now) a h = record {
  unique = IsMap-cleanup_map w now m a.unique;
  same = λ later l.
      rw (append-nil ts, get-cleanup_map w now key m a.unique)
        (filter_twice w now later (or_nil (get key m)) l ∙ a.same later (omega arith));
  few = rw append-nil (omega (arith, a.few, length-filter_later w last now ts h));
}
react-Agrees w max last m key ts (attempt k now) a h = attempt-Agrees w max last now m k key ts a h

run-Agrees :
    (w max last : ℕ) (m : JsMap (List ℕ)) (key : String) (ts : List ℕ) (es : List Event)
    → Agrees w max last m key ts
    → IsOrdered last es
    → Agrees w max (last_time last es) (run w max m es) key (ts ++ accepted w max m key es)
unfolding run accepted
run-Agrees w max last m key ts [] a h = rw append-nil a
run-Agrees w max last m key ts (e ∷ es) a h =
    rw (← append_assoc ts (accepts w max m key e) (accepted w max (react w max m e) key es)) (
      run-Agrees w max (time e) (react w max m e) key (ts ++ accepts w max m key e) es
        (react-Agrees w max last m key ts e a h.0) h.1)

empty-Agrees : (w max : ℕ) (key : String) → Agrees w max 0 [] key []
unfolding get
empty-Agrees w max key = record { unique = tt; same = λ now h. refl; few = omega arith }

-- After any attempts of any keys and any sweeps, in the order of time, from an empty map, the next
-- attempt of a key is accepted exactly if fewer than the maximum of its attempts were accepted in
-- the window that ends then.
pub check_exact :
    (w max : ℕ) (key : String) (es : List Event) (now : ℕ)
    → IsOrdered 0 es
    → last_time 0 es ≤ now
    → (check_limit_in_map w max key now (run w max [] es)).1
      ≡ ltb (length (filter (is_recent w now) (accepted w max [] key es))) max
unfolding check_limit_in_map
check_exact w max key es now h l =
    let a = run-Agrees w max 0 [] key [] es (empty-Agrees w max key) h in
    rw (a.same now l) (ground arith)

-- After any attempts and sweeps in the order of time, from an empty map, no more than the maximum
-- of the attempts of a key that were accepted lie in the window that ends at the last of them.
pub window_bound :
    (w max : ℕ) (key : String) (es : List Event)
    → IsOrdered 0 es
    → length (filter (is_recent w (last_time 0 es)) (accepted w max [] key es)) ≤ max
window_bound w max key es h = (run-Agrees w max 0 [] key [] es (empty-Agrees w max key) h).few
