-- ===== src/SessionManager/Compaction.antt =====
-- What compaction keeps, and what it does to the file.
use moon_bot.Prelude.{
  ℕ, zero, suc, ◌-◌, ◌≤◌, ◌≡◌, ◌≢◌, refl, String, true, none, some, List, [], ◌∷◌, ◌++◌, arith,
  length, ltb, Bool-cases, inl, inr, ap, subst, some-injective, eq_iff,
}
use moon_bot.JsMap
use moon_bot.JsMap.{JsMap}
use moon_bot.JsMap.Laws.{get-set, get-set_self}
use moon_bot.Task.{SessionMessage}
use moon_bot.SessionManager.File
use moon_bot.SessionManager.File.{SessionFile, read-append-write}
use moon_bot.SessionManager.{
  SessionManager, Session, drop_oldest, compacted, compact, add_found, add_message, load, restart,
}

drop_oldest-end :
    (n : ℕ) (xs : List SessionMessage)
    → (lost : List SessionMessage) × (lost ++ drop_oldest n xs ≡ xs)
drop_oldest-end zero xs = ([], refl)
drop_oldest-end (suc n) [] = ([], refl)
drop_oldest-end (suc n) (x ∷ xs) =
    let (lost, e) = drop_oldest-end n xs in (x ∷ lost, ap (λ ys. x ∷ ys) e)

length-drop_oldest : (n : ℕ) (xs : List SessionMessage) → length (drop_oldest n xs) ≡ length xs - n
length-drop_oldest zero xs = omega arith
length-drop_oldest (suc n) [] = omega arith
length-drop_oldest (suc n) (x ∷ xs) = omega (arith, length-drop_oldest n xs)

-- The newest messages, fifty of them or all.
pub compacted_end :
    (xs : List SessionMessage)
    → ((lost : List SessionMessage) × (lost ++ compacted xs ≡ xs)) × (length (compacted xs) ≤ 50)
compacted_end xs = elim (Bool-cases (ltb 50 (length xs))) [
  | inl e ↦
      rw e
        (drop_oldest-end (length xs - 50) xs, omega (arith, length-drop_oldest (length xs - 50) xs))
  | inr e ↦ rw e (([], refl), ground arith)
]

get-set_at :
    (k j : String) (file : SessionFile) (m : JsMap SessionFile)
    → k ≡ j
    → JsMap.get j (JsMap.set k file m) ≡ some file
get-set_at k j file m e = ground (arith, get-set k j file m, eq_iff k j)

length-compacted : (xs : List SessionMessage) → 51 ≤ length xs → length (compacted xs) ≡ 50
length-compacted xs big = ground (arith, length-drop_oldest (length xs - 50) xs)

some-compacted : (xs : List SessionMessage) → 51 ≤ length xs → compacted xs ≢ []
some-compacted xs big e = omega (arith, ap length e, length-compacted xs big)

module _ (id : String) (s : Session) (m : SessionManager) (f : JsMap.get id m.sessions ≡ some s)
    (e : s.id ≡ id) (big : 51 ≤ length s.messages) where
  over : ltb 50 (length s.messages) ≡ true
  over = ground arith

  compact-session :
      JsMap.get id (compact id m).sessions ≡ some (record s { messages = compacted s.messages })
  unfolding compact
  compact-session = rw (f, over) (get-set_self id _ m.sessions)

  compact-file : JsMap.get id (compact id m).files ≡ some (File.write (compacted s.messages))
  unfolding compact
  compact-file = rw (f, over) (get-set_at s.id id _ m.files e)

add_found-file :
    (s : Session) (id : String) (x : SessionMessage) (now : ℕ) (m n : SessionManager)
    (file : SessionFile)
    → JsMap.get id m.files ≡ some file
    → add_found (some s) id x now m ≡ some n
    → JsMap.get id n.files ≡ some (File.append x file)
add_found-file s id x now m n file f e =
    subst (λ (k : SessionManager). JsMap.get id k.files ≡ some (File.append x file))
      (some-injective _ n e) (rw f (get-set_self id _ m.files))

load-spoiled :
    (id : String) (now : ℕ) (n : SessionManager) (file : SessionFile)
    → JsMap.get id n.files ≡ some file
    → File.read file ≡ none
    → (load id now (restart n)).1 ≡ none
unfolding load restart JsMap.get
load-spoiled id now n file f r = rw (f, r) refl

-- If a session of more than fifty messages is compacted, a message is added to it and the process
-- starts again, loading the session gives nothing.
pub compaction_spoils :
    (id : String) (x : SessionMessage) (now later : ℕ) (s : Session) (m n : SessionManager)
    → JsMap.get id m.sessions ≡ some s
    → s.id ≡ id
    → 51 ≤ length s.messages
    → add_message id x now (compact id m) ≡ some n
    → (load id later (restart n)).1 ≡ none
unfolding add_message
compaction_spoils id x now later s m n f e big added =
    load-spoiled id later n _
      (add_found-file (record s { messages = compacted s.messages }) id x now (compact id m) n _
        (compact-file id s m f e big) (rw (compact-session id s m f e big) at added))
      (read-append-write x (compacted s.messages) (some-compacted s.messages big))
