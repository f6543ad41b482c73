-- ===== src/SessionManager/Reload.antt =====
-- A session that only grows is read back from its file.
use moon_bot.Prelude.{
  ℕ, ◌≡◌, refl, String, Option, some, List, [], ◌∷◌, ◌++◌, subst, some-injective,
}
use moon_bot.JsMap
use moon_bot.JsMap.Laws.{get-set_self}
use moon_bot.Task.{SessionMessage}
use moon_bot.SessionManager.File
use moon_bot.SessionManager.File.{SessionFile, IsLined, append-IsLined, read-IsLined}
use moon_bot.SessionManager.{SessionManager, Session, create, add_found, add_message, load, restart}

-- Messages that are added to a session one after the other.
pub data Adds (id : String) (m : SessionManager)
    : List SessionMessage → SessionManager → Type 0 where
  no_more : Adds id m [] m
  one_more :
      {xs : List SessionMessage} {n : SessionManager} (x : SessionMessage) (now : ℕ)
      (o : SessionManager)
      → Adds id m xs n
      → add_message id x now n ≡ some o
      → Adds id m (xs ++ (x ∷ [])) o

record IsFiled (id : String) (xs : List SessionMessage) (m : SessionManager) : Type 0 where
  session : Session
  there : JsMap.get id m.sessions ≡ some session
  file : SessionFile
  written : JsMap.get id m.files ≡ some file
  lined : IsLined file xs

create-IsFiled :
    (id agent owner channel : String) (key : Option String) (now : ℕ) (m : SessionManager)
    → IsFiled id [] (create id agent owner channel key now m).0
unfolding create
create-IsFiled id agent owner channel key now m = record {
  session = _;
  there = get-set_self id _ m.sessions;
  file = File.write [];
  written = get-set_self id (File.write []) m.files;
  lined = (refl, refl);
}

found-IsFiled :
    (id : String) (x : SessionMessage) (now : ℕ) (xs : List SessionMessage) (s : Session)
    (f : SessionFile) (m : SessionManager)
    → JsMap.get id m.files ≡ some f
    → IsLined f xs
    → (o : SessionManager) → add_found (some s) id x now m ≡ some o
    → IsFiled id (xs ++ (x ∷ [])) o
found-IsFiled id x now xs s f m e l o h =
    subst (IsFiled id (xs ++ (x ∷ []))) (some-injective _ o h) (record {
      session = _;
      there = get-set_self id _ m.sessions;
      file = File.append x f;
      written = rw e (get-set_self id _ m.files);
      lined = append-IsLined x f xs l;
    })

Adds-IsFiled :
    {id : String} {m n : SessionManager} {xs : List SessionMessage}
    → Adds id m xs n
    → IsFiled id [] m
    → IsFiled id xs n
unfolding add_message
Adds-IsFiled no_more i = i
Adds-IsFiled {id} (one_more {xs} {n} x now o before e) i =
    let j = Adds-IsFiled before i in
    found-IsFiled id x now xs j.session j.file n j.written j.lined o (rw j.there at e)

-- A session that is created and to which messages are then added, one after the other, is read back
-- by a new process with exactly these messages in their order.
pub added_reload :
    (id agent owner channel : String) (key : Option String) (now later : ℕ) (m n : SessionManager)
    (xs : List SessionMessage)
    → Adds id (create id agent owner channel key now m).0 xs n
    → (s : Session) × ((load id later (restart n)).1 ≡ some s) × (s.messages ≡ xs)
unfolding load restart JsMap.get
added_reload id agent owner channel key now later m n xs adds =
    let i = Adds-IsFiled adds (create-IsFiled id agent owner channel key now m) in
    rw (i.written, read-IsLined i.file xs i.lined) (_, refl, refl)
