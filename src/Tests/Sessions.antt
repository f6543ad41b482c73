-- ===== src/Tests/Sessions.antt =====
-- Sessions that are compacted and that are read back, on concrete inputs.
use moon_bot.Prelude.{ℕ, zero, suc, ◌≡◌, refl, Option, none, some, List, [], ◌∷◌, arith}
use moon_bot.JsMap
use moon_bot.Task
use moon_bot.Task.{SessionMessage}
use moon_bot.SessionManager
use moon_bot.SessionManager.{
  SessionManager, Session, create, add_message, add_found, compact, load, restart,
}
use moon_bot.SessionManager.Compaction.{compaction_spoils}
use moon_bot.SessionManager.Reload.{no_more, one_more, added_reload}

abbrev hello : SessionMessage
hello = record { type = Task.user; content = "hello"; timestamp = 7 }

abbrev hellos : ℕ → List SessionMessage
hellos zero = []
hellos (suc n) = hello ∷ hellos n

abbrev chat : Session
chat = record (SessionManager.new_session "s" "main" "u" "cli" none 1) { messages = hellos 51 }

abbrev chats : SessionManager
chats = SessionManager.add chat SessionManager.new

abbrev or_new : Option SessionManager → SessionManager
or_new none = SessionManager.new
or_new (some m) = m

abbrev spoiled : SessionManager
spoiled = or_new (add_message "s" hello 9 (compact "s" chats))

hello_added : add_message "s" hello 9 (compact "s" chats) ≡ some spoiled
unfolding add_message compact JsMap.get JsMap.set
hello_added = refl

compaction_spoils_example : (load "s" 12 (restart spoiled)).1 ≡ none
unfolding JsMap.get JsMap.set
compaction_spoils_example =
    compaction_spoils "s" hello 9 12 chat chats spoiled refl refl (omega arith) hello_added

abbrev begun : SessionManager
begun = (create "s" "main" "u" "cli" none 1 SessionManager.new).0

abbrev grown : SessionManager
grown = or_new (add_message "s" hello 9 begun)

hello_first : add_message "s" hello 9 begun ≡ some grown
unfolding add_message create JsMap.get JsMap.set
hello_first = refl

added_reload_example :
    (s : Session) × ((load "s" 12 (restart grown)).1 ≡ some s) × (s.messages ≡ hello ∷ [])
added_reload_example =
    added_reload "s" "main" "u" "cli" none 1 12 SessionManager.new grown (hello ∷ [])
      (one_more hello 9 grown no_more hello_first)
