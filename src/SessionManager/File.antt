-- ===== src/SessionManager/File.antt =====
-- The file of a session (src/sessions/manager.ts): each message is a line of JSON. `save` writes the
-- lines with a line end between them and none behind the last, `appendMessage` adds a message and a
-- line end; so a line may hold more than one message, and then it is no JSON.
use moon_bot.Prelude.{
  ◌≡◌, ◌≢◌, refl, Bool, true, false, Option, none, some, List, [], ◌∷◌, ◌++◌, ap,
}
use moon_bot.Task.{SessionMessage}

-- The lines with the messages in each; `ended` is whether what is added begins a line.
pub record SessionFile : Type 0 where
  pub lines : List (List SessionMessage)
  pub ended : Bool

abbrev one_each : List SessionMessage → List (List SessionMessage)
one_each [] = []
one_each (x ∷ xs) = (x ∷ []) ∷ one_each xs

abbrev is_empty : List SessionMessage → Bool
is_empty [] = true
is_empty (x ∷ xs) = false

-- `messages.map(JSON.stringify).join("\n")`.
abbrev pub write : List SessionMessage → SessionFile
write messages = record { lines = one_each messages; ended = is_empty messages }

abbrev glue : SessionMessage → List (List SessionMessage) → List (List SessionMessage)
glue x [] = (x ∷ []) ∷ []
glue x (l ∷ []) = (l ++ (x ∷ [])) ∷ []
glue x (l ∷ k ∷ ls) = l ∷ glue x (k ∷ ls)

abbrev add_line : Bool → SessionMessage → List (List SessionMessage) → List (List SessionMessage)
add_line true x ls = ls ++ ((x ∷ []) ∷ [])
add_line false x ls = glue x ls

-- `appendMessage`.
abbrev pub append : SessionMessage → SessionFile → SessionFile
append x f = record { lines = add_line f.ended x f.lines; ended = true }

abbrev put_first : SessionMessage → Option (List SessionMessage) → Option (List SessionMessage)
put_first x none = none
put_first x (some xs) = some (x ∷ xs)

abbrev read_lines : List (List SessionMessage) → Option (List SessionMessage)
read_lines [] = some []
read_lines ([] ∷ ls) = read_lines ls
read_lines ((x ∷ []) ∷ ls) = put_first x (read_lines ls)
read_lines ((x ∷ y ∷ xs) ∷ ls) = none

-- The messages, none where `JSON.parse` throws. An empty line is left out.
abbrev pub read : SessionFile → Option (List SessionMessage)
read f = read_lines f.lines

read_lines-glue :
    (x y : SessionMessage) (xs : List SessionMessage)
    → read_lines (glue x (one_each (y ∷ xs))) ≡ none
read_lines-glue x y [] = refl
read_lines-glue x y (z ∷ xs) = ap (put_first y) (read_lines-glue x z xs)

-- A message that is added to a file just written from messages spoils it.
pub read-append-write :
    (x : SessionMessage) (xs : List SessionMessage) → xs ≢ [] → read (append x (write xs)) ≡ none
read-append-write x [] h = absurd (h refl)
read-append-write x (y ∷ xs) h = read_lines-glue x y xs

read_lines-append :
    (x : SessionMessage) (xs : List SessionMessage)
    → one_each xs ++ ((x ∷ []) ∷ []) ≡ one_each (xs ++ (x ∷ []))
read_lines-append x [] = refl
read_lines-append x (y ∷ xs) = ap (λ ls. (y ∷ []) ∷ ls) (read_lines-append x xs)

pub read-write : (xs : List SessionMessage) → read_lines (one_each xs) ≡ some xs
read-write [] = refl
read-write (x ∷ xs) = ap (put_first x) (read-write xs)

-- A file that only grows holds a line for each message.
abbrev pub IsLined : SessionFile → List SessionMessage → Type 0
IsLined f xs = (f.lines ≡ one_each xs) × (f.ended ≡ true)

pub append-IsLined :
    (x : SessionMessage) (f : SessionFile) (xs : List SessionMessage)
    → IsLined f xs
    → IsLined (append x f) (xs ++ (x ∷ []))
append-IsLined x f xs (e, t) = (rw (t, e) (read_lines-append x xs), refl)

pub read-IsLined : (f : SessionFile) (xs : List SessionMessage) → IsLined f xs → read f ≡ some xs
read-IsLined f xs (e, t) = rw e (read-write xs)
