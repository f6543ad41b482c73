-- ===== src/ProcessSessions/Output.antt =====
-- The buffers of a session's output: `appendOutput` of
-- src/tools/process/ProcessSessionManager.ts.
use Prim.Native.String
use moon_bot.Prelude.{
  ℕ, zero, suc, ◌+◌, ◌-◌, String, List, [], ◌∷◌, ◌++◌, length, ltb, concat, ◌==◌, if◌then◌else◌,
}

-- `array.splice(0, n)`: what is taken, and what is left.
unfoldable pub take_first : {A : Type 0} → ℕ → List A → List A
take_first zero xs = []
take_first (suc n) [] = []
take_first (suc n) (x ∷ xs) = x ∷ take_first n xs

unfoldable pub drop_first : {A : Type 0} → ℕ → List A → List A
drop_first zero xs = xs
drop_first (suc n) [] = []
drop_first (suc n) (x ∷ xs) = drop_first n xs

-- `array.slice(-n)`; `-0` is `0`, so that all is kept.
abbrev pub slice_last : {A : Type 0} → ℕ → List A → List A
slice_last zero xs = xs
slice_last (suc n) xs = drop_first (length xs - suc n) xs

abbrev first_line : String → List String → List String
first_line c [] = c ∷ []
first_line c (l ∷ ls) = concat c l ∷ ls

unfoldable pub cut_lines : String → List String
cut_lines String.[] = []
cut_lines (String.◌∷◌ c s) =
    let rest = cut_lines s in
    let first = String.◌∷◌ c String.[] in
    if first == "\n" then first ∷ rest else first_line first rest

-- `data.split(/(?<=\n)/)`: the lines with their ends.
abbrev pub lines : String → List String
lines chunk = if chunk == "" then "" ∷ [] else cut_lines chunk

abbrev pub trimmed : ℕ → List String → List String
trimmed max buffer = if ltb max (length buffer) then slice_last max buffer else buffer

abbrev pub appended : ℕ → String → List String → List String
appended max chunk buffer = trimmed max (buffer ++ lines chunk)

-- `Buffer.byteLength` over a log.
unfoldable pub log_size : List String → ℕ
log_size [] = 0
log_size (s ∷ ss) = String.len s + log_size ss

-- `while (logSize > max && log.length > 0) …`.
unfoldable pub trim_log : ℕ → ℕ → List String → List String
trim_log max size [] = []
trim_log max size (s ∷ ss) =
    let rest = trim_log max (size - String.len s) ss in if ltb max size then rest else s ∷ ss

abbrev pub trimmed_log : ℕ → String → List String → List String
trimmed_log max chunk log = let all = log ++ (chunk ∷ []) in trim_log max (log_size all) all

-- `log.join("")`.
unfoldable pub joined : List String → String
joined [] = ""
joined (s ∷ ss) = concat s (joined ss)
