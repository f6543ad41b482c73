-- ===== src/ProcessSessions/Kept.antt =====
-- How much output is kept, and which.
use Prim.Native.String
use moon_bot.Prelude.{
  ℕ, zero, suc, ◌-◌, ◌≤◌, ◌≡◌, refl, String, List, [], ◌∷◌, ◌++◌, length, length-append, ltb, arith,
  Bool-cases, inl, inr, ap,
}
use moon_bot.ProcessSessions.{ManagerConfig, ProcessSession, append_output}
use moon_bot.ProcessSessions.Output.{lines, take_first, drop_first, trimmed, log_size, trim_log}

pub take-drop : {A : Type 0} (n : ℕ) (xs : List A) → take_first n xs ++ drop_first n xs ≡ xs
unfolding take_first drop_first
take-drop zero xs = refl
take-drop (suc n) [] = refl
take-drop (suc n) (x ∷ xs) = ap (λ ys. x ∷ ys) (take-drop n xs)

length-drop : {A : Type 0} (n : ℕ) (xs : List A) → length (drop_first n xs) ≡ length xs - n
unfolding drop_first
length-drop zero xs = omega arith
length-drop (suc n) [] = omega arith
length-drop (suc n) (x ∷ xs) = omega (arith, length-drop n xs)

-- The newest entries of a log.
abbrev pub IsEnd : List String → List String → Type 0
IsEnd kept all = (lost : List String) × (lost ++ kept ≡ all)

trimmed-le : (max : ℕ) (xs : List String) → 1 ≤ max → length (trimmed max xs) ≤ max
trimmed-le zero xs h = ground arith
trimmed-le (suc n) xs h = ground (arith, length-drop (length xs - suc n) xs)

trimmed-IsEnd : (max : ℕ) (xs : List String) → IsEnd (trimmed max xs) xs
trimmed-IsEnd zero xs = elim (Bool-cases (ltb 0 (length xs))) [
  | inl e ↦ rw e ([], refl)
  | inr e ↦ rw e ([], refl)
]
trimmed-IsEnd (suc n) xs = elim (Bool-cases (ltb (suc n) (length xs))) [
  | inl e ↦ rw e (take_first (length xs - suc n) xs, take-drop (length xs - suc n) xs)
  | inr e ↦ rw e ([], refl)
]

trim_log-le :
    (max size : ℕ) (xs : List String) → size ≡ log_size xs → log_size (trim_log max size xs) ≤ max
unfolding trim_log log_size
trim_log-le max size [] e = omega arith
trim_log-le max size (s ∷ ss) e =
    ground (arith, trim_log-le max (size - String.len s) ss (omega arith))

trim_log-IsEnd : (max size : ℕ) (xs : List String) → IsEnd (trim_log max size xs) xs
unfolding trim_log
trim_log-IsEnd max size [] = ([], refl)
trim_log-IsEnd max size (s ∷ ss) = elim (Bool-cases (ltb max size)) [
  | inl e ↦
      let (lost, kept) = trim_log-IsEnd max (size - String.len s) ss in
      rw e (s ∷ lost, ap (λ ys. s ∷ ys) kept)
  | inr e ↦ rw e ([], refl)
]

length-end : (lost kept all : List String) → lost ++ kept ≡ all → length kept ≤ length all
length-end lost kept all e = ground (arith, length-append lost kept)

abbrev behind_first : List String → List String
behind_first [] = []
behind_first (x ∷ xs) = xs

-- No end that is longer fits.
trim_log-longest :
    (max size : ℕ) (xs kept : List String)
    → size ≡ log_size xs
    → IsEnd kept xs
    → log_size kept ≤ max
    → length kept ≤ length (trim_log max size xs)
unfolding trim_log log_size
trim_log-longest max size [] kept e (lost, p) fits = length-end lost kept [] p
trim_log-longest max size (s ∷ ss) kept e ([], p) fits = ground (arith, ap log_size p, ap length p)
trim_log-longest max size (s ∷ ss) kept e (l ∷ lost, p) fits =
    let below =
      trim_log-longest max (size - String.len s) ss kept (omega arith) (lost, ap behind_first p)
        fits in
    ground (arith, length-end lost kept ss (ap behind_first p))

-- After output, with a limit of at least one line, the buffer for polling has at most that many
-- lines, the newest of what it had and what came, and the log has at most its limit of bytes, being
-- the longest row of its newest parts that fits.
pub output_kept :
    (config : ManagerConfig) (now : ℕ) (chunk : String) (p : ProcessSession)
    → 1 ≤ config.max_output_lines
    → (length (append_output config now chunk p).output_buffer ≤ config.max_output_lines)
      × IsEnd (append_output config now chunk p).output_buffer (p.output_buffer ++ lines chunk)
      × (log_size (append_output config now chunk p).full_log ≤ config.max_log_size)
      × IsEnd (append_output config now chunk p).full_log (p.full_log ++ (chunk ∷ []))
      × ((kept : List String)
          → IsEnd kept (p.full_log ++ (chunk ∷ []))
          → log_size kept ≤ config.max_log_size
          → length kept ≤ length (append_output config now chunk p).full_log)
output_kept config now chunk p h =
    let all = p.full_log ++ (chunk ∷ []) in
    (
      trimmed-le config.max_output_lines _ h,
      trimmed-IsEnd config.max_output_lines _,
      trim_log-le config.max_log_size (log_size all) all refl,
      trim_log-IsEnd config.max_log_size (log_size all) all,
      λ kept e fits. trim_log-longest config.max_log_size (log_size all) all kept refl e fits,
    )
