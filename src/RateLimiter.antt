-- ===== src/RateLimiter.antt =====
-- ConnectionRateLimiter (src/gateway/ConnectionRateLimiter.ts): accepted attempts by address and by
-- token hash, in a sliding window. Clock readings are arguments; `hash` is the SHA-256 of the runtime.
pub mod Window
use moon_bot.Prelude.{
  ℕ, ◌+◌, String, Bool, true, false, Option, none, some, List, [], ◌∷◌, ◌++◌, leb, ltb, filter,
  length, if◌then◌else◌,
}
use moon_bot.JsMap
use moon_bot.JsMap.{JsMap, set}

pub record RateLimiter : Type 0 where
  pub attempts : JsMap (List ℕ)
  pub token_attempts : JsMap (List ℕ)
  pub window_ms : ℕ
  pub max_attempts : ℕ

abbrev pub new : ℕ → ℕ → RateLimiter
new window max = record {
  attempts = [];
  token_attempts = [];
  window_ms = window;
  max_attempts = max;
}

-- `config?.windowMs ?? DEFAULT_WINDOW_MS` and `config?.maxAttempts ?? DEFAULT_MAX_ATTEMPTS`.
abbrev pub default : RateLimiter
default = new 60000 10

-- `timestamp > now - windowMs`, with the subtraction moved to the other side.
abbrev pub is_recent : ℕ → ℕ → ℕ → Bool
is_recent window now timestamp = ltb now (timestamp + window)

abbrev pub or_nil : Option (List ℕ) → List ℕ
or_nil none = []
or_nil (some ts) = ts

unfoldable pub check_limit_in_map : ℕ → ℕ → String → ℕ → JsMap (List ℕ) → JsMap (List ℕ) × Bool
check_limit_in_map window max key now m =
    let recent = filter (is_recent window now) (or_nil (JsMap.get key m)) in
    if leb max (length recent) then (m, false) else (set key (recent ++ now ∷ []) m, true)

unfoldable pub check_limit : String → ℕ → RateLimiter → RateLimiter × Bool
unfolding check_limit_in_map
check_limit ip now r =
    let (m, ok) = check_limit_in_map r.window_ms r.max_attempts ip now r.attempts in
    (record r { attempts = m }, ok)

unfoldable pub check_token_limit : (String → String) → String → ℕ → RateLimiter → RateLimiter × Bool
unfolding check_limit_in_map
check_token_limit hash token now r =
    let (m, ok) = check_limit_in_map r.window_ms r.max_attempts (hash token) now r.token_attempts in
    (record r { token_attempts = m }, ok)

abbrev replaced : String → List ℕ → JsMap (List ℕ) → JsMap (List ℕ)
replaced key [] m = m
replaced key (t ∷ ts) m = (key, t ∷ ts) ∷ m

-- Each entry keeps its recent attempts, and goes if there is none.
unfoldable pub cleanup_map : ℕ → ℕ → JsMap (List ℕ) → JsMap (List ℕ)
cleanup_map window now [] = []
cleanup_map window now ((key, ts) ∷ m) =
    replaced key (filter (is_recent window now) ts) (cleanup_map window now m)

unfoldable pub cleanup : ℕ → RateLimiter → RateLimiter
unfolding cleanup_map
cleanup now r = record r {
  attempts = cleanup_map r.window_ms now r.attempts;
  token_attempts = cleanup_map r.window_ms now r.token_attempts;
}
