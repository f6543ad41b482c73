-- ===== src/Tests/Security.antt =====
-- The rate limiter and the pairing of users on concrete inputs.
use moon_bot.Prelude.{
  ◌≤◌, String, ◌≡◌, refl, true, false, List, [], ◌∷◌, arith, filter, length, ◌==◌, if◌then◌else◌,
  Bool-cases, inl, inr, some, none,
}
use moon_bot.JsMap
use moon_bot.JsMap.{JsMap}
use moon_bot.Pairing
use moon_bot.Pairing.{
  AuthManager, is_hash_format, all_hex, generate_pairing_code, approve, approve_pending,
  is_approved, validate,
}
use moon_bot.Pairing.Approval.{generates, cleans, approve_once, run as run_pairing}
use moon_bot.Pairing.Replay.{replay_is_refused}
use moon_bot.RateLimiter.{is_recent, check_limit_in_map, cleanup_map}
use moon_bot.RateLimiter.Window.{Event, attempt, sweep, react, accepted, window_bound}

abbrev some_events : List Event
some_events = attempt "a" 10 ∷ attempt "b" 20 ∷ attempt "a" 30 ∷ attempt "a" 40 ∷ sweep 105 ∷ []

third_is_refused : accepted 100 2 [] "a" some_events ≡ 10 ∷ 30 ∷ []
unfolding accepted react check_limit_in_map cleanup_map JsMap.get JsMap.set
third_is_refused = refl

window_bound_example : length (filter (is_recent 100 105) (accepted 100 2 [] "a" some_events)) ≤ 2
window_bound_example =
    window_bound 100 2 "a" some_events
      (omega arith, (omega arith, (omega arith, (omega arith, (omega arith, tt)))))

abbrev a_hash : String
a_hash = "0123456789abcdef0123456789abcdef0123456789abcdef0123456789abcdef"

abbrev b_hash : String
b_hash = "ABCDEF6789abcdef0123456789abcdef0123456789abcdef0123456789abcdef"

-- A function with the format of a hash.
abbrev toy_hash : String → String
toy_hash s = if s == "secret" then a_hash else b_hash

a_hash_format : is_hash_format a_hash ≡ true
unfolding is_hash_format all_hex
a_hash_format = refl

b_hash_format : is_hash_format b_hash ≡ true
unfolding is_hash_format all_hex
b_hash_format = refl

toy_hash_format : (s : String) → is_hash_format (toy_hash s) ≡ true
toy_hash_format s = elim (Bool-cases (s == "secret")) [
  | inl h ↦ rw h a_hash_format
  | inr h ↦ rw h b_hash_format
]

abbrev one_token : JsMap String
one_token = ("owner", a_hash) ∷ []

abbrev guarded : AuthManager
guarded = Pairing.new (some (record { tokens = some one_token; allow_legacy_tokens = some true }))

abbrev waiting : AuthManager
waiting = (generate_pairing_code "CODE" "u" 5 0 (Pairing.new none)).0

approved : (approve "CODE" 10 11 waiting).1 ≡ true
unfolding approve approve_pending generate_pairing_code JsMap.get JsMap.set JsMap.has
approved = refl

approve_once_example :
    (approve "CODE" 90000002 90000003 (
      run_pairing
        (approve "CODE" 10 11 waiting).0
        (cleans 90000000 ∷ generates "OTHE" "v" 5 90000001 ∷ []))).1
    ≡ false
approve_once_example =
    approve_once "CODE" 10 11 90000002 90000003 waiting
      (cleans 90000000 ∷ generates "OTHE" "v" 5 90000001 ∷ []) approved (tt, (refl, tt))

replay_is_refused_example :
    (approve "CODE" 40 41
      (run_pairing (approve "CODE" 10 11 waiting).0 (cleans 20 ∷ generates "CODE" "v" 5 30 ∷ []))).1
    ≡ false
replay_is_refused_example =
    replay_is_refused "CODE" 10 11 40 41 waiting (cleans 20 ∷ generates "CODE" "v" 5 30 ∷ [])
      (unfold generate_pairing_code in tt) approved (omega arith, (tt, tt))
