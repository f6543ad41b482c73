-- ===== src/Pairing/Replay.antt =====
-- AuthManager.approve with a code that has been used and may have been made again.
use moon_bot.Prelude.{
  ℕ, ◌+◌, ◌≤◌, String, ◌≡◌, refl, sym, ◌∙◌, ap, true, false, Option, none, some, List, [], ◌∷◌,
  arith, eq_refl, inl, inr, Bool-cases, true≢false, ltb, is_some, All, ◌==◌, if◌then◌else◌,
  test_of_ne,
}
use moon_bot.JsMap
use moon_bot.JsMap.{JsMap, IsMap}
use moon_bot.JsMap.Laws.{get-set, get-retain, has-eq-get, IsMap-set, IsMap-retain}
use moon_bot.Pairing.{
  AuthManager, PairingCode, UsedCodeEntry, generate_pairing_code, approve_pending, approve, ttl_24h,
  cleanup,
}
use moon_bot.Pairing.Approval.{Event, generates, approves, cleans, react, run}

used-fails :
    (code : String) (now later : ℕ) (a : AuthManager)
    → JsMap.has code a.used_codes ≡ true
    → (approve code now later a).1 ≡ false
unfolding approve
used-fails code now later a h = rw h refl

-- An entry for the code, made at the time.
abbrev Used : String → ℕ → AuthManager → Type 0
Used code time a =
    IsMap a.used_codes
    × ((e : UsedCodeEntry) × (JsMap.get code a.used_codes ≡ some e) × (e.used_at ≡ time))

approve_pending-Used :
    (o : Option PairingCode) (code : String) (now later : ℕ) (a : AuthManager)
    → IsMap a.used_codes
    → (approve_pending o code now later a).1 ≡ true
    → Used code later (approve_pending o code now later a).0
unfolding approve_pending
approve_pending-Used none code now later a u h = ground (arith, h)
approve_pending-Used (some p) code now later a u h = elim (Bool-cases (ltb p.expires_at now)) [
  | inl late ↦ ground arith
  | inr timely ↦
      let e : UsedCodeEntry = record { code = code; used_at = later; user_id = p.user_id } in
      rw timely (
        IsMap-set code e a.used_codes u,
        (e, (get-set code code e a.used_codes ∙ rw (eq_refl code) refl), refl),
      )
]

approve-Used :
    (code : String) (now later : ℕ) (a : AuthManager)
    → IsMap a.used_codes
    → (approve code now later a).1 ≡ true
    → Used code later (approve code now later a).0
unfolding approve
approve-Used code now later a u h = elim (Bool-cases (JsMap.has code a.used_codes)) [
  | inl used ↦ ground arith
  | inr fresh ↦ rw fresh (
      approve_pending-Used (JsMap.get code a.pending_codes) code now later a u (
        ap
          (λ b.
            (if b
              then (a, false)
              else approve_pending (JsMap.get code a.pending_codes) code now later a).1)
          (sym fresh)
        ∙ h))
]

abbrev pub SweptBy : ℕ → Event → Type 0
SweptBy time (generates c user ttl now) = Unit
SweptBy time (approves c now later) = Unit
SweptBy time (cleans now) = now ≤ time

approve_pending-Used_kept :
    (o : Option PairingCode) (code c : String) (time now later : ℕ) (a : AuthManager)
    → (c == code) ≡ false
    → Used code time a
    → Used code time (approve_pending o c now later a).0
unfolding approve_pending
approve_pending-Used_kept none code c time now later a d u = u
approve_pending-Used_kept (some p) code c time now later a d u =
    elim (Bool-cases (ltb p.expires_at now)) [
      | inl late ↦ rw late u
      | inr timely ↦
          let e : UsedCodeEntry = record { code = c; used_at = later; user_id = p.user_id } in
          rw timely (
            IsMap-set c e a.used_codes u.0,
            (u.1.0, get-set c code e a.used_codes ∙ rw d u.1.1, u.1.2),
          )
    ]

approve-Used_kept :
    (code c : String) (time now later : ℕ) (a : AuthManager)
    → Used code time a
    → Used code time (approve c now later a).0
unfolding approve
approve-Used_kept code c time now later a u = elim (Bool-cases (JsMap.has c a.used_codes)) [
  | inl used ↦ rw used u
  | inr fresh ↦ rw fresh (
      approve_pending-Used_kept (JsMap.get c a.pending_codes) code c time now later a
        (test_of_ne c code λ e. true≢false (
          sym (has-eq-get code a.used_codes ∙ ap is_some u.1.1)
          ∙ ap (λ k. JsMap.has k a.used_codes) (sym e)
          ∙ fresh))
        u)
]

react-Used :
    (code : String) (time : ℕ) (a : AuthManager) (e : Event)
    → SweptBy (time + ttl_24h) e
    → Used code time a
    → Used code time (react a e)
unfolding react generate_pairing_code cleanup
react-Used code time a (generates c user ttl now) d u = u
react-Used code time a (approves c now later) d u = approve-Used_kept code c time now later a u
react-Used code time a (cleans now) d u = (
  IsMap-retain _ a.used_codes u.0,
  (u.1.0, get-retain _ code a.used_codes u.0 ∙ rw (u.1.1) (rw u.1.2 (ground arith)), u.1.2),
)

run-Used :
    (code : String) (time : ℕ) (a : AuthManager) (es : List Event)
    → All (SweptBy (time + ttl_24h)) es
    → Used code time a
    → Used code time (run a es)
unfolding run
run-Used code time a [] d u = u
run-Used code time a (e ∷ es) d u =
    run-Used code time (react a e) es d.1 (react-Used code time a e d.0 u)

-- With unique keys of the used codes, once an approval with a code has succeeded, no later approval
-- with it succeeds, even if the code is generated again, as long as no clean-up comes later than 24
-- hours after it.
pub replay_is_refused :
    (code : String) (now later now' later' : ℕ) (a : AuthManager) (es : List Event)
    → IsMap a.used_codes
    → (approve code now later a).1 ≡ true
    → All (SweptBy (later + ttl_24h)) es
    → (approve code now' later' (run (approve code now later a).0 es)).1 ≡ false
replay_is_refused code now later now' later' a es u h d =
    let b =
      run-Used code later (approve code now later a).0 es d (approve-Used code now later a u h) in
    used-fails code now' later' (run (approve code now later a).0 es)
      (has-eq-get code (run (approve code now later a).0 es).used_codes ∙ ap is_some b.1.1)
