-- ===== src/Pairing/Approval.antt =====
-- AuthManager.approve, alone and in sequences of calls.
use moon_bot.Prelude.{
  ℕ, String, ◌≡◌, Bool, true, false, ◌&&◌, ◌||◌, Option, none, some, List, [], ◌∷◌, ◌++◌, arith,
  eq_iff, eq_refl, All, ◌==◌,
}
use moon_bot.JsMap
use moon_bot.JsMap.{JsMap, IsMap}
use moon_bot.JsMap.Laws.{get-set, get-delete, get-retain-none}
use moon_bot.Pairing.{
  AuthManager, PairingCode, has_user, add_user, generate_pairing_code, approve_pending, approve,
  is_approved, cleanup,
}

pub data Event : Type 0 where
  generates : String → String → ℕ → ℕ → Event
  approves : String → ℕ → ℕ → Event
  cleans : ℕ → Event

unfoldable pub react : AuthManager → Event → AuthManager
react a (generates code user ttl now) = (generate_pairing_code code user ttl now a).0
react a (approves code now later) = (approve code now later a).0
react a (cleans now) = cleanup now a

unfoldable pub run : AuthManager → List Event → AuthManager
run a [] = a
run a (e ∷ es) = run (react a e) es

has_user-append :
    (u v : String) (us : List String) → has_user v (us ++ u ∷ []) ≡ has_user v us || u == v
unfolding has_user
has_user-append u v [] = ground arith
has_user-append u v (w ∷ us) = ground (arith, has_user-append u v us)

has_user-add_user :
    (u v : String) (us : List String) → has_user v (add_user u us) ≡ has_user v us || u == v
unfolding add_user
has_user-add_user u v us = ground (arith, eq_iff u v, has_user-append u v us)

-- The user that a code was made for, if it waits.
abbrev pub is_owner : String → Option PairingCode → Bool
is_owner v none = false
is_owner v (some p) = p.user_id == v

approve_pending_effect :
    (o : Option PairingCode) (code v : String) (now later : ℕ) (a : AuthManager)
    → is_approved v (approve_pending o code now later a).0
      ≡ is_approved v a || ((approve_pending o code now later a).1 && is_owner v o)
unfolding approve_pending is_approved
approve_pending_effect none code v now later a = ground arith
approve_pending_effect (some p) code v now later a =
    ground (arith, has_user-add_user p.user_id v a.approved_users)

-- After approve, a user is approved exactly if the user was before, or the call succeeded and the
-- code was waiting for this user.
pub is_approved-approve :
    (code v : String) (now later : ℕ) (a : AuthManager)
    → is_approved v (approve code now later a).0
      ≡ is_approved v a
        || ((approve code now later a).1 && is_owner v (JsMap.get code a.pending_codes))
unfolding approve
is_approved-approve code v now later a =
    ground (arith, approve_pending_effect (JsMap.get code a.pending_codes) code v now later a)

waits_not-fails :
    (code : String) (now later : ℕ) (a : AuthManager)
    → JsMap.get code a.pending_codes ≡ none
    → (approve code now later a).1 ≡ false
unfolding approve approve_pending
waits_not-fails code now later a h = ground arith

abbrev pub OtherThan : String → Event → Type 0
OtherThan code (generates c user ttl now) = (c == code) ≡ false
OtherThan code (approves c now later) = Unit
OtherThan code (cleans now) = Unit

react-keeps_gone :
    (code : String) (a : AuthManager) (e : Event)
    → OtherThan code e
    → JsMap.get code a.pending_codes ≡ none
    → JsMap.get code (react a e).pending_codes ≡ none
unfolding react generate_pairing_code approve approve_pending cleanup
react-keeps_gone code a (generates c user ttl now) d h = rw (get-set, d) h
react-keeps_gone code a (approves c now later) d h =
    ground (arith, get-delete c code a.pending_codes)
react-keeps_gone code a (cleans now) d h = get-retain-none _ code a.pending_codes h

run-keeps_gone :
    (code : String) (a : AuthManager) (es : List Event)
    → All (OtherThan code) es
    → JsMap.get code a.pending_codes ≡ none
    → JsMap.get code (run a es).pending_codes ≡ none
unfolding run
run-keeps_gone code a [] d h = h
run-keeps_gone code a (e ∷ es) d h =
    run-keeps_gone code (react a e) es d.1 (react-keeps_gone code a e d.0 h)

approved-is_gone :
    (code : String) (now later : ℕ) (a : AuthManager)
    → (approve code now later a).1 ≡ true
    → JsMap.get code (approve code now later a).0.pending_codes ≡ none
unfolding approve approve_pending
approved-is_gone code now later a h =
    ground (arith, get-delete code code a.pending_codes, eq_refl code)

-- Once an approval with a code has succeeded, no later approval with it does, whatever codes are
-- generated or approved and whatever is cleaned up in between, as long as the code itself is not
-- generated again.
pub approve_once :
    (code : String) (now later now' later' : ℕ) (a : AuthManager) (es : List Event)
    → (approve code now later a).1 ≡ true
    → All (OtherThan code) es
    → (approve code now' later' (run (approve code now later a).0 es)).1 ≡ false
approve_once code now later now' later' a es h d =
    waits_not-fails code now' later' (run (approve code now later a).0 es)
      (run-keeps_gone code (approve code now later a).0 es d (approved-is_gone code now later a h))
