-- ===== src/SessionKey/RoundTrip.antt =====
-- Keys that are generated and parsed.
use moon_bot.Prelude.{
  ℕ, ◌≡◌, ◌≢◌, refl, true, false, none, some, List, [], ◌∷◌, ◌++◌, arith, Bool-cases, inl, inr,
}
use moon_bot.Text.{Text, codes, same_code, includes, split}
use moon_bot.SessionKey.{generate, is_valid, parse}

-- A text without the separator stays whole.
split-alone : (c : ℕ) (s : Text) → includes c s ≡ false → split c s ≡ s ∷ []
unfolding split includes
split-alone c [] h = refl
split-alone c (a ∷ s) h = ground (arith, split-alone c s)

split-head :
    (c : ℕ) (s rest : Text) → includes c s ≡ false → split c (s ++ (c ∷ rest)) ≡ s ∷ split c rest
unfolding split includes
split-head c [] rest h = ground arith
split-head c (a ∷ s) rest h = ground (arith, split-head c s rest)

no_colon_agent : includes b':' (codes "agent") ≡ false
unfolding includes
no_colon_agent = refl

no_colon_session : includes b':' (codes "session") ≡ false
unfolding includes
no_colon_session = refl

split-generate :
    (agent session : Text)
    → includes b':' agent ≡ false
    → split b':' (generate agent session)
      ≡ codes "agent" ∷ agent ∷ codes "session" ∷ split b':' session
unfolding generate
split-generate agent session h =
    rw
      (
        split-head b':' (codes "agent") (agent ++ (b':' ∷ (codes "session" ++ (b':' ∷ session))))
            no_colon_agent,
        split-head b':' agent (codes "session" ++ (b':' ∷ session)) h,
        split-head b':' (codes "session") session no_colon_session,
      )
      refl

-- The key generated from an agent and a channel session, both not empty and without a colon, is
-- parsed to the two.
pub parse-generate :
    (agent session : Text)
    → agent ≢ []
    → session ≢ []
    → includes b':' agent ≡ false
    → includes b':' session ≡ false
    → parse (generate agent session)
      ≡ some (record { agent_id = agent; channel_session_id = session })
unfolding parse is_valid
parse-generate [] session ha hs a s = absurd (ha refl)
parse-generate (x ∷ agent) [] ha hs a s = absurd (hs refl)
parse-generate (x ∷ agent) (y ∷ session) ha hs a s =
    rw (split-generate (x ∷ agent) (y ∷ session) a, split-alone b':' (y ∷ session) s) refl

-- Behind a separator there is another part.
split-two :
    (c : ℕ) (s : Text)
    → includes c s ≡ true
    → (p : Text) × (q : Text) × (ps : List Text) × (split c s ≡ p ∷ q ∷ ps)
unfolding includes split
split-two c [] h = ground arith
split-two c (a ∷ s) h = elim (Bool-cases (same_code a c)) [
  | inl here ↦ let (q, ps, e) = split-some c s in ([], q, ps, rw (here, e) refl)
  | inr past ↦ let (p, q, ps, e) = split-two c s (ground arith) in (a ∷ p, q, ps, rw (past, e) refl)
]
  where
    split-some : (c : ℕ) (s : Text) → (p : Text) × (ps : List Text) × (split c s ≡ p ∷ ps)
    split-some c [] = ([], [], refl)
    split-some c (a ∷ s) = elim (Bool-cases (same_code a c)) [
      | inl here ↦ ([], split c s, rw here refl)
      | inr past ↦ let (p, ps, e) = split-some c s in (a ∷ p, ps, rw (past, e) refl)
    ]

-- A channel session with a colon, under an agent without one, gives a key that parse refuses.
pub parse-generate-none :
    (agent session : Text)
    → includes b':' agent ≡ false
    → includes b':' session ≡ true
    → parse (generate agent session) ≡ none
unfolding parse is_valid
parse-generate-none agent session a h =
    let (p, q, ps, e) = split-two b':' session h in rw (split-generate agent session a, e) refl
