-- ===== src/SsrfGuard/Ending.antt =====
-- The checks of an address call each other on shorter texts, so they end.
use moon_bot.Prelude.{
  ℕ, suc, zero, ◌+◌, ◌≤◌, ◌<◌, ◌≡◌, refl, Bool, true, false, Option, none, some, [], ◌∷◌, arith,
  length, if◌then◌else◌, Option-cases, inl, inr, ◌∙◌, ap,
}
use moon_bot.Text.{Text, codes, after_prefix, behind, before, to_lower}
use moon_bot.SsrfGuard.{
  is_loopback, is_unspecified, loopback, unspecified, check_match, match_ipv4, check_group,
  expand_ipv6, after_mapped, Check, Reason, allowed, blocked, clean, drop_close, mapped_part,
  not_empty, up_to, check_ip_in, check_ip_address, check_expanded, check_mapped, check_clean,
}

length-after_prefix : (p s t : Text) → after_prefix p s ≡ some t → length s ≡ length p + length t
length-after_prefix [] s t h = ground arith
length-after_prefix (a ∷ p) [] t h = ground arith
length-after_prefix (a ∷ p) (b ∷ s) t h = ground (arith, length-after_prefix p s t)

length-behind : (p s t : Text) → behind p s ≡ some t → length p + length t ≤ length s
unfolding behind
length-behind p [] t h = omega (arith, length-after_prefix p [] t h)
length-behind p (a ∷ s) t h = ground (arith, length-after_prefix p (a ∷ s) t, length-behind p s t)

length-before : (p s : Text) → length (before p s) ≤ length s
unfolding before
length-before p [] = omega arith
length-before p (a ∷ s) = elim (Option-cases (after_prefix p (a ∷ s))) [
  | inl e ↦ ground (arith, length-before p s)
  | inr (t, e) ↦ ground arith
]

length-to_lower : (s : Text) → length (to_lower s) ≡ length s
unfolding to_lower
length-to_lower [] = refl
length-to_lower (a ∷ s) = ap suc (length-to_lower s)

length-drop_close : (s : Text) → length (drop_close s) ≤ length s
length-drop_close [] = omega arith
length-drop_close (a ∷ []) = ground arith
length-drop_close (a ∷ b ∷ s) = ground (arith, length-drop_close (b ∷ s))

length-clean : (s : Text) → length (clean s) ≤ length s
unfolding clean
length-clean [] = omega arith
length-clean (a ∷ s) = ground (arith, length-drop_close s, length-drop_close (a ∷ s))

length-not_empty :
    (o : Option Text) (n : ℕ) (t : Text)
    → ((u : Text) → o ≡ some u → length u < n)
    → not_empty o ≡ some t
    → length t < n
length-not_empty none n t h e = ground arith
length-not_empty (some []) n t h e = ground arith
length-not_empty (some (a ∷ s)) n t h e = ground (arith, h (a ∷ s))

abbrev marker : Text
marker = codes "::ffff:"

length-up_to :
    (o : Option Text) (n : ℕ) (u : Text)
    → ((v : Text) → o ≡ some v → length marker + length v ≤ n)
    → up_to marker o ≡ some u
    → length u < n
length-up_to none n u h e = ground arith
length-up_to (some v) n u h e = ground (arith, h v, length-before marker v)

length-mapped_part : (s t : Text) → mapped_part s ≡ some t → length t < length s
unfolding mapped_part
length-mapped_part s t e =
    length-not_empty (up_to marker (behind marker s)) (length s) t
      (λ u h. length-up_to (behind marker s) (length s) u (length-behind marker s) h) e

-- Two ways to go on that agree on shorter texts.
module _ (f g : Text → Option Check) where
  check_mapped-agree :
      (o : Option Text) (s : Text)
      → ((t : Text) → o ≡ some t → f t ≡ g t)
      → check_mapped f o s ≡ check_mapped g o s
  check_mapped-agree none s h = refl
  check_mapped-agree (some t) s h = rw (h t refl) refl

  check_expanded-agree :
      (o : Option Reason) (s : Text)
      → ((t : Text) → length t < length s → f t ≡ g t)
      → check_expanded f o s ≡ check_expanded g o s
  check_expanded-agree (some reason) s h = refl
  check_expanded-agree none s h =
      check_mapped-agree (mapped_part s) s (λ t e. h t (length-mapped_part s t e))

  check_clean-agree :
      (s : Text)
      → ((t : Text) → length t < length s → f t ≡ g t)
      → check_clean f s ≡ check_clean g s
  check_clean-agree s h =
      let low = to_lower s in
      rw
        (check_expanded-agree (check_group (expand_ipv6 low)) low
          (λ t e. h t (omega (arith, length-to_lower s))))
        refl

abbrev Ends : Option Check → Type 0
Ends o = (c : Check) × (o ≡ some c)

after_mapped-Ends : (o : Option Check) (s : Text) → Ends o → Ends (after_mapped o s)
after_mapped-Ends none s (c, e) = ground arith
after_mapped-Ends (some allowed) s e = (_, refl)
after_mapped-Ends (some (blocked reason)) s e = (_, refl)

module _ (f : Text → Option Check) where
  check_mapped-Ends :
      (o : Option Text) (s : Text)
      → ((t : Text) → o ≡ some t → Ends (f t))
      → Ends (check_mapped f o s)
  check_mapped-Ends none s h = (_, refl)
  check_mapped-Ends (some t) s h = after_mapped-Ends (f t) s (h t refl)

  check_expanded-Ends :
      (o : Option Reason) (s : Text)
      → ((t : Text) → length t < length s → Ends (f t))
      → Ends (check_expanded f o s)
  check_expanded-Ends (some reason) s h = (_, refl)
  check_expanded-Ends none s h =
      check_mapped-Ends (mapped_part s) s (λ t e. h t (length-mapped_part s t e))

  if-Ends : (b : Bool) (o p : Option Check) → Ends o → Ends p → Ends (if b then o else p)
  if-Ends true o p ho hp = ho
  if-Ends false o p ho hp = hp

  check_clean-Ends :
      (s : Text) → ((t : Text) → length t < length s → Ends (f t)) → Ends (check_clean f s)
  check_clean-Ends s h =
      let low = to_lower s in
      if-Ends _ _ _
        (if-Ends (is_loopback low) _ _ (blocked loopback, refl)
          (if-Ends (is_unspecified low) _ _ (blocked unspecified, refl)
            (check_expanded-Ends (check_group (expand_ipv6 low)) low
              (λ t e. h t (omega (arith, length-to_lower s))))))
        (check_match (match_ipv4 s), refl)

check_ip_in-agree :
    (n m : ℕ) (s : Text) → length s < n → length s < m → check_ip_in n s ≡ check_ip_in m s
unfolding check_ip_in
check_ip_in-agree zero m s hn hm = ground arith
check_ip_in-agree (suc n) zero s hn hm = ground arith
check_ip_in-agree (suc n) (suc m) s hn hm =
    check_clean-agree (check_ip_in n) (check_ip_in m) (clean s) (λ t e.
      check_ip_in-agree n m t (omega (arith, length-clean s)) (omega (arith, length-clean s)))

check_ip_in-Ends : (n : ℕ) (s : Text) → length s < n → Ends (check_ip_in n s)
unfolding check_ip_in
check_ip_in-Ends zero s h = ground arith
check_ip_in-Ends (suc n) s h =
    check_clean-Ends (check_ip_in n) (clean s)
      (λ t e. check_ip_in-Ends n t (omega (arith, length-clean s)))

-- The check of an address, which for a mapped IPv6 address calls itself, ends on every text, and
-- more fuel gives the same result.
pub address_check_ends :
    (s : Text)
    → (c : Check) × (check_ip_address s ≡ some c)
      × ((n : ℕ) → length s < n → check_ip_in n s ≡ some c)
address_check_ends s =
    let (c, e) = check_ip_in-Ends (suc (length s)) s (omega arith) in
    (c, e, λ n h. check_ip_in-agree n (suc (length s)) s h (omega arith) ∙ e)
