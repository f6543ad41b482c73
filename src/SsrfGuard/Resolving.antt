-- ===== src/SsrfGuard/Resolving.antt =====
-- What resolveAndCheck lets a request go to.
use moon_bot.Prelude.{
  ◌≡◌, refl, Bool, true, Option, none, some, arith, ◌⊎◌, inl, inr, ap, sym, subst, some-injective,
  Bool-cases,
}
use moon_bot.Text.{Text}
use moon_bot.SsrfGuard.{
  Check, Ipv4, allowed, blocked, clean, match_ipv4, check_ipv4_address, check_ipv6_address,
}
use moon_bot.SsrfGuard.Urls.{
  Url, Family, four, six, resolved, check_url, resolve_and_check, judged, family_four,
  check_address, looked_up, resolve_host, resolve_parsed, resolve_checked,
}

module _ (parse : Text → Option Url) (is_ip : Text → Bool)
    (lookup : Text → Option (Text × Family)) where
  -- The address passed the check of its family; one of the sixth that has no colon is not checked.
  abbrev pub IsPassed : Text → Family → Type 0
  IsPassed address four =
      (i : Ipv4) × (match_ipv4 address ≡ some i) × (check_ipv4_address i ≡ allowed)
  IsPassed address six =
      (check_ipv6_address address ≡ some none) ⊎ (check_ipv6_address address ≡ some (some allowed))

  abbrev Passes : Option (Option Check) → Type 0
  Passes o = (o ≡ some none) ⊎ (o ≡ some (some allowed))

  judged-Passes :
      (shown address : Text) (o : Option (Option Check))
      → judged parse is_ip lookup shown o ≡ resolved address
      → (address ≡ shown) × Passes o
  judged-Passes shown address none h = ground arith
  judged-Passes shown address (some none) h = (ground arith, inl refl)
  judged-Passes shown address (some (some allowed)) h = (ground arith, inr refl)
  judged-Passes shown address (some (some (blocked reason))) h = ground arith

  four-IsPassed :
      (o : Option Ipv4)
      → Passes (family_four parse is_ip lookup o)
      → (i : Ipv4) × (o ≡ some i) × (check_ipv4_address i ≡ allowed)
  four-IsPassed none h = ground arith
  four-IsPassed (some i) h = (i, refl, ground arith)

  address-IsPassed :
      (address : Text) (family : Family)
      → Passes (check_address parse is_ip lookup address family)
      → IsPassed address family
  address-IsPassed address four h = four-IsPassed (match_ipv4 address) h
  address-IsPassed address six h = h

  looked_up-IsPassed :
      (o : Option (Text × Family)) (address : Text)
      → looked_up parse is_ip lookup o ≡ resolved address
      → (family : Family) × (o ≡ some (address, family)) × IsPassed address family
  looked_up-IsPassed none address h = ground arith
  looked_up-IsPassed (some (shown, family)) address h =
      let (e, p) = judged-Passes shown address _ h in
      (
        family,
        ap (λ t. some (t, family)) (sym e),
        subst (λ t. IsPassed t family) (sym e) (address-IsPassed shown family p),
      )

  -- The host is an address itself, or its look-up gave the address, which passed.
  abbrev pub IsChecked : Text → Text → Type 0
  IsChecked hostname address =
      ((is_ip hostname ≡ true) × (address ≡ hostname))
      ⊎ ((family : Family) × (lookup hostname ≡ some (address, family)) × IsPassed address family)

  host-IsChecked :
      (hostname address : Text)
      → resolve_host parse is_ip lookup hostname ≡ resolved address
      → IsChecked hostname address
  host-IsChecked hostname address h = elim (Bool-cases (is_ip hostname)) [
    | inl e ↦ inl (e, ground arith)
    | inr e ↦ inr (looked_up-IsPassed (lookup hostname) address (rw e at h))
  ]

  parsed-IsChecked :
      (o : Option Url) (address : Text)
      → resolve_parsed parse is_ip lookup o ≡ resolved address
      → (u : Url) × (o ≡ some u) × IsChecked (clean u.hostname) address
  parsed-IsChecked none address h = ground arith
  parsed-IsChecked (some u) address h = (u, refl, host-IsChecked (clean u.hostname) address h)

  checked-allowed :
      (o : Option Check) (url address : Text)
      → resolve_checked parse is_ip lookup o url ≡ some (resolved address)
      → (o ≡ some allowed) × (resolve_parsed parse is_ip lookup (parse url) ≡ resolved address)
  checked-allowed none url address h = ground arith
  checked-allowed (some allowed) url address h =
      (refl, some-injective (resolve_parsed parse is_ip lookup (parse url)) (resolved address) h)
  checked-allowed (some (blocked reason)) url address h = ground arith

  -- If resolveAndCheck gives an address to go to, the URL has passed the static check, and the
  -- address is either the host itself, an address, or the one that the look-up of the host gave,
  -- which has passed the check of its family.
  pub resolution_safe :
      (url address : Text)
      → resolve_and_check parse is_ip lookup url ≡ some (resolved address)
      → (u : Url) × (parse url ≡ some u)
        × (check_url parse is_ip lookup url ≡ some allowed)
        × IsChecked (clean u.hostname) address
  unfolding resolve_and_check
  resolution_safe url address h =
      let (ok, rest) = checked-allowed (check_url parse is_ip lookup url) url address h in
      let (u, parsed, shown) = parsed-IsChecked (parse url) address rest in (u, parsed, ok, shown)
