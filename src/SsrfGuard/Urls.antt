-- ===== src/SsrfGuard/Urls.antt =====
-- The checks of URLs and of the addresses that their hosts are resolved to (SsrfGuard).
use moon_bot.Prelude.{Bool, false, ◌||◌, Option, none, some, List, [], ◌∷◌, if◌then◌else◌}
use moon_bot.Text.{Text, codes, same_text, starts, to_lower}
use moon_bot.SsrfGuard.{
  blocked_hostname, protocol_not_allowed, Check, Ipv4, Reason, allowed, blocked, blocked_hosts,
  check_ip_address, check_ipv4_address, check_ipv6_address, clean, file_protocol, invalid_url,
  match_ipv4, resolution_failed, resolved_to_blocked,
}

pub record Url : Type 0 where
  pub protocol : Text
  pub hostname : Text

abbrev allowed_protocol : Text → Bool
allowed_protocol p = same_text p (codes "http:") || same_text p (codes "https:")

unfoldable pub is_blocked_host : Text → List Text → Bool
is_blocked_host h [] = false
is_blocked_host h (b ∷ bs) = same_text h b || is_blocked_host h bs

abbrev or_file : Option Check → Text → Option Check
or_file none url = none
or_file (some (blocked reason)) url = some (blocked reason)
or_file (some allowed) url =
    some (if starts (codes "file://") (to_lower url) then blocked file_protocol else allowed)

abbrev check_parsed : Option Url → Text → Option Check
check_parsed none url = some (blocked invalid_url)
check_parsed (some u) url =
    let hostname = to_lower u.hostname in
    if allowed_protocol u.protocol
    then (if is_blocked_host hostname blocked_hosts
        then some (blocked blocked_hostname)
        else or_file (check_ip_address hostname) url)
    else some (blocked protocol_not_allowed)

-- `allowed` with the address, or the reason.
pub data Resolution : Type 0 where
  resolved : Text → Resolution
  unresolved : Reason → Resolution

pub data Family : Type 0 where
  four six : Family

module _ (parse : Text → Option Url) (is_ip : Text → Bool)
    (lookup : Text → Option (Text × Family)) where
  unfoldable pub check_url : Text → Option Check
  check_url url = check_parsed (parse url) url

  abbrev pub check_many : List Text → List (Option Check)
  check_many [] = []
  check_many (url ∷ urls) = check_url url ∷ check_many urls

  abbrev pub family_four : Option Ipv4 → Option (Option Check)
  family_four none = none
  family_four (some i) = some (some (check_ipv4_address i))

  -- The check of an address that a name was resolved to; none where it throws.
  abbrev pub check_address : Text → Family → Option (Option Check)
  check_address address four = family_four (match_ipv4 address)
  check_address address six = check_ipv6_address address

  abbrev pub judged : Text → Option (Option Check) → Resolution
  judged address none = unresolved resolution_failed
  judged address (some none) = resolved address
  judged address (some (some allowed)) = resolved address
  judged address (some (some (blocked reason))) = unresolved (resolved_to_blocked address reason)

  abbrev pub looked_up : Option (Text × Family) → Resolution
  looked_up none = unresolved resolution_failed
  looked_up (some (address, family)) = judged address (check_address address family)

  abbrev pub resolve_host : Text → Resolution
  resolve_host hostname = if is_ip hostname then resolved hostname else looked_up (lookup hostname)

  abbrev pub resolve_parsed : Option Url → Resolution
  resolve_parsed none = unresolved resolution_failed
  resolve_parsed (some u) = resolve_host (clean u.hostname)

  abbrev pub resolve_checked : Option Check → Text → Option Resolution
  resolve_checked none url = none
  resolve_checked (some (blocked reason)) url = some (unresolved reason)
  resolve_checked (some allowed) url = some (resolve_parsed (parse url))

  -- none where the static check does not end.
  unfoldable pub resolve_and_check : Text → Option Resolution
  resolve_and_check url = resolve_checked (check_url url) url
