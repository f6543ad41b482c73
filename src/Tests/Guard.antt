-- ===== src/Tests/Guard.antt =====
-- The guard against request forgery on concrete inputs.
use moon_bot.SsrfGuard.Urls
use moon_bot.Prelude.{
  ℕ, ◌≤◌, ◌<◌, ◌≡◌, refl, Bool, false, Option, none, some, arith, ◌↔◌, inl, inr, length,
  if◌then◌else◌,
}
use moon_bot.Text
use moon_bot.Text.{Text, codes, same_text}
use moon_bot.SsrfGuard
use moon_bot.SsrfGuard.{
  Check, ip, allowed, blocked, private_range, invalid_ip, mapped, loopback, link_local,
  unique_local, multicast, check_ip_in, check_ip_address, check_ipv4_address, check_group, clean,
  in_ranges, match_ipv4,
}
use moon_bot.SsrfGuard.Urls.{Url, Family, four, resolved, check_url, resolve_and_check}
use moon_bot.SsrfGuard.Ranges.{IsPrivate, IsOctets, ipv4_exact}
use moon_bot.SsrfGuard.Ending.{address_check_ends}
use moon_bot.SsrfGuard.Groups.{group_value, groups_exact}
use moon_bot.SsrfGuard.Resolving.{IsChecked, resolution_safe}

ipv4_exact_example :
    ((check_ipv4_address (ip 172 20 0 1) ≡ blocked invalid_ip) ↔ (¬ IsOctets (ip 172 20 0 1)))
    × ((check_ipv4_address (ip 172 20 0 1) ≡ blocked private_range)
        ↔ (IsOctets (ip 172 20 0 1) × IsPrivate (ip 172 20 0 1)))
    × ((check_ipv4_address (ip 172 20 0 1) ≡ allowed)
        ↔ (IsOctets (ip 172 20 0 1) × (¬ IsPrivate (ip 172 20 0 1))))
ipv4_exact_example = ipv4_exact (ip 172 20 0 1)

abbrev mapped_text : Text
mapped_text = codes "[::ffff:10.0.0.1]"

address_check_ends_example :
    (c : Check) × (check_ip_address mapped_text ≡ some c)
    × ((n : ℕ) → length mapped_text < n → check_ip_in n mapped_text ≡ some c)
address_check_ends_example = address_check_ends mapped_text

groups_exact_example :
    ((check_group (some (codes "fe9a")) ≡ some link_local)
      ↔ ((0xfe80 ≤ group_value b'f' b'e' b'9' b'a') × (group_value b'f' b'e' b'9' b'a' ≤ 0xfebf)))
    × ((check_group (some (codes "fe9a")) ≡ some unique_local)
        ↔ ((0xfc00 ≤ group_value b'f' b'e' b'9' b'a') × (group_value b'f' b'e' b'9' b'a' ≤ 0xfdff)))
    × ((check_group (some (codes "fe9a")) ≡ some multicast)
        ↔ (0xff00 ≤ group_value b'f' b'e' b'9' b'a'))
groups_exact_example =
    groups_exact b'f' b'e' b'9' b'a' (inr (ground arith)) (inr (ground arith)) (inl (ground arith))
      (inr (ground arith))

abbrev parse : Text → Option Url
parse url =
    if same_text url (codes "http://example.org/")
    then some (record { protocol = codes "http:"; hostname = codes "example.org" })
    else none

abbrev is_ip : Text → Bool
is_ip host = false

abbrev lookup : Text → Option (Text × Family)
lookup host = some (codes "93.184.216.34", four)

goes :
    resolve_and_check parse is_ip lookup (codes "http://example.org/")
    ≡ some (resolved (codes "93.184.216.34"))
unfolding resolve_and_check check_url check_ip_in clean match_ipv4 check_ipv4_address in_ranges
    Urls.is_blocked_host Text.includes Text.to_lower Text.split Text.number_from
goes = refl

resolution_safe_example :
    (u : Url) × (parse (codes "http://example.org/") ≡ some u)
    × (check_url parse is_ip lookup (codes "http://example.org/") ≡ some allowed)
    × IsChecked parse is_ip lookup (clean u.hostname) (codes "93.184.216.34")
resolution_safe_example =
    resolution_safe parse is_ip lookup (codes "http://example.org/") (codes "93.184.216.34") goes

-- A mapped address is refused, in dotted and in hexadecimal form; a compatible one only in dotted
-- form.
refuses_mapped : check_ip_address mapped_text ≡ some (blocked mapped)
unfolding check_ip_in clean match_ipv4 check_ipv4_address in_ranges check_group
    SsrfGuard.mapped_part SsrfGuard.expand_ipv6 SsrfGuard.compatible_part Text.includes
    Text.to_lower Text.split Text.behind Text.before Text.number_from
refuses_mapped = refl

lets_compatible : check_ip_address (codes "[::7f00:1]") ≡ some allowed
unfolding check_ip_in clean match_ipv4 check_ipv4_address in_ranges check_group
    SsrfGuard.mapped_part SsrfGuard.expand_ipv6 SsrfGuard.compatible_part Text.includes
    Text.to_lower Text.split Text.behind Text.before Text.number_from
lets_compatible = refl
