-- ===== src/SsrfGuard.antt =====
-- SsrfGuard (src/tools/http/SsrfGuard.ts). The URL parser, `net.isIP` and the look-up of a name are
-- parameters. A reason is a constructor in place of its words.
pub mod Ranges
pub mod Ending
pub mod Resolving
pub mod Groups
pub mod Urls
use moon_bot.Prelude.{
  ℕ, suc, zero, ◌+◌, ◌-◌, ◌*◌, Bool, true, false, ◌&&◌, ◌||◌, not, Option, none, some, List, [],
  ◌∷◌, ◌++◌, String, length, if◌then◌else◌, ltb, leb,
}
use mathlib.Core.Option
use moon_bot.Text
use moon_bot.Text.{
  Text, codes, same_text, same_code, starts, after_prefix, split, behind, before, includes,
  to_lower, fill, pad_start, all_digits, number_from,
}

pub data Reason : Type 0 where
  protocol_not_allowed blocked_hostname invalid_ip private_range loopback unspecified invalid_ipv6
        link_local unique_local multicast mapped compatible file_protocol invalid_url
        resolution_failed :
      Reason
  resolved_to_blocked : Text → Reason → Reason

pub data Check : Type 0 where
  allowed : Check
  blocked : Reason → Check

abbrev pub is_allowed : Check → Bool
is_allowed allowed = true
is_allowed (blocked reason) = false

abbrev pub blocked_hosts : List Text
blocked_hosts =
    codes "localhost"
    ∷ codes "127.0.0.1"
    ∷ codes "0.0.0.0"
    ∷ codes "::1"
    ∷ codes "[::1]"
    ∷ codes "169.254.169.254"
    ∷ []

pub record Ipv4 : Type 0 where
  pub a : ℕ
  pub b : ℕ
  pub c : ℕ
  pub d : ℕ

abbrev pub ip : ℕ → ℕ → ℕ → ℕ → Ipv4
ip a b c d = record { a = a; b = b; c = c; d = d }

abbrev pub blocked_ip_ranges : List (Ipv4 × Ipv4)
blocked_ip_ranges =
    (ip 10 0 0 0, ip 10 255 255 255)
    ∷ (ip 172 16 0 0, ip 172 31 255 255)
    ∷ (ip 192 168 0 0, ip 192 168 255 255)
    ∷ (ip 127 0 0 0, ip 127 255 255 255)
    ∷ (ip 169 254 0 0, ip 169 254 255 255)
    ∷ (ip 0 0 0 0, ip 0 255 255 255)
    ∷ []

-- `256 ** 3` and `256 ** 2` as numbers.
abbrev pub ip_number : Ipv4 → ℕ
ip_number i = i.a * 16777216 + i.b * 65536 + i.c * 256 + i.d

unfoldable pub in_ranges : ℕ → List (Ipv4 × Ipv4) → Bool
in_ranges n [] = false
in_ranges n ((start, end) ∷ rs) =
    (leb (ip_number start) n && leb n (ip_number end)) || in_ranges n rs

abbrev pub bad_octet : Ipv4 → Bool
bad_octet i = ltb 255 i.a || ltb 255 i.b || ltb 255 i.c || ltb 255 i.d

unfoldable pub check_ipv4_address : Ipv4 → Check
check_ipv4_address i =
    if bad_octet i
    then blocked invalid_ip
    else (if in_ranges (ip_number i) blocked_ip_ranges then blocked private_range else allowed)

-- `\d{1,3}`.
abbrev is_octet : Text → Bool
is_octet s = leb 1 (length s) && leb (length s) 3 && all_digits s

abbrev pub octets : List Text → Option Ipv4
octets (s ∷ t ∷ u ∷ v ∷ []) =
    if is_octet s && is_octet t && is_octet u && is_octet v
    then some (ip (number_from 0 s) (number_from 0 t) (number_from 0 u) (number_from 0 v))
    else none
octets _ = none

-- The match of `/^(\d{1,3})\.(\d{1,3})\.(\d{1,3})\.(\d{1,3})$/`.
unfoldable pub match_ipv4 : Text → Option Ipv4
match_ipv4 s = octets (split b'.' s)

-- `expandIpv6`: the first group at a width of four, none where there is no address.
abbrev first_group : List Text → Option Text
first_group [] = none
first_group (g ∷ gs) = some (pad_start 4 b'0' g)

abbrev seventh_has_dot : List Text → Bool
seventh_has_dot (a ∷ b ∷ c ∷ d ∷ e ∷ f ∷ g ∷ []) = includes b'.' g
seventh_has_dot _ = false

abbrev counted : List Text → Option Text
counted groups =
    if same_code (length groups) 8 || seventh_has_dot groups then first_group groups else none

abbrev groups_of : Text → List Text
groups_of [] = []
groups_of (a ∷ s) = split b':' (a ∷ s)

abbrev filled : List Text → List Text → Option Text
filled left right =
    if ltb 8 (length left + length right)
    then none
    else counted (left ++ (fill (8 - (length left + length right)) (b'0' ∷ []) ++ right))

abbrev expand_pair : Text → Option Text → Option Text
expand_pair s none = counted (split b':' s)
expand_pair s (some right) =
    if Text.found (behind (codes "::") right)
    then none
    else filled (groups_of (before (codes "::") s)) (groups_of right)

unfoldable pub expand_ipv6 : Text → Option Text
expand_ipv6 s = expand_pair s (behind (codes "::") s)

-- `hostname.replace(/^\[|\]$/g, "")`.
abbrev pub drop_open : Text → Text
drop_open [] = []
drop_open (a ∷ s) = if same_code a b'[' then s else a ∷ s

abbrev pub drop_close : Text → Text
drop_close [] = []
drop_close (a ∷ []) = if same_code a b']' then [] else a ∷ []
drop_close (a ∷ b ∷ s) = a ∷ drop_close (b ∷ s)

unfoldable pub clean : Text → Text
clean s = drop_close (drop_open s)

abbrev pub is_loopback : Text → Bool
is_loopback s = same_text s (codes "::1") || same_text s (codes "0:0:0:0:0:0:0:1")

abbrev pub is_unspecified : Text → Bool
is_unspecified s = same_text s (codes "::") || same_text s (codes "0:0:0:0:0:0:0:0")

abbrev pub is_link_local : Text → Bool
is_link_local g =
    starts (codes "fe8") g
    || starts (codes "fe9") g
    || starts (codes "fea") g
    || starts (codes "feb") g

abbrev pub is_unique_local : Text → Bool
is_unique_local g = starts (codes "fc") g || starts (codes "fd") g

-- The tests on the first group, none where all are passed.
unfoldable pub check_group : Option Text → Option Reason
check_group none = some invalid_ipv6
check_group (some g) =
    if is_link_local g
    then some link_local
    else (if is_unique_local g
        then some unique_local
        else (if starts (codes "ff") g then some multicast else none))

-- The part that is checked as an IPv4 address: `normalized.split("::ffff:")[1]`, if it is not empty.
abbrev pub not_empty : Option Text → Option Text
not_empty none = none
not_empty (some []) = none
not_empty (some (a ∷ s)) = some (a ∷ s)

abbrev pub up_to : Text → Option Text → Option Text
up_to p none = none
up_to p (some s) = some (before p s)

unfoldable pub mapped_part : Text → Option Text
mapped_part s = not_empty (up_to (codes "::ffff:") (behind (codes "::ffff:") s))

-- The match of `/^::(\d{1,3}\.\d{1,3}\.\d{1,3}\.\d{1,3})$/`, which has no colon behind the first two.
abbrev compatible_of : Option Text → Option Ipv4
compatible_of none = none
compatible_of (some s) = match_ipv4 s

unfoldable pub compatible_part : Text → Option Ipv4
compatible_part s = compatible_of (after_prefix (codes "::") s)

abbrev check_compatible : Option Ipv4 → Check
check_compatible none = allowed
check_compatible (some i) =
    if is_allowed (check_ipv4_address i) then allowed else blocked compatible

-- `checkIpv6Address` goes back to `checkIpAddress`, here `again`, none where that does not end.
abbrev pub after_mapped : Option Check → Text → Option Check
after_mapped none s = none
after_mapped (some allowed) s = some (check_compatible (compatible_part s))
after_mapped (some (blocked reason)) s = some (blocked mapped)

abbrev pub check_mapped : (Text → Option Check) → Option Text → Text → Option Check
check_mapped again none s = some (check_compatible (compatible_part s))
check_mapped again (some t) s = after_mapped (again t) s

abbrev pub check_expanded : (Text → Option Check) → Option Reason → Text → Option Check
check_expanded again (some reason) s = some (blocked reason)
check_expanded again none s = check_mapped again (mapped_part s) s

-- On the lowered text.
abbrev pub check_normalized : (Text → Option Check) → Text → Option Check
check_normalized again s =
    if is_loopback s
    then some (blocked loopback)
    else (if is_unspecified s
        then some (blocked unspecified)
        else check_expanded again (check_group (expand_ipv6 s)) s)

abbrev pub check_match : Option Ipv4 → Check
check_match none = allowed
check_match (some i) = check_ipv4_address i

abbrev pub check_clean : (Text → Option Check) → Text → Option Check
check_clean again s =
    if includes b':' s
    then check_normalized again (to_lower s)
    else some (check_match (match_ipv4 s))

-- With fuel for its calls of itself.
unfoldable pub check_ip_in : ℕ → Text → Option Check
check_ip_in zero s = none
check_ip_in (suc n) s = check_clean (check_ip_in n) (clean s)

-- `checkIpAddress`; each call of itself is on a shorter text.
abbrev pub check_ip_address : Text → Option Check
check_ip_address s = check_ip_in (suc (length s)) s

-- `checkIpv6Address`: none in the inner option is `null`.
abbrev pub check_ipv6_address : Text → Option (Option Check)
check_ipv6_address s =
    if includes b':' s
    then Option.map some (check_normalized (check_ip_in (suc (length s))) (to_lower s))
    else some none
