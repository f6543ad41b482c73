-- ===== src/SsrfGuard/Ranges.antt =====
-- The blocked IPv4 ranges as networks.
use moon_bot.Prelude.{◌≤◌, ◌≡◌, arith, ◌↔◌, ◌⊎◌}
use moon_bot.SsrfGuard.{
  Ipv4, allowed, blocked, private_range, invalid_ip, in_ranges, check_ipv4_address,
}

-- 10/8, 172.16/12, 192.168/16, 127/8, 169.254/16 and 0/8.
abbrev pub IsPrivate : Ipv4 → Type 0
IsPrivate i =
    (i.a ≡ 10)
    ⊎ (((i.a ≡ 172) × (16 ≤ i.b) × (i.b ≤ 31))
        ⊎ (((i.a ≡ 192) × (i.b ≡ 168)) ⊎ ((i.a ≡ 127) ⊎ (((i.a ≡ 169) × (i.b ≡ 254)) ⊎ (i.a ≡ 0)))))

abbrev pub IsOctets : Ipv4 → Type 0
IsOctets i = (i.a ≤ 255) × (i.b ≤ 255) × (i.c ≤ 255) × (i.d ≤ 255)

-- The check of four numbers as an IPv4 address answers that they are invalid exactly if one is over
-- 255, that they are private exactly if they are valid and in 10/8, 172.16/12, 192.168/16, 127/8,
-- 169.254/16 or 0/8, and lets through the rest.
pub ipv4_exact :
    (i : Ipv4)
    → ((check_ipv4_address i ≡ blocked invalid_ip) ↔ (¬ IsOctets i))
      × ((check_ipv4_address i ≡ blocked private_range) ↔ (IsOctets i × IsPrivate i))
      × ((check_ipv4_address i ≡ allowed) ↔ (IsOctets i × (¬ IsPrivate i)))
unfolding check_ipv4_address in_ranges
ipv4_exact i = (
  (λ h. ground arith, λ h. ground arith),
  (λ h. ground arith, λ h. ground arith),
  (λ h. ground arith, λ h. ground arith),
)
