-- ===== src/SsrfGuard/Groups.antt =====
-- The tests on the first group of an IPv6 address as networks.
use moon_bot.Prelude.{
  ℕ, ◌+◌, ◌-◌, ◌*◌, ◌≤◌, ◌≡◌, some, [], ◌∷◌, arith, leb, if◌then◌else◌, ◌↔◌, ◌⊎◌,
}
use moon_bot.SsrfGuard.{check_group, link_local, unique_local, multicast}

-- A lowered hexadecimal digit and its value.
abbrev pub IsHex : ℕ → Type 0
IsHex c = ((b'0' ≤ c) × (c ≤ b'9')) ⊎ ((b'a' ≤ c) × (c ≤ b'f'))

abbrev pub hex : ℕ → ℕ
hex c = if leb b'a' c then c - 87 else c - b'0'

abbrev pub group_value : ℕ → ℕ → ℕ → ℕ → ℕ
group_value a b c d = hex a * 4096 + hex b * 256 + hex c * 16 + hex d

-- The group by its first characters.
group_by_code :
    (a b c d : ℕ)
    → ((check_group (some (a ∷ b ∷ c ∷ d ∷ [])) ≡ some link_local)
        ↔ ((a ≡ b'f') × (b ≡ b'e') × ((c ≡ b'8') ⊎ ((c ≡ b'9') ⊎ ((c ≡ b'a') ⊎ (c ≡ b'b'))))))
      × ((check_group (some (a ∷ b ∷ c ∷ d ∷ [])) ≡ some unique_local)
          ↔ ((a ≡ b'f') × ((b ≡ b'c') ⊎ (b ≡ b'd'))))
      × ((check_group (some (a ∷ b ∷ c ∷ d ∷ [])) ≡ some multicast) ↔ ((a ≡ b'f') × (b ≡ b'f')))
unfolding check_group
group_by_code a b c d = (
  (λ h. ground arith, λ h. ground arith),
  (λ h. ground arith, λ h. ground arith),
  (λ h. ground arith, λ h. ground arith),
)

hex-le : (c : ℕ) → IsHex c → hex c ≤ 15
hex-le c h = ground arith

code-hex : (c n : ℕ) → IsHex c → (hex c ≡ n) ↔ (c ≡ (if leb 10 n then n + 87 else n + b'0'))
code-hex c n h = (λ e. ground arith, λ e. ground arith)

hex-cases :
    (c : ℕ)
    → IsHex c
    → ((8 ≤ hex c) × (hex c ≤ 11)) ↔ ((c ≡ b'8') ⊎ ((c ≡ b'9') ⊎ ((c ≡ b'a') ⊎ (c ≡ b'b'))))
hex-cases c h = (λ e. ground arith, λ e. ground arith)

code-cases : (c : ℕ) → IsHex c → ((12 ≤ hex c) × (hex c ≤ 13)) ↔ ((c ≡ b'c') ⊎ (c ≡ b'd'))
code-cases c h = (λ e. ground arith, λ e. ground arith)

-- The three ranges of four nibbles.
module _ (w x y z : ℕ) (hw : w ≤ 15) (hx : x ≤ 15) (hy : y ≤ 15) (hz : z ≤ 15) where
  abbrev nibbles : ℕ
  nibbles = w * 4096 + x * 256 + y * 16 + z

  local_range :
      ((0xfe80 ≤ nibbles) × (nibbles ≤ 0xfebf)) ↔ ((w ≡ 15) × (x ≡ 14) × ((8 ≤ y) × (y ≤ 11)))
  local_range = (λ h. ground arith, λ h. ground arith)

  unique_range : ((0xfc00 ≤ nibbles) × (nibbles ≤ 0xfdff)) ↔ ((w ≡ 15) × ((12 ≤ x) × (x ≤ 13)))
  unique_range = (λ h. ground arith, λ h. ground arith)

  multicast_range : (0xff00 ≤ nibbles) ↔ ((w ≡ 15) × (x ≡ 15))
  multicast_range = (λ h. ground arith, λ h. ground arith)

-- For a first group of four lowered hexadecimal digits, the check answers link-local exactly for
-- fe80/10, unique local exactly for fc00/7, and multicast exactly for ff00/8.
pub groups_exact :
    (a b c d : ℕ)
    → IsHex a
    → IsHex b
    → IsHex c
    → IsHex d
    → ((check_group (some (a ∷ b ∷ c ∷ d ∷ [])) ≡ some link_local)
        ↔ ((0xfe80 ≤ group_value a b c d) × (group_value a b c d ≤ 0xfebf)))
      × ((check_group (some (a ∷ b ∷ c ∷ d ∷ [])) ≡ some unique_local)
          ↔ ((0xfc00 ≤ group_value a b c d) × (group_value a b c d ≤ 0xfdff)))
      × ((check_group (some (a ∷ b ∷ c ∷ d ∷ [])) ≡ some multicast)
          ↔ (0xff00 ≤ group_value a b c d))
groups_exact a b c d ha hb hc hd =
    let (local, unique, many) = group_by_code a b c d in
    let near = local_range _ _ _ (hex d) (hex-le a ha) (hex-le b hb) (hex-le c hc) (hex-le d hd) in
    let own = unique_range _ _ _ (hex d) (hex-le a ha) (hex-le b hb) (hex-le c hc) (hex-le d hd) in
    let all =
      multicast_range _ _ _ (hex d) (hex-le a ha) (hex-le b hb) (hex-le c hc) (hex-le d hd) in
    let f = code-hex a 15 ha in
    (
      (
        λ h.
            let (ea, eb, ec) = local.0 h in
            near.1 (f.1 ea, (code-hex b 14 hb).1 eb, (hex-cases c hc).1 ec),
        λ h.
            let (ea, eb, ec) = near.0 h in
            local.1 (f.0 ea, (code-hex b 14 hb).0 eb, (hex-cases c hc).0 ec),
      ),
      (
        λ h. let (ea, eb) = unique.0 h in own.1 (f.1 ea, (code-cases b hb).1 eb),
        λ h. let (ea, eb) = own.0 h in unique.1 (f.0 ea, (code-cases b hb).0 eb),
      ),
      (
        λ h. let (ea, eb) = many.0 h in all.1 (f.1 ea, (code-hex b 15 hb).1 eb),
        λ h. let (ea, eb) = all.0 h in many.1 (f.0 ea, (code-hex b 15 hb).0 eb),
      ),
    )
