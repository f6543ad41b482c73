-- ===== src/Text.antt =====
-- Texts as lists of code points, with the string methods of the language that the guards and the
-- parsers call: `split`, `startsWith`, `includes`, `toLowerCase` (of ASCII), `padStart`.
pub mod Laws
use Prim.Native.Char.{code}
use moon_bot.Prelude.{
  ℕ, suc, zero, ◌+◌, ◌-◌, ◌*◌, String, Bool, true, false, ◌&&◌, ◌||◌, Option, none, some, List, [],
  ◌∷◌, ◌++◌, length, if◌then◌else◌, leb,
}

abbrev pub Text : Type 0
Text = List ℕ

abbrev pub codes : String → Text
codes String.[] = []
codes (String.◌∷◌ c s) = code c ∷ codes s

abbrev pub same_code : ℕ → ℕ → Bool
same_code a b = leb a b && leb b a

abbrev pub same_text : Text → Text → Bool
same_text [] [] = true
same_text (a ∷ s) (b ∷ t) = same_code a b && same_text s t
same_text _ _ = false

-- What follows `p` in a text that begins with it.
abbrev pub after_prefix : Text → Text → Option Text
after_prefix [] s = some s
after_prefix (a ∷ p) [] = none
after_prefix (a ∷ p) (b ∷ s) = if same_code a b then after_prefix p s else none

abbrev pub found : Option Text → Bool
found none = false
found (some s) = true

-- `text.startsWith(p)`.
abbrev pub starts : Text → Text → Bool
starts p s = found (after_prefix p s)

abbrev pub first_part : ℕ → List Text → List Text
first_part c [] = (c ∷ []) ∷ []
first_part c (s ∷ ss) = (c ∷ s) ∷ ss

-- `text.split(c)` for one character.
unfoldable pub split : ℕ → Text → List Text
split c [] = [] ∷ []
split c (a ∷ s) = let rest = split c s in if same_code a c then [] ∷ rest else first_part a rest

-- `text.split(p)[1]`, up to the next `p`: what stands between the first two, none where there is no `p`.
abbrev pub or_more : Option Text → Option Text → Option Text
or_more none o = o
or_more (some s) o = some s

-- What stands behind the first `p`.
unfoldable pub behind : Text → Text → Option Text
behind p [] = after_prefix p []
behind p (a ∷ s) = or_more (after_prefix p (a ∷ s)) (behind p s)

-- What stands before the first `p`, or all of it.
abbrev cut_here : Option Text → ℕ → Text → Text
cut_here none a rest = a ∷ rest
cut_here (some s) a rest = []

unfoldable pub before : Text → Text → Text
before p [] = []
before p (a ∷ s) = cut_here (after_prefix p (a ∷ s)) a (before p s)

-- `text.includes(c)` for one character.
unfoldable pub includes : ℕ → Text → Bool
includes c [] = false
includes c (a ∷ s) = same_code a c || includes c s

abbrev lower : ℕ → ℕ
lower a = if leb b'A' a && leb a b'Z' then a + 32 else a

unfoldable pub to_lower : Text → Text
to_lower [] = []
to_lower (a ∷ s) = lower a ∷ to_lower s

abbrev pub fill : {A : Type 0} → ℕ → A → List A
fill zero a = []
fill (suc n) a = a ∷ fill n a

-- `text.padStart(n, c)`.
abbrev pub pad_start : ℕ → ℕ → Text → Text
pad_start n c s = fill (n - length s) c ++ s

abbrev pub is_digit : ℕ → Bool
is_digit a = leb b'0' a && leb a b'9'

abbrev pub all_digits : Text → Bool
all_digits [] = true
all_digits (a ∷ s) = is_digit a && all_digits s

-- `Number(text)` of digits, read on from a number.
unfoldable pub number_from : ℕ → Text → ℕ
number_from n [] = n
number_from n (a ∷ s) = number_from (n * 10 + (a - b'0')) s

-- `text.includes(p)` on the language's strings.
abbrev pub contains : String → String → Bool
contains p s = found (behind (codes p) (codes s))
