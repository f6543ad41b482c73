-- ===== src/Text/Laws.antt =====
-- The comparison of texts by code points.
use moon_bot.Prelude.{◌≡◌, refl, true, [], ◌∷◌, arith, ◌↔◌, subst}
use moon_bot.Text.{Text, same_text}

path_of_same_text : (s t : Text) → same_text s t ≡ true → s ≡ t
path_of_same_text [] [] h = refl
path_of_same_text [] (b ∷ t) h = ground arith
path_of_same_text (a ∷ s) [] h = ground arith
path_of_same_text (a ∷ s) (b ∷ t) h = ground (arith, path_of_same_text s t)

same_text_refl : (s : Text) → same_text s s ≡ true
same_text_refl [] = refl
same_text_refl (a ∷ s) = ground (arith, same_text_refl s)

pub same_text_iff : (s t : Text) → (same_text s t ≡ true) ↔ (s ≡ t)
same_text_iff s t =
    (path_of_same_text s t, λ e. subst (λ u. same_text s u ≡ true) e (same_text_refl s))
