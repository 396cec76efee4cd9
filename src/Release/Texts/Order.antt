-- ===== src/Release/Texts/Order.antt =====
-- The order of Go's `<` on strings, as pkg/releaseinfo/releaseinfo.go sorts by it: total and
-- antisymmetric.
use hypershift_lite.Prelude.{◌≡◌, refl, true, false, [], ◌∷◌, arith, ◌↔◌}
use mathlib.Core.Path.{subst}
use hypershift_lite.Api.{Text}
use hypershift_lite.Release.Texts.{text_eq, text_lt}

pub text_eq_refl : (s : Text) → text_eq s s ≡ true
unfolding text_eq
text_eq_refl [] = refl
text_eq_refl (a ∷ s) = ground (arith, text_eq_refl s)

pub text_eq_sound : (s t : Text) → text_eq s t ≡ true → s ≡ t
unfolding text_eq
text_eq_sound [] [] h = refl
text_eq_sound [] (b ∷ t) h = cc
text_eq_sound (a ∷ s) [] h = cc
text_eq_sound (a ∷ s) (b ∷ t) h = ground (arith, text_eq_sound s t)

pub text_eq_iff : (s t : Text) → (text_eq s t ≡ true) ↔ (s ≡ t)
text_eq_iff s t = (text_eq_sound s t, λ e. subst (λ u. text_eq s u ≡ true) e (text_eq_refl s))

pub text_lt_irrefl : (s : Text) → text_lt s s ≡ false
unfolding text_lt
text_lt_irrefl [] = refl
text_lt_irrefl (a ∷ s) = ground (arith, text_lt_irrefl s)

pub text_lt_asymm : (s t : Text) → text_lt s t ≡ true → text_lt t s ≡ false
unfolding text_lt
text_lt_asymm [] [] h = refl
text_lt_asymm [] (b ∷ t) h = refl
text_lt_asymm (a ∷ s) [] h = cc
text_lt_asymm (a ∷ s) (b ∷ t) h = ground (arith, text_lt_asymm s t)

-- Not behind.
abbrev pub ◌≼◌ : Text → Text → Type 0
s ≼ t = text_lt t s ≡ false

infix 4 ◌≼◌
pub ≼_trans : (s t u : Text) → s ≼ t → t ≼ u → s ≼ u
unfolding text_lt
≼_trans [] t [] h k = refl
≼_trans [] t (c ∷ u) h k = refl
≼_trans (a ∷ s) [] u h k = cc
≼_trans (a ∷ s) (b ∷ t) [] h k = cc
≼_trans (a ∷ s) (b ∷ t) (c ∷ u) h k = ground (arith, ≼_trans s t u)

pub ≼_antisymm : (s t : Text) → s ≼ t → t ≼ s → s ≡ t
unfolding text_lt
≼_antisymm [] [] h k = refl
≼_antisymm [] (b ∷ t) h k = cc
≼_antisymm (a ∷ s) [] h k = cc
≼_antisymm (a ∷ s) (b ∷ t) h k = ground (arith, ≼_antisymm s t)
