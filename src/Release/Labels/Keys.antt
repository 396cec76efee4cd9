-- ===== src/Release/Labels/Keys.antt =====
-- The characters of reAllowedVersionKey of pkg/releaseinfo/releaseinfo.go.
use hypershift_lite.Prelude.{ℕ, ◌≡◌, refl, true, nat_eq, Bool-cases, inl, inr}
use hypershift_lite.Release.Labels.{is_word, is_key_char}

pub key_char_of_word : (c : ℕ) → is_word c ≡ true → is_key_char c ≡ true
unfolding is_key_char
key_char_of_word c h = elim (Bool-cases (nat_eq c b'-')) [ inl e ↦ rw (e) refl | inr e ↦ rw (e) h ]
