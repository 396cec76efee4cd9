-- ===== src/Release/Labels/Printed.antt =====
-- The pairs of the labels that `VersionLabel` and `DisplayNameLabel` of
-- pkg/releaseinfo/releaseinfo.go print, as the parser meets them again.
use mathlib.Core.List.{append_assoc}
use hypershift_lite.Prelude.{
  ℕ, ◌≡◌, refl, sym, Bool, true, false, List, [], ◌∷◌, ◌++◌, none, some, map, nat_eq, all, arith,
  inl, inr, Bool-cases,
}
use hypershift_lite.Prelude.Result.{ok}
use hypershift_lite.Api.{Text, Platform, Semver}
use hypershift_lite.Release.Texts.{is_space, find}
use hypershift_lite.Release.Texts.Laws.{nat_eq_sound, Lacks, joined, starts_tight, ends_tight}
use hypershift_lite.Release.Labels.{ComponentVersions, is_word, is_key_char}
use hypershift_lite.Release.Labels.{key_tail, allowed_version_key, is_display_char}
use hypershift_lite.Release.Labels.{allowed_display_name, check_name}
use hypershift_lite.Release.Labels.{version_pairs}
use hypershift_lite.Release.Labels.Keys.{key_char_of_word}
use hypershift_lite.Prelude.{and_true}
use hypershift_lite.Release.Labels.Parsed.{IsName, IsDisplayName}

-- What the code relies on in semver: the text of a parsed version without its build label is parsed
-- to a version of that text, and has neither a comma nor white space at its end.
pub record SemverPrints (p : Platform) : Type 0 where
  pub again :
      (t : Text) (v : Semver)
      → p.parse_semver t ≡ ok v
      → let u = p.semver_string (record v { build = [] }) in
        (w : Semver) × (p.parse_semver u ≡ ok w) × (p.semver_string (record w { build = [] }) ≡ u)
  pub plain :
      (t : Text) (v : Semver)
      → p.parse_semver t ≡ ok v
      → let u = p.semver_string (record v { build = [] }) in Lacks b',' u × (ends_tight u ≡ true)

-- A key and a value of a pair.
abbrev pub pair_text : Text → Text → Text
pair_text k t = k ++ b'=' ∷ t

-- The values as the loops of the two labels look them up.
abbrev pub version_of : ComponentVersions → Text → Text
version_of v k = elim (find k v) [ none ↦ [] | some c ↦ c.version ]

abbrev pub display_of : ComponentVersions → Text → Text
display_of v k = elim (find k v) [ none ↦ [] | some c ↦ c.display_name ]

pub version_pairs-joined :
    (v : ComponentVersions) (first : Bool) (ks : List Text)
    → version_pairs first v ks ≡ joined b',' first (map (λ k. pair_text k (version_of v k)) ks)
unfolding version_pairs
version_pairs-joined v first [] = refl
version_pairs-joined v first (k ∷ ks) = rw (version_pairs-joined v false ks, append_assoc) refl

not_in_word :
    (separator c : ℕ)
    → is_key_char separator ≡ false
    → is_key_char c ≡ true
    → nat_eq c separator ≡ false
not_in_word separator c h k = elim (Bool-cases (nat_eq c separator)) [
  | inl same ↦ cc (rw (sym (nat_eq_sound c separator same), k) at h)
  | inr other ↦ other
]

module _ (separator : ℕ) (outside : is_key_char separator ≡ false) where
  key_tail-Lacks : (s : Text) → key_tail s ≡ true → Lacks separator s
  unfolding key_tail
  key_tail-Lacks [] h = cc
  key_tail-Lacks (c ∷ []) h = rw (not_in_word separator c outside (key_char_of_word c h)) refl
  key_tail-Lacks (c ∷ d ∷ s) h =
      let (first, later) = and_true (is_key_char c) (key_tail (d ∷ s)) h in
      rw (not_in_word separator c outside first) (key_tail-Lacks (d ∷ s) later)

  pub IsName-Lacks : (k : Text) → IsName k → Lacks separator k
  unfolding allowed_version_key
  IsName-Lacks k name = lacks k name.allowed
    where
      lacks : (k : Text) → allowed_version_key k ≡ true → Lacks separator k
      lacks [] h = refl
      lacks (c ∷ s) h =
          let (first, later) = and_true (is_word c) (key_tail s) h in
          rw (not_in_word separator c outside (key_char_of_word c first)) (key_tail-Lacks s later)

word_not_space : (c : ℕ) → is_word c ≡ true → is_space c ≡ false
unfolding is_word is_space
word_not_space c h = ground arith

pub IsName-tight : (k t : Text) → IsName k → starts_tight (k ++ t) ≡ true
unfolding allowed_version_key
IsName-tight k t name = tight k name.allowed
  where
    tight : (k : Text) → allowed_version_key k ≡ true → starts_tight (k ++ t) ≡ true
    tight [] h = cc
    tight (c ∷ s) h = rw (word_not_space c (and_true (is_word c) (key_tail s) h).0) refl

pub IsName-check : (k : Text) → IsName k → check_name k ≡ ok tt
unfolding check_name
IsName-check k name = rw (check_name, name.long, name.allowed) refl

no_comma : (c : ℕ) → is_display_char c ≡ true → nat_eq c b',' ≡ false
unfolding is_display_char is_word
no_comma c h = elim (Bool-cases (nat_eq c b',')) [
  | inl same ↦ cc (rw (nat_eq_sound c b',' same) at h)
  | inr other ↦ other
]

display_char-Lacks : (s : Text) → all is_display_char s ≡ true → Lacks b',' s
display_char-Lacks [] h = refl
display_char-Lacks (c ∷ s) h =
    let (first, later) = and_true (is_display_char c) (all is_display_char s) h in
    rw (no_comma c first) (display_char-Lacks s later)

pub display_name-Lacks : (d : Text) → IsDisplayName d → Lacks b',' d
unfolding allowed_display_name
display_name-Lacks d name = lacks d name.allowed
  where
    lacks : (d : Text) → allowed_display_name d ≡ true → Lacks b',' d
    lacks [] h = refl
    lacks (c ∷ s) h = display_char-Lacks (c ∷ s) h
