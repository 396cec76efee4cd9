-- ===== src/Tests/Labels.antt =====
-- The theorems on the labels of component versions at concrete arguments.
use mathlib.Core.List.{Perm, Pairwise-singleton}
use hypershift_lite.Prelude.{
  ℕ, ◌≤◌, ◌≡◌, ◌≢◌, refl, sym, ap, true, false, [], ◌∷◌, some, ◌+◌, ◌-◌, ◌%◌, ◌&&◌, leb, arith,
  if◌then◌else◌, inl, inr, Bool-cases, ◌∙◌,
}
use hypershift_lite.Prelude.Result.{Result, ok, err, message}
use hypershift_lite.Api.{Text, Platform, Semver}
use hypershift_lite.Release.Texts.Order.{text_eq_sound}
use hypershift_lite.Tests.Fixtures.{platform}
use hypershift_lite.Release.Texts.Laws.{Lacks, ends_tight}
use hypershift_lite.Release.Texts.{is_space, trim_space, find, put, keys, text_eq}
use hypershift_lite.Release.Texts.Maps.{IsMap, SameMap, empty-each, text_eq-false, put-IsMap}
use hypershift_lite.Release.Texts.Sorting.{IsOrdered}
use hypershift_lite.Release.Labels.{
  ComponentVersion, ComponentVersions, ordered_keys, version_label,
}
use hypershift_lite.Release.Labels.{display_name_label, parse_component_versions_label}
use hypershift_lite.Release.Labels.Unordered.{labels-SameMap, ordered_keys-IsOrdered}
use hypershift_lite.Release.Labels.Parsed.{IsLabelMap, parse_component_versions_label-IsLabelMap}
use hypershift_lite.Release.Labels.Printed.{SemverPrints}
use hypershift_lite.Release.Labels.Roundtrip.{renamed, version_label-parse}
use hypershift_lite.Release.Labels.Roundtrip.Named.{AllNamed, labels-parse}
use hypershift_lite.Release.Labels.Roundtrip.Unnamed.{unnamed-refused}

-- Versions of one digit.
abbrev digit_version : Text → Result Semver
digit_version (a ∷ []) =
    if leb b'0' a && leb a b'9'
    then ok (record { major = a - b'0'; minor = 0; patch = 0; pre = []; build = [] })
    else err (message "no digit")
digit_version _ = err (message "not one digit")

abbrev pub digits : Platform
digits = record platform {
  parse_semver = digit_version;
  semver_string = λ v. (b'0' + v.major % 10) ∷ [];
}

one_digit : (m : ℕ) → (48 + m % 10 ≤ 57) × (48 + m % 10 - 48 ≡ m % 10) × (m % 10 % 10 ≡ m % 10)
one_digit m = (omega arith, omega arith, omega arith)

digit_parsed :
    (n : ℕ)
    → 48 ≤ n
    → n ≤ 57
    → digit_version (n ∷ [])
      ≡ ok (record { major = n - 48; minor = 0; patch = 0; pre = []; build = [] })
digit_parsed n low high = ground arith

plain_digit : (n : ℕ) → Lacks b',' ((48 + n) ∷ [])
plain_digit n = ground arith

tight_digit : (n : ℕ) → ends_tight ((48 + n) ∷ []) ≡ true
unfolding is_space
tight_digit n = ground arith

digits_print : SemverPrints digits
digits_print = record {
  again = λ t v h.
      let (high, back, once) = one_digit v.major in
      (
        record { major = 48 + v.major % 10 - 48; minor = 0; patch = 0; pre = []; build = [] },
        digit_parsed (48 + v.major % 10) (omega arith) high,
        ap (λ n. (48 + n) ∷ []) (rw (back) once),
      );
  plain = λ t v h. (plain_digit (v.major % 10), tight_digit (v.major % 10));
}

abbrev pub named_label : Text
named_label = b'a' ∷ b'a' ∷ b'=' ∷ b'1' ∷ b',' ∷ b' ' ∷ b'b' ∷ b'b' ∷ b'=' ∷ b'2' ∷ []

abbrev named_displays : Text
named_displays = b'b' ∷ b'b' ∷ b'=' ∷ b'B' ∷ b',' ∷ b'a' ∷ b'a' ∷ b'=' ∷ b'A' ∷ b' ' ∷ []

abbrev pub aa : Text
aa = b'a' ∷ b'a' ∷ []

abbrev pub bb : Text
bb = b'b' ∷ b'b' ∷ []

abbrev alpha : ComponentVersion
alpha = record { version = b'1' ∷ []; display_name = b'A' ∷ [] }

abbrev beta : ComponentVersion
beta = record { version = b'2' ∷ []; display_name = b'B' ∷ [] }

abbrev nameless : ComponentVersion
nameless = record { version = b'1' ∷ []; display_name = [] }

abbrev named_versions : ComponentVersions
named_versions = (aa, alpha) ∷ (bb, beta) ∷ []

named_parse : parse_component_versions_label digits named_label named_displays ≡ ok named_versions
unfolding parse_component_versions_label
named_parse = refl

parse_component_versions_label-IsLabelMap_example : IsLabelMap digits named_versions
parse_component_versions_label-IsLabelMap_example =
    parse_component_versions_label-IsLabelMap digits named_label named_displays named_versions
      named_parse

version_label-parse_example :
    (w : ComponentVersions) × (parse_component_versions_label digits
        (version_label named_versions)
        []
      ≡ ok w)
    × ((j : Text) → find j w ≡ renamed [] j (find j named_versions))
version_label-parse_example =
    version_label-parse digits named_label named_displays named_versions digits_print named_parse

-- One more component with a name.
named_cons :
    (k : Text) (c : ComponentVersion) (v : ComponentVersions)
    → c.display_name ≢ []
    → AllNamed v
    → AllNamed ((k, c) ∷ v)
unfolding find
named_cons k c v named rest j d found empty = elim (Bool-cases (text_eq k j)) [
  | inl here ↦
      let first : some c ≡ some d = rw (find, here) at found in
      let same : c ≡ d = cc in named (ap (λ x. x.display_name) same ∙ empty)
  | inr other ↦ rest j d (rw (find, other) at found) empty
]

one_letter : (c : ℕ) → (c ∷ []) ≢ []
one_letter c e = cc

each_named : AllNamed named_versions
each_named =
    named_cons aa alpha ((bb, beta) ∷ []) (one_letter b'A')
      (named_cons bb beta [] (one_letter b'B') (λ k c found e. empty-each ⊥ k c found))

labels-parse_example :
    (w : ComponentVersions) × (parse_component_versions_label digits
        (version_label named_versions)
        (display_name_label named_versions)
      ≡ ok w)
    × SameMap w named_versions
labels-parse_example =
    labels-parse digits named_label named_displays named_versions digits_print named_parse
      each_named

-- The same without a name for the first component.
abbrev half_displays : Text
half_displays = b'b' ∷ b'b' ∷ b'=' ∷ b'B' ∷ []

abbrev half_versions : ComponentVersions
half_versions = (aa, nameless) ∷ (bb, beta) ∷ []

half_parse : parse_component_versions_label digits named_label half_displays ≡ ok half_versions
unfolding parse_component_versions_label
half_parse = refl

unnamed-refused_example :
    parse_component_versions_label digits named_label (display_name_label half_versions)
    ≢ ok half_versions
unfolding find trim_space text_eq
unnamed-refused_example =
    unnamed-refused digits named_label half_displays half_versions aa bb nameless beta named_label
      half_versions digits_print half_parse (text_eq-false _ _ refl) refl refl refl
      (text_eq-false _ _ refl)

half_label : display_name_label half_versions ≡ b',' ∷ b'b' ∷ b'b' ∷ b'=' ∷ b'B' ∷ []
unfolding display_name_label
half_label = refl

abbrev swapped_versions : ComponentVersions
swapped_versions = (bb, beta) ∷ (aa, alpha) ∷ []

ordered_keys-IsOrdered_example :
    IsOrdered (ordered_keys swapped_versions)
    × Perm (ordered_keys swapped_versions) (keys swapped_versions)
ordered_keys-IsOrdered_example = ordered_keys-IsOrdered swapped_versions

named_IsMap : IsMap named_versions
unfolding put text_eq
named_IsMap = put-IsMap bb beta ((aa, alpha) ∷ []) (Pairwise-singleton _ aa)

swapped_IsMap : IsMap swapped_versions
unfolding put text_eq
swapped_IsMap = put-IsMap aa alpha ((bb, beta) ∷ []) (Pairwise-singleton _ bb)

not_both : (k : Text) → text_eq aa k ≡ true → text_eq bb k ≡ false
unfolding text_eq
not_both k h = rw (sym (text_eq_sound aa k h)) refl

swapped_SameMap : SameMap swapped_versions named_versions
unfolding find
swapped_SameMap k = elim (Bool-cases (text_eq aa k)) [
  | inl here ↦ rw (here, not_both k here) refl
  | inr other ↦ rw (other) refl
]

labels-SameMap_example :
    (ordered_keys swapped_versions ≡ ordered_keys named_versions)
    × (version_label swapped_versions ≡ version_label named_versions)
    × (display_name_label swapped_versions ≡ display_name_label named_versions)
labels-SameMap_example =
    labels-SameMap swapped_versions named_versions swapped_IsMap named_IsMap swapped_SameMap
