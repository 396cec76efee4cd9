-- ===== src/Release/Labels/Roundtrip/Named.antt =====
-- The label of display names that `DisplayNameLabel` of pkg/releaseinfo/releaseinfo.go prints, as
-- `parseComponentVersionsLabel` reads it.
use mathlib.Core.List.Perm
use hypershift_lite.Prelude.{
  ◌≡◌, ◌≢◌, refl, sym, ap, ◌∙◌, Bool, true, false, List, [], ◌∷◌, ◌++◌, some, map, inl, inr,
  Option-cases,
}
use hypershift_lite.Prelude.Result.{ok}
use hypershift_lite.Api.{Text, Platform}
use hypershift_lite.Release.Texts.{find, put, split}
use hypershift_lite.Release.Texts.Maps.{SameMap, put_keys, find-put_keys, key_of_find}
use hypershift_lite.Release.Texts.Laws.{AllLack, joined, split-joined}
use hypershift_lite.Release.Labels.{ComponentVersion, ComponentVersions, add_name, add_names}
use hypershift_lite.Release.Labels.{allowed_display_name, display_pair, display_pairs}
use hypershift_lite.Release.Labels.{display_name_label, version_label, ordered_keys}
use hypershift_lite.Release.Labels.{parse_display_names, parse_component_versions_label}
use hypershift_lite.Release.Labels.Parsed.{
  IsName, IsDisplayName, IsComponent, IsLabelMap, parse_component_versions_label-IsLabelMap,
}
use hypershift_lite.Release.Labels.Printed.{SemverPrints, pair_text, display_of}
use hypershift_lite.Release.Labels.Printed.{IsName-check, display_name-Lacks}
use hypershift_lite.Release.Labels.Pairs.{Printable, display_of-found, entry, pair_split}
use hypershift_lite.Release.Labels.Pairs.{pair-Lacks}
use hypershift_lite.Release.Labels.Unordered.{ordered_keys-IsOrdered}
use hypershift_lite.Release.Labels.Roundtrip.{ordered-Printable, pair_cons, label-parse}
use hypershift_lite.Release.Labels.Roundtrip.{find_written, renamed}

pub display_pairs-joined :
    (v : ComponentVersions) (first : Bool) (ks : List Text)
    → display_pairs first v ks ≡ joined b',' first (map (λ k. display_pair k (display_of v k)) ks)
unfolding display_pairs
display_pairs-joined v first [] = refl
display_pairs-joined v first (k ∷ ks) = rw (display_pairs-joined v false ks) refl

display_pair-pair_text : (k d : Text) → IsDisplayName d → display_pair k d ≡ pair_text k d
unfolding allowed_display_name
display_pair-pair_text k [] name = cc (name.allowed)
display_pair-pair_text k (c ∷ d) name = refl

add_name-pair :
    (names : List (Text × Text)) (k d : Text)
    → IsName k
    → IsDisplayName d
    → add_name names (pair_text k d) ≡ ok (put k d names)
unfolding add_name
add_name-pair names k d name display =
    rw (add_name, pair_split k d name display.tight, IsName-check k name, display.allowed) refl

-- Every component has a display name.
abbrev pub AllNamed : ComponentVersions → Type 0
AllNamed v = (k : Text) (c : ComponentVersion) → find k v ≡ some c → c.display_name ≢ []

module _ (p : Platform) (prints : SemverPrints p) (v : ComponentVersions)
    (good : IsLabelMap p v) where
  module _ (all_named : AllNamed v) where
    display_text :
        (k : Text) (c : ComponentVersion)
        → find k v ≡ some c
        → IsComponent p k c
        → IsDisplayName (display_of v k)
          × (display_pair k (display_of v k) ≡ pair_text k (display_of v k))
    display_text k c found made = elim made.display_name [
      | inl empty ↦ absurd (all_named k c found empty)
      | inr name ↦
          rw (display_of-found v k c found) (name, display_pair-pair_text k c.display_name name)
    ]

    add_names-pairs :
        (ks : List Text) (names : List (Text × Text))
        → Printable p prints v ks
        → add_names names (map (λ k. display_pair k (display_of v k)) ks)
          ≡ ok (put_keys (display_of v) names ks)
    unfolding add_names
    add_names-pairs [] names h = refl
    add_names-pairs (k ∷ ks) names ((c, found, made), h) =
        let (name, pair) = display_text k c found made in
        rw (pair, add_name-pair names k (display_of v k) made.name name)
          (add_names-pairs ks (put k (display_of v k) names) h)

    displays_plain :
        (ks : List Text)
        → Printable p prints v ks
        → AllLack b',' (map (λ k. display_pair k (display_of v k)) ks)
    displays_plain [] h = tt
    displays_plain (k ∷ ks) ((c, found, made), h) =
        let (name, pair) = display_text k c found made in
        (
          rw (pair) (pair-Lacks k (display_of v k) made.name (display_name-Lacks _ name)),
          displays_plain ks h,
        )

    joined_names :
        (ks : List Text)
        → Printable p prints v ks
        → parse_display_names p (joined b',' true (map (λ k. display_pair k (display_of v k)) ks))
          ≡ ok (put_keys (display_of v) [] ks)
    joined_names [] h = refl
    joined_names (k ∷ ks) h =
        let ((c, found, made), _) = h in
        let (name, pair) = display_text k c found made in
        let rest = map (λ j. display_pair j (display_of v j)) ks in
        let (d, s, shape) = pair_cons k (display_of v k) (joined b',' false rest) in
        let label = ap (λ t. t ++ joined b',' false rest) pair ∙ shape in
        rw (label) (
          ap (λ t. add_names [] (split b',' t)) (sym label)
          ∙ (ap (add_names []) (
                split-joined b',' (display_pair k (display_of v k)) rest
                  (displays_plain (k ∷ ks) h))
              ∙ add_names-pairs (k ∷ ks) [] h))

    label_names :
        parse_display_names p (display_name_label v)
        ≡ ok (put_keys (display_of v) [] (ordered_keys v))
    unfolding display_name_label
    label_names =
        ap (parse_display_names p) (display_pairs-joined v true (ordered_keys v))
        ∙ joined_names (ordered_keys v) (ordered-Printable p prints v good)

    named_again :
        (k : Text) → renamed (put_keys (display_of v) [] (ordered_keys v)) k (find k v) ≡ find k v
    named_again k = elim (Option-cases (find k v)) [
      | inl missing ↦ rw (missing) refl
      | inr (c, found) ↦
          rw
            (
              found,
              find-put_keys (display_of v) [] (ordered_keys v) k
                  ((Perm.mem_iff (ordered_keys-IsOrdered v).1).1 (key_of_find k c v found)),
              display_of-found v k c found,
            )
            refl
    ]

    written_again :
        (w : ComponentVersions) × (parse_component_versions_label p
            (version_label v)
            (display_name_label v)
          ≡ ok w)
        × SameMap w v
    written_again =
        let names = put_keys (display_of v) [] (ordered_keys v) in
        (
          put_keys (entry v names) [] (ordered_keys v),
          label-parse p prints v good (display_name_label v) names label_names,
          λ k. find_written p prints v good names k ∙ named_again k,
        )

-- A map that was parsed and in which every component has a display name is printed to two labels
-- that are parsed to a map with the same entries. This is provided that semver parses the versions
-- that it prints.
pub labels-parse :
    (p : Platform) (raw display : Text) (v : ComponentVersions)
    → SemverPrints p
    → parse_component_versions_label p raw display ≡ ok v
    → AllNamed v
    → (w : ComponentVersions) × (parse_component_versions_label p
          (version_label v)
          (display_name_label v)
        ≡ ok w)
      × SameMap w v
labels-parse p raw display v prints made all_named =
    written_again p prints v (parse_component_versions_label-IsLabelMap p raw display v made)
      all_named
