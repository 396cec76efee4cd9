-- ===== src/Release/Versions/Gathered.antt =====
-- What the first loop of `readComponentVersions` of pkg/releaseinfo/releaseinfo.go gathers, against
-- what the tags of the image stream say.
use mathlib.Core.Path.{subst}
use hypershift_lite.Prelude.{
  ◌≡◌, ◌⊎◌, refl, sym, ◌∙◌, true, List, [], ◌∷◌, ◌++◌, Option, none, some, arith, inl, inr,
  Bool-cases, if◌then◌else◌,
}
use hypershift_lite.Prelude.Dict.{lookup}
use hypershift_lite.Prelude.Result.{Result, ok}
use hypershift_lite.Api.{Text, Platform, TagReference}
use hypershift_lite.Release.Texts.{text_eq, find, put}
use hypershift_lite.Release.Texts.Order.{text_eq_refl, text_eq_sound}
use hypershift_lite.Release.Texts.Maps.{find-put}
use hypershift_lite.Release.Labels.{ComponentVersion, ComponentVersions}
use hypershift_lite.Release.Labels.{parse_component_versions_label}
use hypershift_lite.Release.Versions.{TextSet, member, insert_text, or_new, Combined}
use hypershift_lite.Release.Versions.{combine_versions, text_or_empty}
use hypershift_lite.Release.Versions.{annotation_build_versions}
use hypershift_lite.Release.Versions.{annotation_build_versions_display_names}

-- The versions that a tag's annotations give, or the error that they are parsed to, if it has them.
abbrev pub annotated : Platform → TagReference → Option (Result ComponentVersions)
annotated p tag = elim (lookup annotation_build_versions tag.annotations) [
  | none ↦ none
  | some label ↦ some (
      parse_component_versions_label p label
        (text_or_empty (lookup annotation_build_versions_display_names tag.annotations)))
]

-- A tag among the tags gives a component a version and a display name.
abbrev pub Tells : Platform → List TagReference → Text → ComponentVersion → Type 0
Tells p [] k c = ⊥
Tells p (tag ∷ tags) k c =
    ((all : ComponentVersions) × (annotated p tag ≡ some (ok all)) × (find k all ≡ some c))
    ⊎ Tells p tags k c

member-append :
    (t u : Text) (set : TextSet)
    → member t (set ++ u ∷ []) ≡ (if member t set then true else text_eq u t)
member-append t u [] = ground arith
member-append t u (s ∷ set) = ground (arith, member-append t u set)

member-insert_text : (t : Text) (set : TextSet) → member t (insert_text t set) ≡ true
unfolding insert_text
member-insert_text t set = ground (arith, member-append t t set, text_eq_refl t)

member-kept :
    (t u : Text) (set : TextSet) → member t set ≡ true → member t (insert_text u set) ≡ true
unfolding insert_text
member-kept t u set h = ground (arith, member-append t u set)

-- The versions that were gathered for a component.
abbrev pub versions_for : Combined → Text → TextSet
versions_for acc k = or_new (find k acc.versions)

abbrev pub combined_one : Combined → Text → ComponentVersion → Combined
combined_one acc k v = record acc {
  versions = put k (insert_text v.version (or_new (find k acc.versions))) acc.versions;
  display_names =
      put k (insert_text v.display_name (or_new (find k acc.display_names))) acc.display_names;
}

one_kept :
    (acc : Combined) (j k t : Text) (v : ComponentVersion)
    → member t (versions_for acc k) ≡ true
    → member t (versions_for (combined_one acc j v) k) ≡ true
one_kept acc j k t v h = elim (Bool-cases (text_eq j k)) [
  | inl here ↦
      let e = text_eq_sound j k here in
      rw (find-put, here)
        (subst (λ i. member t (insert_text v.version (versions_for acc i)) ≡ true) (sym e)
          (member-kept t v.version (versions_for acc k) h))
  | inr other ↦ rw (find-put, other) h
]

one_told :
    (acc : Combined) (k : Text) (v : ComponentVersion)
    → member v.version (versions_for (combined_one acc k v) k) ≡ true
one_told acc k v = rw (find-put, text_eq_refl) (member-insert_text v.version (versions_for acc k))

pub all_kept :
    (acc : Combined) (all : ComponentVersions) (k t : Text)
    → member t (versions_for acc k) ≡ true
    → member t (versions_for (combine_versions acc all) k) ≡ true
unfolding combine_versions
all_kept acc [] k t h = h
all_kept acc ((j, v) ∷ rest) k t h =
    all_kept (combined_one acc j v) rest k t (one_kept acc j k t v h)

pub all_told :
    (acc : Combined) (all : ComponentVersions) (k : Text) (c : ComponentVersion)
    → find k all ≡ some c
    → member c.version (versions_for (combine_versions acc all) k) ≡ true
unfolding combine_versions find
all_told acc [] k c h = cc
all_told acc ((j, v) ∷ rest) k c h = elim (Bool-cases (text_eq j k)) [
  | inl here ↦
      let first : some v ≡ some c = rw (find, here) at h in
      let same : v ≡ c = cc in
      all_kept (combined_one acc j v) rest k c.version (
        subst (λ i. member c.version (versions_for (combined_one acc j v) i) ≡ true)
          (text_eq_sound j k here)
          (subst (λ d. member d.version (versions_for (combined_one acc j v) j) ≡ true) same
            (one_told acc j v)))
  | inr other ↦ all_told (combined_one acc j v) rest k c (rw (find, other) at h)
]

pub all_untold :
    (acc : Combined) (all : ComponentVersions) (k : Text)
    → find k all ≡ none
    → find k (combine_versions acc all).versions ≡ find k acc.versions
unfolding combine_versions find
all_untold acc [] k h = refl
all_untold acc ((j, v) ∷ rest) k h = elim (Bool-cases (text_eq j k)) [
  | inl here ↦ cc (rw (find, here) at h)
  | inr other ↦
      all_untold (combined_one acc j v) rest k (rw (find, other) at h) ∙ rw (find-put, other) refl
]
