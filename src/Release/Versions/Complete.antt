-- ===== src/Release/Versions/Complete.antt =====
-- `ComponentVersions` of pkg/releaseinfo/releaseinfo.go on tags that agree.
use mathlib.Core.List.{Pairwise}
use mathlib.Core.Path.{subst}
use hypershift_lite.Prelude.{
  ◌≡◌, ◌≢◌, ◌⊎◌, refl, sym, ap, false, List, [], ◌∷◌, Option, none, some, inl, inr, Bool-cases,
  Option-cases,
}
use hypershift_lite.Prelude.Result.{Error, Result, ok, err}
use hypershift_lite.Api.{Text, Platform, TagReference, ImageStream}
use hypershift_lite.Release.Texts.{text_eq, find, put, keys, sort_texts}
use hypershift_lite.Release.Texts.Order.{text_eq_refl, text_eq_sound}
use hypershift_lite.Release.Texts.Maps.{IsMap, find-put, key_of_find, text_eq_ne}
use hypershift_lite.Prelude.Dict.{lookup}
use hypershift_lite.Release.Labels.{
  ComponentVersion, ComponentVersions, parse_component_versions_label,
}
use hypershift_lite.Release.Versions.{annotation_build_versions, text_or_empty}
use hypershift_lite.Release.Versions.{annotation_build_versions_display_names}
use hypershift_lite.Release.Labels.Parsed.{parse_component_versions_label-IsLabelMap}
use hypershift_lite.Release.Versions.{TextSet, insert_text, or_new, Combined}
use hypershift_lite.Release.Versions.{combine_versions, combine_tag, combine_tags, multiples_of}
use hypershift_lite.Release.Versions.{is_multiple, entries_of, read_component_versions}
use hypershift_lite.Release.Versions.{component_versions, put_all, with_release, reported, report}
use hypershift_lite.Release.Versions.Gathered.{annotated, Tells, combined_one}
use hypershift_lite.Release.Versions.Tags.{AllParsed, combine_annotated, combine_tag-annotated}

-- Nothing was gathered under a key, or one text.
abbrev OneOf : Option TextSet → Text → Type 0
OneOf o t = (o ≡ none) ⊎ (o ≡ some (t ∷ []))

insert_one : (o : Option TextSet) (t : Text) → OneOf o t → insert_text t (or_new o) ≡ t ∷ []
unfolding insert_text
insert_one o t (inl e) = rw (e) refl
insert_one o t (inr e) = rw (e, insert_text, text_eq_refl) refl

put_one :
    (sets : List (Text × TextSet)) (j k : Text) (f : Text → Text)
    → ((i : Text) → OneOf (find i sets) (f i))
    → OneOf (find k (put j (insert_text (f j) (or_new (find j sets))) sets)) (f k)
put_one sets j k f one = elim (Bool-cases (text_eq j k)) [
  | inl here ↦ inr (
      rw (find-put, here, insert_one (find j sets) (f j) (one j))
        (ap (λ i. some (f i ∷ [])) (text_eq_sound j k here)))
  | inr other ↦ subst (λ o. OneOf o (f k)) (sym (rw (find-put, other) refl)) (one k)
]

module _ (f : Text → ComponentVersion) where
  -- No key has two versions or two display names, and there is no error.
  record IsAgreed (acc : Combined) : Type 0 where
    versions : (k : Text) → OneOf (find k acc.versions) (f k).version
    display_names : (k : Text) → OneOf (find k acc.display_names) (f k).display_name
    errors : acc.errors ≡ []

  one-IsAgreed : (acc : Combined) (j : Text) → IsAgreed acc → IsAgreed (combined_one acc j (f j))
  one-IsAgreed acc j h = record {
    versions = λ k. put_one acc.versions j k (λ i. (f i).version) h.versions;
    display_names = λ k. put_one acc.display_names j k (λ i. (f i).display_name) h.display_names;
    errors = h.errors;
  }

  all-IsAgreed :
      (acc : Combined) (all : ComponentVersions)
      → IsMap all
      → ((k : Text) (c : ComponentVersion) → find k all ≡ some c → c ≡ f k)
      → IsAgreed acc
      → IsAgreed (combine_versions acc all)
  unfolding combine_versions find
  all-IsAgreed acc [] map told h = h
  all-IsAgreed acc ((j, v) ∷ rest) (Pairwise.cons fresh map) told h =
      let first : v ≡ f j = told j v (rw (find, text_eq_refl) refl) in
      all-IsAgreed (combined_one acc j v) rest map
        (λ k c found.
          told k c (rw (find, text_eq_ne j k (fresh k (key_of_find k c rest found))) found))
        (subst (λ c. IsAgreed (combined_one acc j c)) (sym first) (one-IsAgreed acc j h))

  module _ (p : Platform) where
    annotated-IsMap :
        (tag : TagReference) (all : ComponentVersions) → annotated p tag ≡ some (ok all) → IsMap all
    annotated-IsMap tag all h =
        elim (Option-cases (lookup annotation_build_versions tag.annotations)) [
          | inl missing ↦ cc (rw (annotated, missing) at h)
          | inr (label, found) ↦
              let display =
                text_or_empty (lookup annotation_build_versions_display_names tag.annotations) in
              let made : some (parse_component_versions_label p label display) ≡ some (ok all) =
                rw (annotated, found) at h in
              let parsed : parse_component_versions_label p label display ≡ ok all = cc in
              (parse_component_versions_label-IsLabelMap p label display all parsed).is_map
        ]

    tag-IsAgreed :
        (acc : Combined) (tag : TagReference) (o : Option (Result ComponentVersions))
        → ((e : Error) → o ≢ some (err e))
        → ((all : ComponentVersions) → o ≡ some (ok all) → IsMap all)
        → ((all : ComponentVersions) (k : Text) (c : ComponentVersion)
            → o ≡ some (ok all)
            → find k all ≡ some c
            → c ≡ f k)
        → IsAgreed acc
        → IsAgreed (combine_annotated p acc tag o)
    tag-IsAgreed acc tag none parsed map told h = h
    tag-IsAgreed acc tag (some (ok all)) parsed map told h =
        all-IsAgreed acc all (map all refl) (λ k c found. told all k c refl found) h
    tag-IsAgreed acc tag (some (err e)) parsed map told h = absurd (parsed e refl)

    tags-IsAgreed :
        (acc : Combined) (tags : List TagReference)
        → AllParsed p tags
        → ((k : Text) (c : ComponentVersion) → Tells p tags k c → c ≡ f k)
        → IsAgreed acc
        → IsAgreed (combine_tags p acc tags)
    unfolding combine_tags
    tags-IsAgreed acc [] parsed told h = h
    tags-IsAgreed acc (tag ∷ tags) (parsed, later) told h =
        tags-IsAgreed (combine_tag p acc tag) tags later (λ k c tells. told k c (inr tells))
          (subst IsAgreed (sym (combine_tag-annotated p acc tag)) (
            tag-IsAgreed acc tag (annotated p tag) parsed (annotated-IsMap tag)
              (λ all k c made found. told k c (inl (all, made, found))) h))

one_not_multiple : (o : Option TextSet) (t : Text) → OneOf o t → is_multiple o ≡ false
one_not_multiple o t (inl e) = rw (e) refl
one_not_multiple o t (inr e) = rw (e) refl

none_added :
    (acc : TextSet) (sets : List (Text × TextSet)) (ks : List Text) (f : Text → Text)
    → ((k : Text) → OneOf (find k sets) (f k))
    → multiples_of acc sets ks ≡ acc
unfolding multiples_of
none_added acc sets [] f one = refl
none_added acc sets (k ∷ ks) f one =
    rw (multiples_of, one_not_multiple (find k sets) (f k) (one k)) (none_added acc sets ks f one)

module _ (p : Platform) where
  abbrev gathered : ImageStream → Combined
  gathered is = combine_tags p (record { versions = []; display_names = []; errors = [] }) is.tags

  abbrev found_in : ImageStream → ComponentVersions
  found_in is = entries_of (gathered is) (sort_texts (keys (gathered is).versions))

  gathered-IsAgreed :
      (is : ImageStream) (f : Text → ComponentVersion)
      → AllParsed p is.tags
      → ((k : Text) (c : ComponentVersion) → Tells p is.tags k c → c ≡ f k)
      → IsAgreed f (gathered is)
  unfolding find
  gathered-IsAgreed is f parsed told =
      tags-IsAgreed f p _ is.tags parsed told
        (record { versions = λ k. inl refl; display_names = λ k. inl refl; errors = refl })

  agreed-read :
      (is : ImageStream) (f : Text → ComponentVersion)
      → IsAgreed f (gathered is)
      → read_component_versions p is ≡ (found_in is, [])
  unfolding read_component_versions sort_texts
  agreed-read is f h =
      let ks = sort_texts (keys (gathered is).versions) in
      rw
        (
          read_component_versions,
          none_added [] (gathered is).versions ks (λ k. (f k).version) h.versions,
          none_added [] (gathered is).display_names ks (λ k. (f k).display_name) h.display_names,
          h.errors,
        )
        refl

  -- ComponentVersions reports versions, and no error, when each annotation of a tag is parsed and
  -- the tags agree: whatever a tag tells of a component is that component's one version and display
  -- name.
  pub component_versions-reports :
      (is : ImageStream) (f : Text → ComponentVersion)
      → AllParsed p is.tags
      → ((k : Text) (c : ComponentVersion) → Tells p is.tags k c → c ≡ f k)
      → (versions : List (Text × Text)) × (component_versions p is ≡ reported versions)
  unfolding component_versions
  component_versions-reports is f parsed told = (
    put_all p (with_release p is.name) (found_in is),
    ap (λ r. let (found, errors) = r in report p found is.name errors)
        (agreed-read is f (gathered-IsAgreed is f parsed told)),
  )
