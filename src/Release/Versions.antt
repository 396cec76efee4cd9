-- ===== src/Release/Versions.antt =====
-- `readComponentVersions` and `ComponentVersions` of pkg/releaseinfo/releaseinfo.go.
pub mod Gathered
pub mod Refined
pub mod Tags
pub mod Complete
use hypershift_lite.Prelude.{String, ◌<>◌, Bool, List, [], ◌∷◌, ◌++◌, Option, none, some}
use hypershift_lite.Prelude.{ltb, length, if◌then◌else◌}
use hypershift_lite.Prelude.Dict.{lookup}
use hypershift_lite.Prelude.Result.{Error, Result, ok, err, wrap, quoted}
use hypershift_lite.Api.{Text, Platform, ImageStream, TagReference}
use hypershift_lite.Release.Texts.{find, put, keys, text_eq, sort_texts}
use hypershift_lite.Release.Labels.{ComponentVersions, version_string}
use hypershift_lite.Release.Labels.{parse_component_versions_label}

abbrev pub annotation_build_versions : String
annotation_build_versions = "io.openshift.build.versions"

abbrev pub annotation_build_versions_display_names : String
annotation_build_versions_display_names = "io.openshift.build.version-display-names"

-- A sets.String: a list without a text twice.
abbrev TextSet : Type 0
TextSet = List Text

abbrev pub member : Text → TextSet → Bool
member t [] = Bool.false
member t (s ∷ rest) = if text_eq s t then Bool.true else member t rest

unfoldable pub insert_text : Text → TextSet → TextSet
unfolding text_eq
insert_text t set = if member t set then set else set ++ t ∷ []

abbrev pub or_new : Option TextSet → TextSet
or_new none = []
or_new (some set) = set

-- The two maps of the first loop, and its errors.
pub record Combined : Type 0 where
  pub versions : List (Text × TextSet)
  pub display_names : List (Text × TextSet)
  pub errors : List Error

unfoldable pub combine_versions : Combined → ComponentVersions → Combined
unfolding insert_text find put
combine_versions acc [] = acc
combine_versions acc ((k, v) ∷ rest) =
    combine_versions
      (record acc {
        versions = put k (insert_text v.version (or_new (find k acc.versions))) acc.versions;
        display_names =
            put k (insert_text v.display_name (or_new (find k acc.display_names)))
              acc.display_names;
      })
      rest

abbrev pub text_or_empty : Option Text → Text
text_or_empty none = []
text_or_empty (some t) = t

-- The smallest text: `v.List()[0]` of a set, which the code never asks of an empty one.
abbrev pub first_text : TextSet → Text
first_text [] = []
first_text (t ∷ _) = t

module _ (p : Platform) where
  abbrev pub combine_result : Combined → TagReference → Result ComponentVersions → Combined
  combine_result acc tag (ok all) = combine_versions acc all
  combine_result acc tag (err e) = record acc {
    errors =
        acc.errors
        ++ wrap ("the referenced image " <> tag.name <> " had an invalid version annotation") e
          ∷ [];
  }

  -- One round of the first loop: a tag without the annotation is passed over, and one with a bad
  -- annotation adds an error.
  unfoldable pub combine_tag : Combined → TagReference → Combined
  unfolding lookup combine_versions parse_component_versions_label
  combine_tag acc tag = elim (lookup annotation_build_versions tag.annotations) [
    | none ↦ acc
    | some label ↦ combine_result acc tag (
        parse_component_versions_label p label
          (text_or_empty (lookup annotation_build_versions_display_names tag.annotations)))
  ]

  unfoldable pub combine_tags : Combined → List TagReference → Combined
  unfolding combine_tag
  combine_tags acc [] = acc
  combine_tags acc (tag ∷ tags) = combine_tags (combine_tag acc tag) tags

-- The keys with more than one version, or with more than one display name.
abbrev pub is_multiple : Option TextSet → Bool
is_multiple none = Bool.false
is_multiple (some set) = ltb 1 (length set)

unfoldable pub multiples_of : TextSet → List (Text × TextSet) → List Text → TextSet
unfolding insert_text find
multiples_of acc sets [] = acc
multiples_of acc sets (k ∷ ks) =
    multiples_of (if is_multiple (find k sets) then insert_text k acc else acc) sets ks

-- The second and third loops build one entry for each key, in order: its least version and its
-- least display name.
unfoldable pub smallest : Option TextSet → Text
unfolding sort_texts
smallest set = first_text (sort_texts (or_new set))

unfoldable pub entries_of : Combined → List Text → ComponentVersions
unfolding smallest find
entries_of acc [] = []
entries_of acc (k ∷ ks) =
    (
      k,
      record {
        version = smallest (find k acc.versions);
        display_name = smallest (find k acc.display_names);
      },
    )
    ∷ entries_of acc ks

-- strings.Join(texts, ",  ")
unfoldable pub join_texts : List Text → Text
join_texts [] = []
join_texts (t ∷ []) = t
join_texts (t ∷ u ∷ ts) = t ++ (b',' ∷ b' ' ∷ b' ' ∷ join_texts (u ∷ ts))

abbrev pub conflict : TextSet → List Error
conflict [] = []
conflict (k ∷ ks) =
    quoted "multiple versions or display names reported for the following component(s): "
      (join_texts (k ∷ ks)) ""
    ∷ []

-- The result of ComponentVersions: the versions, or the aggregate of one error or more.
pub data Reported : Type 0 where
  reported : List (Text × Text) → Reported
  aggregate : Error → List Error → Reported

module _ (p : Platform) where
  unfoldable pub read_component_versions : ImageStream → ComponentVersions × List Error
  unfolding combine_tags multiples_of entries_of join_texts
  read_component_versions is =
      let acc =
        combine_tags p (record { versions = []; display_names = []; errors = [] }) is.tags in
      let ks = sort_texts (keys acc.versions) in
      let multiples = multiples_of (multiples_of [] acc.versions ks) acc.display_names ks in
      (entries_of acc ks, acc.errors ++ conflict (sort_texts multiples))

  -- ComponentVersions: the versions by component, and the release's own name under `release`.
  abbrev pub release_key : Text
  release_key = b'r' ∷ b'e' ∷ b'l' ∷ b'e' ∷ b'a' ∷ b's' ∷ b'e' ∷ []

  unfoldable pub put_all : List (Text × Text) → ComponentVersions → List (Text × Text)
  unfolding put
  put_all versions [] = versions
  put_all versions ((k, c) ∷ rest) = put_all (put k (version_string c) versions) rest

  abbrev pub with_release : Text → List (Text × Text)
  with_release [] = []
  with_release (c ∷ s) = (release_key, c ∷ s) ∷ []

  abbrev pub report : ComponentVersions → Text → List Error → Reported
  report found name [] = reported (put_all (with_release name) found)
  report found name (e ∷ es) = aggregate e es

  unfoldable pub component_versions : ImageStream → Reported
  unfolding read_component_versions put_all
  component_versions is =
      let (found, errors) = read_component_versions is in report found is.name errors
