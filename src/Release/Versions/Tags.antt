-- ===== src/Release/Versions/Tags.antt =====
-- The first loop of `readComponentVersions` of pkg/releaseinfo/releaseinfo.go, over all the tags.
use hypershift_lite.Prelude.{
  ◌≡◌, ◌≢◌, refl, sym, ◌∙◌, true, List, [], ◌∷◌, ◌++◌, Option, none, some, inl, inr, Option-cases,
}
use hypershift_lite.Prelude.Dict.{lookup}
use hypershift_lite.Prelude.Result.{Error, Result, ok, err}
use hypershift_lite.Api.{Text, Platform, TagReference}
use hypershift_lite.Release.Texts.{find}
use hypershift_lite.Release.Labels.{ComponentVersion, ComponentVersions}
use hypershift_lite.Release.Versions.{member, Combined}
use hypershift_lite.Release.Versions.{combine_versions, combine_tag, combine_tags, combine_result}
use hypershift_lite.Release.Versions.{annotation_build_versions}
use hypershift_lite.Release.Versions.Gathered.{
  combined_one, annotated, Tells, versions_for, all_kept, all_told,
}
use hypershift_lite.Release.Versions.Gathered.{all_untold}

module _ (p : Platform) where
  abbrev pub combine_annotated :
      Combined → TagReference → Option (Result ComponentVersions) → Combined
  combine_annotated acc tag none = acc
  combine_annotated acc tag (some r) = combine_result p acc tag r

  pub combine_tag-annotated :
      (acc : Combined) (tag : TagReference)
      → combine_tag p acc tag ≡ combine_annotated acc tag (annotated p tag)
  unfolding combine_tag
  combine_tag-annotated acc tag =
      elim (Option-cases (lookup annotation_build_versions tag.annotations)) [
        | inl missing ↦ rw (combine_tag, annotated, missing) refl
        | inr (label, found) ↦ rw (combine_tag, annotated, found) refl
      ]

  annotated_kept :
      (acc : Combined) (tag : TagReference) (o : Option (Result ComponentVersions)) (k t : Text)
      → member t (versions_for acc k) ≡ true
      → member t (versions_for (combine_annotated acc tag o) k) ≡ true
  annotated_kept acc tag none k t h = h
  annotated_kept acc tag (some (ok all)) k t h = all_kept acc all k t h
  annotated_kept acc tag (some (err e)) k t h = h

  tag_kept :
      (acc : Combined) (tag : TagReference) (k t : Text)
      → member t (versions_for acc k) ≡ true
      → member t (versions_for (combine_tag p acc tag) k) ≡ true
  tag_kept acc tag k t h =
      rw (combine_tag-annotated) (annotated_kept acc tag (annotated p tag) k t h)

  tags_kept :
      (acc : Combined) (tags : List TagReference) (k t : Text)
      → member t (versions_for acc k) ≡ true
      → member t (versions_for (combine_tags p acc tags) k) ≡ true
  unfolding combine_tags
  tags_kept acc [] k t h = h
  tags_kept acc (tag ∷ tags) k t h =
      tags_kept (combine_tag p acc tag) tags k t (tag_kept acc tag k t h)

  pub tags_told :
      (acc : Combined) (tags : List TagReference) (k : Text) (c : ComponentVersion)
      → Tells p tags k c
      → member c.version (versions_for (combine_tags p acc tags) k) ≡ true
  unfolding combine_tags
  tags_told acc [] k c h = absurd h
  tags_told acc (tag ∷ tags) k c (inl (all, parsed, told)) =
      tags_kept (combine_tag p acc tag) tags k c.version
        (rw (combine_tag-annotated, parsed) (all_told acc all k c told))
  tags_told acc (tag ∷ tags) k c (inr later) = tags_told (combine_tag p acc tag) tags k c later

  tag_untold :
      (acc : Combined) (tag : TagReference) (o : Option (Result ComponentVersions)) (k : Text)
      → ((all : ComponentVersions) → o ≡ some (ok all) → find k all ≡ none)
      → find k (combine_annotated acc tag o).versions ≡ find k acc.versions
  tag_untold acc tag none k h = refl
  tag_untold acc tag (some (ok all)) k h = all_untold acc all k (h all refl)
  tag_untold acc tag (some (err e)) k h = refl

  pub tags_untold :
      (acc : Combined) (tags : List TagReference) (k : Text)
      → ((c : ComponentVersion) → ¬ Tells p tags k c)
      → find k (combine_tags p acc tags).versions ≡ find k acc.versions
  unfolding combine_tags
  tags_untold acc [] k h = refl
  tags_untold acc (tag ∷ tags) k h =
      tags_untold (combine_tag p acc tag) tags k (λ c later. h c (inr later))
      ∙ rw (combine_tag-annotated) (
          tag_untold acc tag (annotated p tag) k (λ all parsed. elim (Option-cases (find k all)) [
            | inl missing ↦ missing
            | inr (c, found) ↦ absurd (h c (inl (all, parsed, found)))
          ]))

  -- No tag has annotations that are not parsed.
  abbrev pub AllParsed : List TagReference → Type 0
  AllParsed [] = Unit {0}
  AllParsed (tag ∷ tags) = ((e : Error) → annotated p tag ≢ some (err e)) × AllParsed tags

  append-nil_left : (es fs : List Error) → es ++ fs ≡ [] → es ≡ []
  append-nil_left [] fs h = refl
  append-nil_left (e ∷ es) fs h = cc

  versions-errors :
      (acc : Combined) (all : ComponentVersions) → (combine_versions acc all).errors ≡ acc.errors
  unfolding combine_versions
  versions-errors acc [] = refl
  versions-errors acc ((k, v) ∷ rest) = versions-errors (combined_one acc k v) rest

  no_error_added : (es : List Error) (e : Error) → es ++ e ∷ [] ≢ []
  no_error_added [] e h = cc
  no_error_added (d ∷ es) e h = cc

  tag_clean :
      (acc : Combined) (tag : TagReference) (o : Option (Result ComponentVersions))
      → (combine_annotated acc tag o).errors ≡ []
      → (acc.errors ≡ []) × ((e : Error) → o ≢ some (err e))
  tag_clean acc tag none h = (h, λ e k. cc)
  tag_clean acc tag (some (ok all)) h = (sym (versions-errors acc all) ∙ h, λ e k. cc)
  tag_clean acc tag (some (err e)) h = absurd (no_error_added _ _ h)

  pub tags_clean :
      (acc : Combined) (tags : List TagReference)
      → (combine_tags p acc tags).errors ≡ []
      → (acc.errors ≡ []) × AllParsed tags
  unfolding combine_tags
  tags_clean acc [] h = (h, tt)
  tags_clean acc (tag ∷ tags) h =
      let (before, later) = tags_clean (combine_tag p acc tag) tags h in
      let (clean, parsed) =
        tag_clean acc tag (annotated p tag) (rw (combine_tag-annotated) at before) in
      (clean, (parsed, later))
