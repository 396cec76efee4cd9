-- ===== src/Tests/Versions.antt =====
-- The theorem on the versions of an image stream at concrete tags.
use hypershift_lite.Prelude.{String, ◌≡◌, refl, List, [], ◌∷◌, none, some, inl, inr}
use hypershift_lite.Prelude.Dict.{lookup}
use hypershift_lite.Release.Labels.{parse_component_versions_label}
use hypershift_lite.Api.{Text, ImageStream, TagReference}
use hypershift_lite.Release.Texts.{find}
use hypershift_lite.Release.Labels.{ComponentVersion}
use hypershift_lite.Release.Versions.{annotation_build_versions, component_versions, reported}
use hypershift_lite.Release.Versions.Gathered.{Tells}
use hypershift_lite.Release.Versions.Tags.{AllParsed}
use hypershift_lite.Prelude.{sym, ◌∙◌, Bool-cases}
use hypershift_lite.Prelude.Result.{Error, ok, err}
use hypershift_lite.Release.Labels.{ComponentVersions}
use hypershift_lite.Release.Texts.{text_eq}
use hypershift_lite.Release.Versions.Gathered.{annotated}
use hypershift_lite.Release.Versions.Complete.{component_versions-reports}
use hypershift_lite.Release.Versions.Refined.{component_versions-Tells, component_versions-untold}
use hypershift_lite.Tests.Labels.{aa, bb, digits, named_label}

abbrev tag_with : String → Text → TagReference
tag_with name label = record {
  name = name;
  from = none;
  annotations = (annotation_build_versions, label) ∷ [];
}

-- Two tags that agree on the component that both have.
abbrev two_tags : ImageStream
two_tags = record {
  name = b'4' ∷ [];
  tags =
      tag_with "cli" named_label
      ∷ tag_with "hyperkube" (b'b' ∷ b'b' ∷ b'=' ∷ b'2' ∷ [])
      ∷ record { name = "pod"; from = none; annotations = [] }
      ∷ [];
}

abbrev two_tags_versions : List (Text × Text)
two_tags_versions =
    (b'r' ∷ b'e' ∷ b'l' ∷ b'e' ∷ b'a' ∷ b's' ∷ b'e' ∷ [], b'4' ∷ [])
    ∷ (aa, b'1' ∷ [])
    ∷ (bb, b'2' ∷ [])
    ∷ []

two_tags_reported : component_versions digits two_tags ≡ reported two_tags_versions
unfolding component_versions
two_tags_reported = refl

bb_told : Tells digits two_tags.tags bb (record { version = b'2' ∷ []; display_name = [] })
unfolding lookup parse_component_versions_label find
bb_told = inr (inl ((bb, record { version = b'2' ∷ []; display_name = [] }) ∷ [], refl, refl))

component_versions-Tells_example :
    (find bb two_tags_versions ≡ some (b'2' ∷ [])) × AllParsed digits two_tags.tags
component_versions-Tells_example =
    component_versions-Tells digits two_tags two_tags_versions bb
      (record { version = b'2' ∷ []; display_name = [] }) two_tags_reported bb_told

abbrev no_tags : ImageStream
no_tags = record {
  name = b'4' ∷ [];
  tags = record { name = "pod"; from = none; annotations = [] } ∷ [];
}

no_tags_reported :
    component_versions digits no_tags
    ≡ reported ((b'r' ∷ b'e' ∷ b'l' ∷ b'e' ∷ b'a' ∷ b's' ∷ b'e' ∷ [], b'4' ∷ []) ∷ [])
unfolding component_versions
no_tags_reported = refl

aa_untold : (c : ComponentVersion) → ¬ Tells digits no_tags.tags aa c
unfolding lookup
aa_untold c (inl (all, parsed, _)) = cc
aa_untold c (inr h) = h

component_versions-untold_example :
    find {V = Text} aa ((b'r' ∷ b'e' ∷ b'l' ∷ b'e' ∷ b'a' ∷ b's' ∷ b'e' ∷ [], b'4' ∷ []) ∷ [])
    ≡ none
unfolding text_eq
component_versions-untold_example =
    component_versions-untold digits no_tags
      ((b'r' ∷ b'e' ∷ b'l' ∷ b'e' ∷ b'a' ∷ b's' ∷ b'e' ∷ [], b'4' ∷ []) ∷ []) aa no_tags_reported
      aa_untold

-- Two tags with the same version of the same component, and one without the annotation.
abbrev bb_label : Text
bb_label = b'b' ∷ b'b' ∷ b'=' ∷ b'2' ∷ []

abbrev bb_version : ComponentVersion
bb_version = record { version = b'2' ∷ []; display_name = [] }

abbrev agreed_tags : ImageStream
agreed_tags = record {
  name = b'4' ∷ [];
  tags =
      tag_with "cli" bb_label
      ∷ tag_with "hyperkube" bb_label
      ∷ record { name = "pod"; from = none; annotations = [] }
      ∷ [];
}

bb_made :
    (name : String) → annotated digits (tag_with name bb_label) ≡ some (ok ((bb, bb_version) ∷ []))
unfolding lookup parse_component_versions_label
bb_made name = refl

bb_parsed :
    (name : String) (e : Error) → ¬ (annotated digits (tag_with name bb_label) ≡ some (err e))
bb_parsed name e h = cc (bb_made name)

agreed_tags-AllParsed : AllParsed digits agreed_tags.tags
unfolding lookup
agreed_tags-AllParsed = (bb_parsed "cli", (bb_parsed "hyperkube", (λ e h. cc, tt)))

bb_found :
    (k : Text) (c : ComponentVersion) → find k ((bb, bb_version) ∷ []) ≡ some c → c ≡ bb_version
unfolding find
bb_found k c h = elim (Bool-cases (text_eq bb k)) [
  | inl same ↦ cc (rw (find, same) at h)
  | inr other ↦ cc (rw (find, other) at h)
]

bb_only :
    (name : String) (all : ComponentVersions) (k : Text) (c : ComponentVersion)
    → annotated digits (tag_with name bb_label) ≡ some (ok all)
    → find k all ≡ some c
    → c ≡ bb_version
bb_only name all k c made found =
    let same : some (ok ((bb, bb_version) ∷ [])) ≡ some (ok all) = sym (bb_made name) ∙ made in
    let it : all ≡ (bb, bb_version) ∷ [] = cc in bb_found k c (rw (it) at found)

bb_agreed : (k : Text) (c : ComponentVersion) → Tells digits agreed_tags.tags k c → c ≡ bb_version
unfolding lookup
bb_agreed k c (inl (all, made, found)) = bb_only "cli" all k c made found
bb_agreed k c (inr (inl (all, made, found))) = bb_only "hyperkube" all k c made found
bb_agreed k c (inr (inr (inl (all, made, found)))) = cc
bb_agreed k c (inr (inr (inr h))) = absurd h

component_versions-reports_example :
    (versions : List (Text × Text)) × (component_versions digits agreed_tags ≡ reported versions)
component_versions-reports_example =
    component_versions-reports digits agreed_tags (λ _. bb_version) agreed_tags-AllParsed bb_agreed
