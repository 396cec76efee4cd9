-- ===== src/Release/Images.antt =====
-- `ReleaseImage` of pkg/releaseinfo/releaseinfo.go, and the decorator of static_provider.go.
pub mod Laws
use hypershift_lite.Prelude.{String, List, [], ◌∷◌, ◌++◌, Option, none, some, map}
use hypershift_lite.Prelude.Dict.{Dict, insert}
use hypershift_lite.Prelude.Result.{Result, ok, err, panic, ◌>>=◌}
use hypershift_lite.Api.{Text, ImageStream, TagReference}

-- A release image wraps an image stream.
abbrev pub ReleaseImage : Type 0
ReleaseImage = ImageStream

-- Version of ReleaseImage
abbrev pub version : ReleaseImage → Text
version release = release.name

-- The loop of ComponentImages. `tag.From.Name` panics at a tag with no reference.
unfoldable pub collect_images : Dict String → List TagReference → Result (Dict String)
unfolding insert
collect_images images [] = ok images
collect_images images (tag ∷ tags) = elim tag.from [
  | none ↦ err (panic "invalid memory address or nil pointer dereference")
  | some image ↦ collect_images (insert tag.name image images) tags
]

unfoldable pub component_images : ReleaseImage → Result (Dict String)
unfolding collect_images
component_images release = collect_images [] release.tags

abbrev pub static_tag : String × String → TagReference
static_tag (component, image) = record { name = component; from = some image; annotations = [] }

-- What StaticProviderDecorator.Lookup makes of the result of its delegate. A map is iterated in an
-- order that Go does not fix: it is given as a list.
unfoldable pub decorate : Option (Dict String) → Result ReleaseImage → Result ReleaseImage
decorate overrides result = do
  release ← result
  elim overrides [
    | none ↦ ok release
    | some images ↦ ok (record release { tags = release.tags ++ map static_tag images })
  ]
