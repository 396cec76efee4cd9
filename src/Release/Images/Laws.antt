-- ===== src/Release/Images/Laws.antt =====
-- The images of a release: the last tag of a name counts, and overrides come before the release's.
use hypershift_lite.Prelude.{
  String, ◌≡◌, refl, ◌∙◌, ap, sym, Bool, true, false, List, [], ◌∷◌, ◌++◌, Option, none, some, map,
  ◌==◌, if◌then◌else◌, Bool-cases, Option-cases, inl, inr, all,
}
use hypershift_lite.Prelude.Dict.{Dict, lookup, insert, lookup-insert}
use hypershift_lite.Prelude.Result.{ok, ◌>>=◌}
use hypershift_lite.Api.{TagReference}
use hypershift_lite.Release.Images.{
  ReleaseImage, collect_images, component_images, decorate, static_tag,
}

abbrev pub or_else : Option String → Option String → Option String
or_else none other = other
or_else (some image) other = some image

-- The reference of the last tag with a name.
abbrev pub last_image : String → List TagReference → Option String
last_image name [] = none
last_image name (tag ∷ tags) =
    or_else (last_image name tags) (if tag.name == name then tag.from else none)

abbrev pub is_referenced : TagReference → Bool
is_referenced tag = elim tag.from [ none ↦ false | some _ ↦ true ]

or_else_assoc : (a b c : Option String) → or_else (or_else a b) c ≡ or_else a (or_else b c)
or_else_assoc none b c = refl
or_else_assoc (some a) b c = refl

inserted :
    (name key image : String) (m : Dict String)
    → lookup name (insert key image m)
      ≡ or_else (if key == name then some image else none) (lookup name m)
inserted name key image m = elim (Bool-cases (key == name)) [
  | inl hit ↦ rw (lookup-insert, hit) refl
  | inr miss ↦ rw (lookup-insert, miss) refl
]

collect_images-last :
    (tags : List TagReference) (m : Dict String)
    → all is_referenced tags ≡ true
    → (images : Dict String) × (collect_images m tags ≡ ok images)
      × ((name : String) → lookup name images ≡ or_else (last_image name tags) (lookup name m))
unfolding collect_images
collect_images-last [] m h = (m, refl, λ name. refl)
collect_images-last (tag ∷ tags) m h = elim (Option-cases tag.from) [
  | inl missing ↦ cc (rw (missing) at h)
  | inr (image, found) ↦
      let later : all is_referenced tags ≡ true = rw (found) at h in
      let (images, made, finds) = collect_images-last tags (insert tag.name image m) later in
      (
        images,
        rw (collect_images, found) made,
        λ name.
            finds name
            ∙ ap (or_else (last_image name tags)) (inserted name tag.name image m)
            ∙ rw (found) (
                sym (
                  or_else_assoc (last_image name tags)
                    (if tag.name == name then some image else none) (lookup name m))),
      )
]

or_else-none : (a : Option String) → or_else a none ≡ a
or_else-none none = refl
or_else-none (some image) = refl

-- If every tag of a release has a reference, ComponentImages returns, without a panic, a map that
-- holds for each name the reference of the last tag with that name, and nothing for other names.
pub component_images-last :
    (release : ReleaseImage)
    → all is_referenced release.tags ≡ true
    → (images : Dict String) × (component_images release ≡ ok images)
      × ((name : String) → lookup name images ≡ last_image name release.tags)
unfolding component_images lookup
component_images-last release h =
    let (images, made, finds) = collect_images-last release.tags [] h in
    (images, made, λ name. finds name ∙ or_else-none (last_image name release.tags))

last_image-append :
    (name : String) (tags more : List TagReference)
    → last_image name (tags ++ more) ≡ or_else (last_image name more) (last_image name tags)
last_image-append name [] more = sym (or_else-none (last_image name more))
last_image-append name (tag ∷ tags) more =
    let own = if tag.name == name then tag.from else none in
    ap (λ a. or_else a own) (last_image-append name tags more)
    ∙ or_else_assoc (last_image name more) (last_image name tags) own

static_tags_referenced :
    (tags : List TagReference) (overrides : Dict String)
    → all is_referenced tags ≡ true
    → all is_referenced (tags ++ map static_tag overrides) ≡ true
static_tags_referenced [] [] h = refl
static_tags_referenced [] (_ ∷ overrides) h = static_tags_referenced [] overrides h
static_tags_referenced (tag ∷ tags) overrides h = elim (Bool-cases (is_referenced tag)) [
  | inl own ↦
      let later : all is_referenced tags ≡ true = rw (own) at h in
      rw (own) (static_tags_referenced tags overrides later)
  | inr missing ↦ cc (rw (missing) at h)
]

-- The image of the last override of a name.
abbrev pub last_override : String → Dict String → Option String
last_override name [] = none
last_override name ((component, image) ∷ overrides) =
    or_else (last_override name overrides) (if component == name then some image else none)

last_image-override :
    (name : String) (overrides : Dict String)
    → last_image name (map static_tag overrides) ≡ last_override name overrides
last_image-override name [] = refl
last_image-override name ((component, image) ∷ overrides) =
    ap (λ a. or_else a (if component == name then some image else none))
      (last_image-override name overrides)

-- The images of a release that StaticProviderDecorator returns, where every tag of its delegate's
-- release has a reference: for each name the override, if there is one, and otherwise what the
-- delegate's release holds.
pub component_images-decorate :
    (release : ReleaseImage) (overrides : Dict String)
    → all is_referenced release.tags ≡ true
    → (images : Dict String) × ((decorate (some overrides) (ok release) >>= component_images)
        ≡ ok images)
      × ((name : String)
          → lookup name images
            ≡ or_else (last_override name overrides) (last_image name release.tags))
unfolding decorate
component_images-decorate release overrides h =
    let (images, made, finds) =
      component_images-last (record release { tags = release.tags ++ map static_tag overrides })
        (static_tags_referenced release.tags overrides h) in
    (
      images,
      made,
      λ name.
          finds name
          ∙ (last_image-append name release.tags (map static_tag overrides)
              ∙ ap (λ a. or_else a (last_image name release.tags))
                  (last_image-override name overrides)),
    )
