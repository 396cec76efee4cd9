-- ===== src/Release/Labels/Unordered.antt =====
-- The labels of pkg/releaseinfo/releaseinfo.go do not depend on the order in which Go gives the keys
-- of a map: they are functions of the map, a quotient of the lists that stand for it.
use mathlib.Core.Quot
use mathlib.Core.Quot.{Quot}
use mathlib.Core.List.{Perm}
use mathlib.Core.Path.{ap₂}
use hypershift_lite.Prelude.{◌≡◌, refl, Bool, List, [], ◌∷◌}
use hypershift_lite.Api.{Text}
use hypershift_lite.Release.Texts.{keys, sort_texts}
use hypershift_lite.Release.Texts.Sorting.{IsOrdered, sort_texts-IsOrdered, sort_texts-perm}
use hypershift_lite.Release.Texts.Maps.{IsMap, SameMap, sort_texts-keys}
use hypershift_lite.Release.Labels.{ComponentVersions, ordered_keys, version_pairs, display_pairs}
use hypershift_lite.Release.Labels.{version_label, display_name_label}

-- The list that a Go map is modelled by, without a key twice.
abbrev pub MapList : Type 0
MapList = (v : ComponentVersions) × IsMap v

-- A map of component versions: its lists, up to what they answer to a look-up.
abbrev pub VersionMap : Type 0
VersionMap = Quot {α = MapList} (λ v w. SameMap v.0 w.0)

version_pairs-SameMap :
    (first : Bool) (v w : ComponentVersions) (ks : List Text)
    → SameMap v w
    → version_pairs first v ks ≡ version_pairs first w ks
unfolding version_pairs
version_pairs-SameMap first v w [] same = refl
version_pairs-SameMap first v w (k ∷ ks) same =
    rw (same k, version_pairs-SameMap Bool.false v w ks same) refl

display_pairs-SameMap :
    (first : Bool) (v w : ComponentVersions) (ks : List Text)
    → SameMap v w
    → display_pairs first v ks ≡ display_pairs first w ks
unfolding display_pairs
display_pairs-SameMap first v w [] same = refl
display_pairs-SameMap first v w (k ∷ ks) same =
    rw (same k, display_pairs-SameMap Bool.false v w ks same) refl

-- Two lists without a key twice that answer every look-up alike have the same ordered keys, the
-- same version label and the same label of display names.
pub labels-SameMap :
    (v w : ComponentVersions)
    → IsMap v
    → IsMap w
    → SameMap v w
    → (ordered_keys v ≡ ordered_keys w)
      × (version_label v ≡ version_label w)
      × (display_name_label v ≡ display_name_label w)
unfolding ordered_keys version_label display_name_label
labels-SameMap v w hv hw same =
    let order = sort_texts-keys v w hv hw same in
    (
      order,
      rw (order) (version_pairs-SameMap Bool.true v w (sort_texts (keys w)) same),
      rw (order) (display_pairs-SameMap Bool.true v w (sort_texts (keys w)) same),
    )

Texts_set : IsSet (Text × Text)
Texts_set = hlevel

-- VersionLabel and DisplayNameLabel implement one function of maps: it takes the map that a list
-- without a key twice stands for to the labels that they print for the list.
pub labels_of_map :
    (labels : VersionMap → Text × Text) × ((v : MapList)
      → labels (Quot.mk v) ≡ (version_label v.0, display_name_label v.0))
labels_of_map = (
  Quot.lift Texts_set (λ v. (version_label v.0, display_name_label v.0))
      (λ v w same.
        let (_, versions, displays) = labels-SameMap v.0 w.0 v.1 w.1 same in
        ap₂ (λ s t. (s, t)) versions displays),
  λ v. refl,
)

-- OrderedKeys gives the keys of the map, each as often as the map has it, in the order of `<`.
pub ordered_keys-IsOrdered :
    (v : ComponentVersions) → IsOrdered (ordered_keys v) × Perm (ordered_keys v) (keys v)
unfolding ordered_keys
ordered_keys-IsOrdered v = (sort_texts-IsOrdered (keys v), sort_texts-perm (keys v))
