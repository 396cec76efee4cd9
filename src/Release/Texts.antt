-- ===== src/Release/Texts.antt =====
-- Texts as lists of ASCII codes: the functions of Go's `strings` and `sort` that pkg/releaseinfo
-- uses, and Go maps with such keys, as association lists without a key twice.
pub mod Order
pub mod Sorting
pub mod Laws
pub mod Maps
use hypershift_lite.Prelude.{ℕ, Bool, true, false, List, [], ◌∷◌, Option, none, some}
use hypershift_lite.Prelude.{◌||◌, ◌&&◌, nat_eq, ltb, if◌then◌else◌}
use hypershift_lite.Api.{Text}
use mathlib.Core.List.{reverse}

unfoldable pub text_eq : Text → Text → Bool
text_eq [] [] = true
text_eq (a ∷ s) (b ∷ t) = nat_eq a b && text_eq s t
text_eq _ _ = false

-- Go's `<` on strings.
unfoldable pub text_lt : Text → Text → Bool
text_lt [] [] = false
text_lt [] (b ∷ t) = true
text_lt (a ∷ s) [] = false
text_lt (a ∷ s) (b ∷ t) = ltb a b || (nat_eq a b && text_lt s t)

-- unicode.IsSpace, on ASCII
unfoldable pub is_space : ℕ → Bool
is_space c =
    nat_eq c 9 || (nat_eq c 10 || (nat_eq c 11 || (nat_eq c 12 || (nat_eq c 13 || nat_eq c 32))))

unfoldable pub trim_left : Text → Text
unfolding is_space
trim_left [] = []
trim_left (c ∷ s) = let rest = trim_left s in if is_space c then rest else c ∷ s

-- strings.TrimSpace
unfoldable pub trim_space : Text → Text
unfolding trim_left
trim_space s = reverse (trim_left (reverse (trim_left s)))

-- The first part of a split and the later ones.
abbrev first_of_split : Text × List Text → List Text
first_of_split (first, later) = first ∷ later

unfoldable pub split_from : ℕ → Text → Text × List Text
split_from separator [] = ([], [])
split_from separator (c ∷ s) =
    let (first, later) = split_from separator s in
    if nat_eq c separator then ([], first ∷ later) else (c ∷ first, later)

-- strings.Split by one character: one part more than there are separators.
unfoldable pub split : ℕ → Text → List Text
unfolding split_from
split separator s = first_of_split (split_from separator s)

-- strings.SplitN(s, separator, 2): `none` is a result of one part.
unfoldable pub split_pair : ℕ → Text → Option (Text × Text)
split_pair separator [] = none
split_pair separator (c ∷ s) =
    let rest = split_pair separator s in
    if nat_eq c separator
    then some ([], s)
    else elim rest [ none ↦ none | some (before, behind) ↦ some (c ∷ before, behind) ]

module _ {ℓ} {V : Type ℓ} where
  unfoldable pub find : Text → List (Text × V) → Option V
  unfolding text_eq
  find k [] = none
  find k ((j, v) ∷ m) = if text_eq j k then some v else find k m

  unfoldable pub put : Text → V → List (Text × V) → List (Text × V)
  unfolding text_eq
  put k v [] = (k, v) ∷ []
  put k v ((j, w) ∷ m) = if text_eq j k then (k, v) ∷ m else (j, w) ∷ put k v m

  abbrev pub keys : List (Text × V) → List Text
  keys [] = []
  keys ((k, _) ∷ m) = k ∷ keys m

-- sort.Strings
unfoldable pub insert_sorted : Text → List Text → List Text
unfolding text_lt
insert_sorted k [] = k ∷ []
insert_sorted k (j ∷ js) = if text_lt j k then j ∷ insert_sorted k js else k ∷ j ∷ js

unfoldable pub sort_texts : List Text → List Text
unfolding insert_sorted
sort_texts [] = []
sort_texts (k ∷ ks) = insert_sorted k (sort_texts ks)
