-- ===== src/Release/Labels.antt =====
-- `parseComponentVersionsLabel`, `VersionLabel` and `DisplayNameLabel` of
-- pkg/releaseinfo/releaseinfo.go.
pub mod Keys
pub mod Parsed
pub mod Pairs
pub mod Roundtrip
pub mod Printed
pub mod Unordered
use hypershift_lite.Prelude.{ℕ, Bool, true, false, List, [], ◌∷◌, ◌++◌, Option, none, some}
use hypershift_lite.Prelude.{◌||◌, ◌&&◌, nat_eq, ltb, leb, length, all, if◌then◌else◌}
use hypershift_lite.Prelude.Result.{Result, ok, err, quoted, quoted_wrap, ◌>>=◌}
use hypershift_lite.Api.{Text, Platform}
use hypershift_lite.Release.Texts.{find, put, keys, split, split_pair, trim_space, sort_texts}

pub record ComponentVersion : Type 0 where
  pub version : Text
  pub display_name : Text

abbrev pub ComponentVersions : Type 0
ComponentVersions = List (Text × ComponentVersion)

-- String of ComponentVersion
abbrev pub version_string : ComponentVersion → Text
version_string v = v.version

-- [a-z0-9]
unfoldable pub is_word : ℕ → Bool
is_word c = (leb b'a' c && leb c b'z') || (leb b'0' c && leb c b'9')

-- [\-a-z0-9]
unfoldable pub is_key_char : ℕ → Bool
unfolding is_word
is_key_char c = nat_eq c b'-' || is_word c

-- What may follow a first character: characters of the second class, the last of the first.
unfoldable pub key_tail : Text → Bool
unfolding is_key_char is_word
key_tail [] = false
key_tail (c ∷ []) = is_word c
key_tail (c ∷ d ∷ s) = is_key_char c && key_tail (d ∷ s)

-- reAllowedVersionKey, ^[a-z0-9]+[\-a-z0-9]*[a-z0-9]+$
unfoldable pub allowed_version_key : Text → Bool
unfolding key_tail
allowed_version_key [] = false
allowed_version_key (c ∷ s) = is_word c && key_tail s

-- [a-zA-Z0-9\-\:\s\(\)]
unfoldable pub is_display_char : ℕ → Bool
unfolding is_word
is_display_char c =
    is_word c
    || ((leb b'A' c && leb c b'Z')
        || (nat_eq c b'-'
            || (nat_eq c b':'
                || (nat_eq c b'('
                    || (nat_eq c b')'
                        || (nat_eq c 9
                            || (nat_eq c 10 || (nat_eq c 12 || (nat_eq c 13 || nat_eq c 32)))))))))

-- reAllowedDisplayNameKey, ^[a-zA-Z0-9\-\:\s\(\)]+$
unfoldable pub allowed_display_name : Text → Bool
unfolding is_display_char
allowed_display_name [] = false
allowed_display_name (c ∷ s) = all is_display_char (c ∷ s)

-- The tests on a name that both loops make.
unfoldable pub check_name : Text → Result (Unit {0})
unfolding allowed_version_key
check_name name =
    if ltb (length name) 2
    then err (quoted "the version name " name " must be at least 2 characters")
    else if allowed_version_key name
    then ok tt
    else err
        (quoted "the version name " name " must only be ASCII alphanumerics and internal hyphens")

-- One round of the loop over the display names.
unfoldable pub add_name : List (Text × Text) → Text → Result (List (Text × Text))
unfolding trim_space split_pair put check_name allowed_display_name
add_name names raw =
    let pair = trim_space raw in
    elim (split_pair b'=' pair) [
      | none ↦ err (quoted "the display name pair " pair " must be NAME=DISPLAYNAME")
      | some (name, display) ↦ check_name name >>= λ _.
          if allowed_display_name display
          then ok (put name display names)
          else err (
              quoted "the display name " display
                " must only be alphanumerics, spaces, and symbols in [():-]")
    ]

unfoldable pub add_names : List (Text × Text) → List Text → Result (List (Text × Text))
unfolding add_name
add_names names [] = ok names
add_names names (pair ∷ pairs) = add_name names pair >>= λ names'. add_names names' pairs

abbrev or_empty : Option Text → Text
or_empty none = []
or_empty (some t) = t

module _ (p : Platform) where
  -- A version as the map holds it: parsed, and printed without its build label.
  unfoldable pub normal_version : Text → Result Text
  normal_version t = p.parse_semver t >>= λ v. ok (p.semver_string (record v { build = [] }))

  -- One round of the loop over the versions.
  unfoldable pub add_version :
      List (Text × Text) → ComponentVersions → Text → Result ComponentVersions
  unfolding trim_space split_pair put find check_name normal_version
  add_version names labels raw =
      let pair = trim_space raw in
      elim (split_pair b'=' pair) [
        | none ↦ err (quoted "the version pair " pair " must be NAME=VERSION")
        | some (name, version) ↦ check_name name >>= λ _. elim (normal_version version) [
          | err e ↦
              err (quoted_wrap "the version pair " pair " must have a valid semantic version" e)
          | ok v ↦
              ok (
                put name (record { version = v; display_name = or_empty (find name names) }) labels)
        ]
      ]

  unfoldable pub add_versions :
      List (Text × Text) → ComponentVersions → List Text → Result ComponentVersions
  unfolding add_version
  add_versions names labels [] = ok labels
  add_versions names labels (pair ∷ pairs) =
      add_version names labels pair >>= λ labels'. add_versions names labels' pairs

  abbrev parse_display_names : Text → Result (List (Text × Text))
  parse_display_names [] = ok []
  parse_display_names (c ∷ s) = add_names [] (split b',' (c ∷ s))

  -- A label of white space gives a nil map. (The second test on its length cannot pass.)
  unfoldable pub parse_component_versions_label : Text → Text → Result ComponentVersions
  unfolding trim_space split add_names add_versions
  parse_component_versions_label raw_label display_names = elim (trim_space raw_label) [
    | [] ↦ ok []
    | c ∷ s ↦
        parse_display_names display_names >>= λ names. add_versions names [] (split b',' (c ∷ s))
  ]

-- OrderedKeys
unfoldable pub ordered_keys : ComponentVersions → List Text
unfolding sort_texts
ordered_keys v = sort_texts (keys v)

-- The loop of VersionLabel, from its first key and from a later one.
unfoldable pub version_pairs : Bool → ComponentVersions → List Text → Text
unfolding find
version_pairs first v [] = []
version_pairs first v (k ∷ ks) =
    (if first then [] else b',' ∷ [])
    ++ (k
        ++ (b'='
            ∷ (elim (find k v) [ none ↦ [] | some c ↦ c.version ] ++ version_pairs false v ks)))

unfoldable pub version_label : ComponentVersions → Text
unfolding ordered_keys version_pairs
version_label v = version_pairs true v (ordered_keys v)

-- String of ComponentVersions
abbrev pub versions_string : ComponentVersions → Text
versions_string v = version_label v

abbrev pub display_pair : Text → Text → Text
display_pair k [] = []
display_pair k (c ∷ s) = k ++ (b'=' ∷ c ∷ s)

-- The loop of DisplayNameLabel. The comma comes before the test on the name.
unfoldable pub display_pairs : Bool → ComponentVersions → List Text → Text
unfolding find
display_pairs first v [] = []
display_pairs first v (k ∷ ks) =
    (if first then [] else b',' ∷ [])
    ++ (display_pair k (elim (find k v) [ none ↦ [] | some c ↦ c.display_name ])
        ++ display_pairs false v ks)

unfoldable pub display_name_label : ComponentVersions → Text
unfolding ordered_keys display_pairs
display_name_label v = display_pairs true v (ordered_keys v)
