-- ===== src/Release/Labels/Parsed.antt =====
-- What `parseComponentVersionsLabel` of pkg/releaseinfo/releaseinfo.go lets into its map.
use mathlib.Core.List.Pairwise
use mathlib.Core.Path.{subst}
use hypershift_lite.Prelude.{
  ℕ, ◌≡◌, ◌⊎◌, refl, sym, ap, ◌∙◌, true, false, List, [], ◌∷◌, some, length, ltb, inl, inr,
  Bool-cases, Option-cases,
}
use hypershift_lite.Prelude.Result.{ok, Result-cases}
use hypershift_lite.Api.{Text, Platform, Semver}
use hypershift_lite.Release.Texts.{is_space, find, put, split, split_pair, trim_space}
use hypershift_lite.Release.Texts.Maps.{IsMap, empty-each, put-each, put-IsMap}
use hypershift_lite.Release.Texts.Laws.{ends_tight, ends_tight-trim_space, ends_tight-append}
use hypershift_lite.Release.Texts.Laws.{ends_tight-cons, split_pair_sound}
use hypershift_lite.Release.Labels.{ComponentVersion, ComponentVersions, allowed_version_key}
use hypershift_lite.Release.Labels.{allowed_display_name, check_name, add_name, add_names}
use hypershift_lite.Release.Labels.{normal_version, add_version, add_versions, or_empty}
use hypershift_lite.Release.Labels.{parse_display_names, parse_component_versions_label}

-- A name that passes both tests.
pub record IsName (k : Text) : Type 0 where
  pub long : ltb (length k) 2 ≡ false
  pub allowed : allowed_version_key k ≡ true

-- A display name that passes the test, without white space at its end.
pub record IsDisplayName (d : Text) : Type 0 where
  pub allowed : allowed_display_name d ≡ true
  pub tight : ends_tight d ≡ true

abbrev pub AreDisplayNames : List (Text × Text) → Type 0
AreDisplayNames names = (k d : Text) → find k names ≡ some d → IsDisplayName d

module _ (p : Platform) where
  pub record IsComponent (k : Text) (c : ComponentVersion) : Type 0 where
    pub name : IsName k
    -- The version is one that was parsed, printed without its build label.
    pub source : Text
    pub parsed : Semver
    pub parse : p.parse_semver source ≡ ok parsed
    pub version : c.version ≡ p.semver_string (record parsed { build = [] })
    pub display_name : (c.display_name ≡ []) ⊎ IsDisplayName c.display_name

  -- No key twice, and all is as the tests want it.
  pub record IsLabelMap (v : ComponentVersions) : Type 0 where
    pub is_map : IsMap v
    pub components : (k : Text) (c : ComponentVersion) → find k v ≡ some c → IsComponent k c

check_name-IsName : (k : Text) {u : Unit {0}} → check_name k ≡ ok u → IsName k
unfolding check_name
check_name-IsName k h = elim (Bool-cases (ltb (length k) 2)) [
  | inl short ↦ cc (rw (check_name, short) at h)
  | inr long ↦ elim (Bool-cases (allowed_version_key k)) [
    | inl good ↦ record { long = long; allowed = good }
    | inr bad ↦ cc (rw (check_name, long, bad) at h)
  ]
]

pub List-cases : (t : Text) → (t ≡ []) ⊎ ((c : ℕ) × (s : Text) × (t ≡ c ∷ s))
List-cases [] = inl refl
List-cases (c ∷ s) = inr (c, s, refl)

-- What stands behind the separator of a pair does not end with white space.
behind_tight :
    (raw name behind : Text)
    → split_pair b'=' (trim_space raw) ≡ some (name, behind)
    → ends_tight behind ≡ true
unfolding is_space
behind_tight raw name behind h =
    let parts = split_pair_sound b'=' (trim_space raw) name behind h in
    sym (ends_tight-cons b'=' behind refl)
    ∙ (sym (ends_tight-append name b'=' behind)
        ∙ (ap ends_tight (sym parts) ∙ ends_tight-trim_space raw))

add_name-AreDisplayNames :
    (names names' : List (Text × Text)) (raw : Text)
    → AreDisplayNames names
    → add_name names raw ≡ ok names'
    → AreDisplayNames names'
unfolding add_name
add_name-AreDisplayNames names names' raw old h =
    elim (Option-cases (split_pair b'=' (trim_space raw))) [
      | inl missing ↦ cc (rw (add_name, missing) at h)
      | inr ((name, display), found) ↦ elim (Result-cases (check_name name)) [
        | inr (e, bad) ↦ cc (rw (add_name, found, bad) at h)
        | inl (_, good) ↦ elim (Bool-cases (allowed_display_name display)) [
          | inr refused ↦ cc (rw (add_name, found, good, refused) at h)
          | inl allowed ↦
              let written : ok (put name display names) ≡ ok names' =
                rw (add_name, found, good, allowed) at h in
              let same : put name display names ≡ names' = cc in
              subst AreDisplayNames same (
                put-each (λ _. IsDisplayName) name display names
                  (record { allowed = allowed; tight = behind_tight raw name display found }) old)
        ]
      ]
    ]

add_names-AreDisplayNames :
    (pairs : List Text) (names names' : List (Text × Text))
    → AreDisplayNames names
    → add_names names pairs ≡ ok names'
    → AreDisplayNames names'
unfolding add_names
add_names-AreDisplayNames [] names names' old h =
    let same : names ≡ names' = cc in subst AreDisplayNames same old
add_names-AreDisplayNames (pair ∷ pairs) names names' old h =
    elim (Result-cases (add_name names pair)) [
      | inl (next, e) ↦
          add_names-AreDisplayNames pairs next names'
            (add_name-AreDisplayNames names next pair old e) (rw (add_names, e) at h)
      | inr (_, e) ↦ cc (rw (add_names, e) at h)
    ]

parse_display_names-AreDisplayNames :
    (p : Platform) (text : Text) (names : List (Text × Text))
    → parse_display_names p text ≡ ok names
    → AreDisplayNames names
parse_display_names-AreDisplayNames p [] names h =
    let same : [] ≡ names = cc in subst AreDisplayNames same (λ k d e. empty-each _ k d e)
parse_display_names-AreDisplayNames p (c ∷ s) names h =
    add_names-AreDisplayNames (split b',' (c ∷ s)) [] names (λ k d e. empty-each _ k d e) h

-- A display name that is looked up is empty or passes the test.
or_empty_display :
    (names : List (Text × Text)) (k : Text)
    → AreDisplayNames names
    → (or_empty (find k names) ≡ []) ⊎ IsDisplayName (or_empty (find k names))
or_empty_display names k each = elim (Option-cases (find k names)) [
  | inl missing ↦ inl (rw (missing) refl)
  | inr (d, found) ↦ inr (rw (found) (each k d found))
]

module _ (p : Platform) where
  put-IsLabelMap :
      (k : Text) (c : ComponentVersion) (v : ComponentVersions)
      → IsComponent p k c
      → IsLabelMap p v
      → IsLabelMap p (put k c v)
  put-IsLabelMap k c v new old = record {
    is_map = put-IsMap k c v old.is_map;
    components = put-each (IsComponent p) k c v new old.components;
  }

  add_version-IsLabelMap :
      (names : List (Text × Text)) (labels labels' : ComponentVersions) (raw : Text)
      → AreDisplayNames names
      → IsLabelMap p labels
      → add_version p names labels raw ≡ ok labels'
      → IsLabelMap p labels'
  unfolding add_version normal_version
  add_version-IsLabelMap names labels labels' raw each old h =
      elim (Option-cases (split_pair b'=' (trim_space raw))) [
        | inl missing ↦ cc (rw (add_version, missing) at h)
        | inr ((name, version), found) ↦ elim (Result-cases (check_name name)) [
          | inr (e, bad) ↦ cc (rw (add_version, found, bad) at h)
          | inl (_, good) ↦ elim (Result-cases (p.parse_semver version)) [
            | inr (e, bad) ↦ cc (rw (add_version, normal_version, found, good, bad) at h)
            | inl (parsed, parse) ↦
                let component : ComponentVersion = record {
                  version = p.semver_string (record parsed { build = [] });
                  display_name = or_empty (find name names);
                } in
                let written : ok (put name component labels) ≡ ok labels' =
                  rw (add_version, normal_version, found, good, parse) at h in
                let same : put name component labels ≡ labels' = cc in
                subst (IsLabelMap p) same (
                  put-IsLabelMap name component labels
                    (record {
                      name = check_name-IsName name good;
                      source = version;
                      parsed = parsed;
                      parse = parse;
                      version = refl;
                      display_name = or_empty_display names name each;
                    })
                    old)
          ]
        ]
      ]

  add_versions-IsLabelMap :
      (names : List (Text × Text)) (pairs : List Text) (labels labels' : ComponentVersions)
      → AreDisplayNames names
      → IsLabelMap p labels
      → add_versions p names labels pairs ≡ ok labels'
      → IsLabelMap p labels'
  unfolding add_versions
  add_versions-IsLabelMap names [] labels labels' each old h =
      let same : labels ≡ labels' = cc in subst (IsLabelMap p) same old
  add_versions-IsLabelMap names (pair ∷ pairs) labels labels' each old h =
      elim (Result-cases (add_version p names labels pair)) [
        | inl (next, e) ↦
            add_versions-IsLabelMap names pairs next labels' each
              (add_version-IsLabelMap names labels next pair each old e) (rw (add_versions, e) at h)
        | inr (_, e) ↦ cc (rw (add_versions, e) at h)
      ]

  empty-IsLabelMap : IsLabelMap p []
  empty-IsLabelMap = record { is_map = Pairwise.nil; components = λ k c e. empty-each _ k c e }

  -- A map that parseComponentVersionsLabel returns has no key twice; its keys have at least two
  -- characters and are of the allowed form; each of its versions is a version that was parsed,
  -- printed without its build label; and each of its display names is empty, or has only allowed
  -- characters and no white space at its end.
  pub parse_component_versions_label-IsLabelMap :
      (raw display : Text) (v : ComponentVersions)
      → parse_component_versions_label p raw display ≡ ok v
      → IsLabelMap p v
  unfolding parse_component_versions_label
  parse_component_versions_label-IsLabelMap raw display v h = elim (List-cases (trim_space raw)) [
    | inl blank ↦
        let nothing : ok [] ≡ ok v = rw (parse_component_versions_label, blank) at h in
        let same : [] ≡ v = cc in subst (IsLabelMap p) same empty-IsLabelMap
    | inr (c, s, text) ↦ elim (Result-cases (parse_display_names p display)) [
      | inr (_, bad) ↦ cc (rw (parse_component_versions_label, text, bad) at h)
      | inl (names, e) ↦
          add_versions-IsLabelMap names (split b',' (c ∷ s)) [] v
            (parse_display_names-AreDisplayNames p display names e) empty-IsLabelMap
            (rw (parse_component_versions_label, text, e) at h)
    ]
  ]
