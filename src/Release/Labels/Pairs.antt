-- ===== src/Release/Labels/Pairs.antt =====
-- The pairs that `VersionLabel` of pkg/releaseinfo/releaseinfo.go prints, as the loop of
-- `parseComponentVersionsLabel` reads them.
use hypershift_lite.Prelude.{◌≡◌, refl, ◌∙◌, true, List, [], ◌∷◌, some, map}
use hypershift_lite.Prelude.Result.{ok}
use hypershift_lite.Api.{Text, Platform}
use hypershift_lite.Release.Texts.{is_space, find, put, split_pair, trim_space}
use hypershift_lite.Release.Texts.Maps.{put_keys}
use hypershift_lite.Release.Texts.Laws.{Lacks, AllLack, AllTight, ends_tight}
use hypershift_lite.Release.Texts.Laws.{trim_space-tight, ends_tight-append, ends_tight-cons}
use hypershift_lite.Release.Texts.Laws.{split_pair-append, Lacks-append}
use hypershift_lite.Release.Labels.{ComponentVersion, ComponentVersions, is_key_char, is_word}
use hypershift_lite.Release.Labels.{normal_version, add_version, add_versions, or_empty}
use hypershift_lite.Release.Labels.Parsed.{IsName, IsComponent}
use hypershift_lite.Release.Labels.Printed.{SemverPrints, pair_text, version_of, display_of}
use hypershift_lite.Release.Labels.Printed.{IsName-Lacks, IsName-tight}
use hypershift_lite.Release.Labels.Printed.{IsName-check}

-- A pair whose value has no white space at its end is left as it is by the parser.
pub pair_tight : (k t : Text) → ends_tight t ≡ true → ends_tight (pair_text k t) ≡ true
unfolding is_space
pair_tight k t h = ends_tight-append k b'=' t ∙ (ends_tight-cons b'=' t refl ∙ h)

pair_trimmed :
    (k t : Text) → IsName k → ends_tight t ≡ true → trim_space (pair_text k t) ≡ pair_text k t
pair_trimmed k t name tight =
    trim_space-tight (pair_text k t) (IsName-tight k (b'=' ∷ t) name) (pair_tight k t tight)

pub pair_split :
    (k t : Text)
    → IsName k
    → ends_tight t ≡ true
    → split_pair b'=' (trim_space (pair_text k t)) ≡ some (k, t)
unfolding is_key_char is_word
pair_split k t name tight =
    rw (pair_trimmed k t name tight) (split_pair-append b'=' k t (IsName-Lacks b'=' refl k name))

pub pair-Lacks : (k t : Text) → IsName k → Lacks b',' t → Lacks b',' (pair_text k t)
unfolding is_key_char is_word
pair-Lacks k t name h = Lacks-append b',' k (b'=' ∷ t) (IsName-Lacks b',' refl k name) h

pub version_of-found :
    (v : ComponentVersions) (k : Text) (c : ComponentVersion)
    → find k v ≡ some c
    → version_of v k ≡ c.version
version_of-found v k c found = rw (version_of, found) refl

pub display_of-found :
    (v : ComponentVersions) (k : Text) (c : ComponentVersion)
    → find k v ≡ some c
    → display_of v k ≡ c.display_name
display_of-found v k c found = rw (display_of, found) refl

-- What the parser puts for a key.
abbrev pub entry : ComponentVersions → List (Text × Text) → Text → ComponentVersion
entry v names k = record { version = version_of v k; display_name = or_empty (find k names) }

module _ (p : Platform) (prints : SemverPrints p) where
  normal_again :
      (k : Text) (c : ComponentVersion)
      → IsComponent p k c
      → normal_version p c.version ≡ ok c.version
  unfolding normal_version
  normal_again k c made =
      let (w, parse, text) = prints.again made.source made.parsed made.parse in
      rw (made.version, parse, text) refl

  version_plain :
      (k : Text) (c : ComponentVersion)
      → IsComponent p k c
      → Lacks b',' c.version × (ends_tight c.version ≡ true)
  version_plain k c made = rw (made.version) (prints.plain made.source made.parsed made.parse)

  module _ (v : ComponentVersions) where
    -- The keys are in the map, with entries that are as the parser makes them.
    abbrev pub Printable : List Text → Type 0
    Printable [] = Unit {0}
    Printable (k ∷ ks) =
        ((c : ComponentVersion) × (find k v ≡ some c) × IsComponent p k c) × Printable ks

    add_version-pair :
        (names : List (Text × Text)) (labels : ComponentVersions) (k : Text) (c : ComponentVersion)
        → find k v ≡ some c
        → IsComponent p k c
        → add_version p names labels (pair_text k (version_of v k))
          ≡ ok (put k (entry v names k) labels)
    unfolding add_version
    add_version-pair names labels k c found made =
        rw
          (
            version_of-found v k c found,
            add_version,
            pair_split k c.version made.name (version_plain k c made).1,
            IsName-check k made.name,
            normal_again k c made,
          )
          refl

    pub add_versions-pairs :
        (names : List (Text × Text)) (ks : List Text) (labels : ComponentVersions)
        → Printable ks
        → add_versions p names labels (map (λ k. pair_text k (version_of v k)) ks)
          ≡ ok (put_keys (entry v names) labels ks)
    unfolding add_versions
    add_versions-pairs names [] labels h = refl
    add_versions-pairs names (k ∷ ks) labels ((c, found, made), h) =
        rw (add_version-pair names labels k c found made)
          (add_versions-pairs names ks (put k (entry v names k) labels) h)

    pub versions_plain :
        (ks : List Text)
        → Printable ks
        → AllLack b',' (map (λ k. pair_text k (version_of v k)) ks)
          × AllTight (map (λ k. pair_text k (version_of v k)) ks)
    versions_plain [] h = (tt, tt)
    versions_plain (k ∷ ks) ((c, found, made), h) =
        let (lack, tight) = version_plain k c made in
        let (lacks, tights) = versions_plain ks h in
        (
          (rw (version_of-found v k c found) (pair-Lacks k c.version made.name lack), lacks),
          (rw (version_of-found v k c found) (pair_tight k c.version tight), tights),
        )
