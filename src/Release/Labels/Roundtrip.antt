-- ===== src/Release/Labels/Roundtrip.antt =====
-- `parseComponentVersionsLabel` of pkg/releaseinfo/releaseinfo.go on the labels that `VersionLabel`
-- and `DisplayNameLabel` print.
pub mod Named
pub mod Unnamed
use mathlib.Core.List.{Mem, mem-cons_self, mem-cons_of_mem, Perm, append_assoc}
use mathlib.Core.List.Perm
use hypershift_lite.Prelude.{
  ◌≡◌, refl, sym, ap, ◌∙◌, Bool, true, List, [], ◌∷◌, ◌++◌, Option, none, some, map, ℕ, inl, inr,
  Option-cases,
}
use hypershift_lite.Prelude.Result.{Result, ok, err, ◌>>=◌}
use hypershift_lite.Api.{Text, Platform}
use hypershift_lite.Release.Texts.{is_space, find, keys, split, trim_space}
use hypershift_lite.Release.Texts.Maps.{
  find_of_key, put_keys, find-put_keys, find-put_keys_other, no_key_of_find, key_of_find,
}
use hypershift_lite.Release.Texts.Laws.{joined, trim_space-tight, split-joined, joined-tight}
use hypershift_lite.Release.Labels.{
  ComponentVersion, ComponentVersions, or_empty, add_versions, parse_display_names,
}
use hypershift_lite.Release.Labels.{version_label, ordered_keys, parse_component_versions_label}
use hypershift_lite.Release.Labels.Parsed.{IsLabelMap, parse_component_versions_label-IsLabelMap}
use hypershift_lite.Release.Labels.Printed.{SemverPrints, pair_text, version_of}
use hypershift_lite.Release.Labels.Printed.{version_pairs-joined, IsName-tight}
use hypershift_lite.Release.Labels.Pairs.{
  version_of-found, Printable, entry, add_versions-pairs, versions_plain,
}
use hypershift_lite.Release.Labels.Unordered.{ordered_keys-IsOrdered}

pub pair_cons : (k t rest : Text) → (c : ℕ) × (s : Text) × (pair_text k t ++ rest ≡ c ∷ s)
pair_cons [] t rest = (_, _, refl)
pair_cons (c ∷ s) t rest = (_, _, refl)

-- The entries of the map with display names from elsewhere.
abbrev pub renamed : List (Text × Text) → Text → Option ComponentVersion → Option ComponentVersion
renamed names k none = none
renamed names k (some c) = some (record c { display_name = or_empty (find k names) })

module _ (p : Platform) (prints : SemverPrints p) (v : ComponentVersions)
    (good : IsLabelMap p v) where
  keys-Printable :
      (ks : List Text) → ((k : Text) → Mem k ks → Mem k (keys v)) → Printable p prints v ks
  keys-Printable [] inside = tt
  keys-Printable (k ∷ ks) inside =
      let (c, found) = find_of_key k v (inside k mem-cons_self) in
      (
        (c, found, good.components k c found),
        keys-Printable ks (λ j later. inside j (mem-cons_of_mem k later)),
      )

  pub ordered-Printable : Printable p prints v (ordered_keys v)
  ordered-Printable =
      keys-Printable (ordered_keys v) (λ k here. (Perm.mem_iff (ordered_keys-IsOrdered v).1).0 here)

  abbrev texts : List Text → List Text
  texts ks = map (λ k. pair_text k (version_of v k)) ks

  label_joined : version_label v ≡ joined b',' true (texts (ordered_keys v))
  unfolding version_label
  label_joined = version_pairs-joined v true (ordered_keys v)

  -- The parser's loop meets the pairs of the label.
  joined_parse :
      (ks : List Text) (display : Text) (names : List (Text × Text))
      → Printable p prints v ks
      → parse_display_names p display ≡ ok names
      → parse_component_versions_label p (joined b',' true (texts ks)) display
        ≡ ok (put_keys (entry v names) [] ks)
  unfolding parse_component_versions_label is_space
  joined_parse [] display names h e = refl
  joined_parse (k ∷ ks) display names h e =
      let ((c, found, made), _) = h in
      let (lacks, tights) = versions_plain p prints v (k ∷ ks) h in
      let (d, s, shape) = pair_cons k (version_of v k) (joined b',' Bool.false (texts ks)) in
      let trimmed : trim_space (joined b',' true (texts (k ∷ ks))) ≡ d ∷ s =
        trim_space-tight _ (rw (append_assoc) (IsName-tight k _ made.name))
          (joined-tight b',' (pair_text k (version_of v k)) (texts ks) refl tights)
        ∙ shape in
      rw (parse_component_versions_label, trimmed, e)
        (ap (λ label. add_versions p names [] (split b',' label)) (sym shape)
          ∙ (ap (add_versions p names [])
                (split-joined b',' (pair_text k (version_of v k)) (texts ks) lacks)
              ∙ add_versions-pairs p prints v names (k ∷ ks) [] h))

  -- What is parsed from the version label of the map and any label of display names.
  pub label-parse :
      (display : Text) (names : List (Text × Text))
      → parse_display_names p display ≡ ok names
      → parse_component_versions_label p (version_label v) display
        ≡ ok (put_keys (entry v names) [] (ordered_keys v))
  label-parse display names e =
      ap (λ label. parse_component_versions_label p label display) label_joined
      ∙ joined_parse (ordered_keys v) display names ordered-Printable e

  pub find_written :
      (names : List (Text × Text)) (j : Text)
      → find j (put_keys (entry v names) [] (ordered_keys v)) ≡ renamed names j (find j v)
  unfolding find
  find_written names j = elim (Option-cases (find j v)) [
    | inl missing ↦
        find-put_keys_other (entry v names) [] (ordered_keys v) j
          (λ here. no_key_of_find j v missing ((Perm.mem_iff (ordered_keys-IsOrdered v).1).0 here))
        ∙ rw (missing) refl
    | inr (c, found) ↦
        find-put_keys (entry v names) [] (ordered_keys v) j
          ((Perm.mem_iff (ordered_keys-IsOrdered v).1).1 (key_of_find j c v found))
        ∙ rw (found) (
            ap (λ t. some (record { version = t; display_name = or_empty (find j names) }))
              (version_of-found v j c found))
  ]

-- A map that was parsed is printed to a version label that is parsed, without a label of display
-- names, to the same versions of the same components, without their display names. This is
-- provided that semver parses the versions that it prints.
pub version_label-parse :
    (p : Platform) (raw display : Text) (v : ComponentVersions)
    → SemverPrints p
    → parse_component_versions_label p raw display ≡ ok v
    → (w : ComponentVersions) × (parse_component_versions_label p (version_label v) [] ≡ ok w)
      × ((j : Text) → find j w ≡ renamed [] j (find j v))
version_label-parse p raw display v prints made =
    let good = parse_component_versions_label-IsLabelMap p raw display v made in
    (
      put_keys (entry v []) [] (ordered_keys v),
      label-parse p prints v good [] [] refl,
      find_written p prints v good [],
    )
