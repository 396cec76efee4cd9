-- ===== src/Release/Labels/Roundtrip/Unnamed.antt =====
-- The label of display names that `DisplayNameLabel` of pkg/releaseinfo/releaseinfo.go prints for a
-- component without one: a comma with nothing before it, or behind it, which
-- `parseComponentVersionsLabel` refuses.
use mathlib.Core.List.{Mem, not-mem-nil, eq-or-mem_of_mem-cons, mem-map_of_mem}
use mathlib.Core.List.Perm
use mathlib.Core.Logic.Or
use mathlib.Core.HLevel.{⊥_prop}
use mathlib.Core.Path.{subst}
use hypershift_lite.Prelude.{
  ◌≡◌, ◌≢◌, refl, sym, ap, ◌∙◌, true, false, List, [], ◌∷◌, ◌++◌, some, map, ℕ, inl, inr,
}
use hypershift_lite.Prelude.Result.{ok, Result-cases}
use hypershift_lite.Api.{Text, Platform}
use hypershift_lite.Release.Texts.{find, split, split_pair, trim_space, trim_left}
use hypershift_lite.Release.Texts.Maps.{key_of_find}
use hypershift_lite.Release.Texts.Laws.{Lacks, AllLack, joined, split-joined}
use hypershift_lite.Release.Labels.{ComponentVersion, ComponentVersions, add_name, add_names}
use hypershift_lite.Release.Labels.{display_pair, display_name_label, ordered_keys}
use hypershift_lite.Release.Labels.{parse_display_names, parse_component_versions_label}
use hypershift_lite.Release.Labels.Parsed.{IsName, List-cases}
use hypershift_lite.Release.Labels.Parsed.{IsDisplayName, parse_component_versions_label-IsLabelMap}
use hypershift_lite.Release.Labels.Printed.{SemverPrints, display_of, display_name-Lacks}
use hypershift_lite.Release.Labels.Pairs.{Printable, display_of-found, pair-Lacks}
use hypershift_lite.Release.Labels.Unordered.{ordered_keys-IsOrdered}
use hypershift_lite.Release.Labels.Roundtrip.{ordered-Printable}
use hypershift_lite.Release.Labels.Roundtrip.Named.{display_pairs-joined}

-- A pair of white space ends the loop over the display names with an error.
add_names-empty :
    (pairs : List Text) (names names' : List (Text × Text))
    → Mem [] pairs
    → add_names names pairs ≢ ok names'
unfolding add_names add_name trim_space split_pair trim_left
add_names-empty [] names names' here h = not-mem-nil here
add_names-empty (pair ∷ pairs) names names' here h =
    Or.elim ⊥_prop (eq-or-mem_of_mem-cons here) (λ e. cc (rw (sym e) at h))
      (λ later. elim (Result-cases (add_name names pair)) [
        | inl (next, made) ↦ add_names-empty pairs next names' later (rw (add_names, made) at h)
        | inr (_, bad) ↦ cc (rw (add_names, bad) at h)
      ])

display_pair-Lacks : (k d : Text) → IsName k → IsDisplayName d → Lacks b',' (display_pair k d)
display_pair-Lacks k [] name h = refl
display_pair-Lacks k (c ∷ d) name h = pair-Lacks k (c ∷ d) name (display_name-Lacks (c ∷ d) h)

module _ (p : Platform) (prints : SemverPrints p) (v : ComponentVersions) where
  abbrev displays : List Text → List Text
  displays ks = map (λ k. display_pair k (display_of v k)) ks

  displays-AllLack : (ks : List Text) → Printable p prints v ks → AllLack b',' (displays ks)
  displays-AllLack [] h = tt
  displays-AllLack (k ∷ ks) ((c, found, made), h) = (
    rw (display_of-found v k c found) (elim made.display_name [
      | inl empty ↦ rw (empty) refl
      | inr name ↦ display_pair-Lacks k c.display_name made.name name
    ]),
    displays-AllLack ks h,
  )

  comma_cons : (t s : Text) → (c : ℕ) × (r : Text) × (t ++ b',' ∷ s ≡ c ∷ r)
  comma_cons [] s = (_, _, refl)
  comma_cons (c ∷ t) s = (_, _, refl)

  refused :
      (j k : Text) (ks : List Text) (names : List (Text × Text))
      → Printable p prints v (j ∷ k ∷ ks)
      → Mem [] (displays (j ∷ k ∷ ks))
      → parse_display_names p (joined b',' true (displays (j ∷ k ∷ ks))) ≢ ok names
  refused j k ks names printable here h =
      let rest = displays (k ∷ ks) in
      let first = display_pair j (display_of v j) in
      let (d, s, shape) =
        comma_cons first (display_pair k (display_of v k) ++ joined b',' false (displays ks)) in
      let parsed : add_names [] (split b',' (d ∷ s)) ≡ ok names = rw (shape) at h in
      let pairs = split-joined b',' first rest (displays-AllLack (j ∷ k ∷ ks) printable) in
      add_names-empty (displays (j ∷ k ∷ ks)) [] names here
        (ap (add_names []) (sym pairs) ∙ (ap (λ t. add_names [] (split b',' t)) shape ∙ parsed))

  several :
      (i j : Text) (ks : List Text) (names : List (Text × Text))
      → i ≢ j
      → Mem i ks
      → Mem j ks
      → Printable p prints v ks
      → Mem [] (displays ks)
      → parse_display_names p (joined b',' true (displays ks)) ≢ ok names
  several i j [] names other hi hj printable here h = not-mem-nil hi
  several i j (k ∷ []) names other hi hj printable here h =
      Or.elim ⊥_prop (eq-or-mem_of_mem-cons hi)
        (λ e. Or.elim ⊥_prop (eq-or-mem_of_mem-cons hj) (λ d. other (e ∙ sym d)) not-mem-nil)
        not-mem-nil
  several i j (k ∷ l ∷ ks) names other hi hj printable here h =
      refused k l ks names printable here h

-- If a map that was parsed has two components, one of which has no display name, then its label of
-- display names is not parsed again beside any version label but white space. This is provided that
-- semver parses the versions that it prints.
pub unnamed-refused :
    (p : Platform) (raw display : Text) (v : ComponentVersions) (i j : Text)
    (c d : ComponentVersion) (raw' : Text) (w : ComponentVersions)
    → SemverPrints p
    → parse_component_versions_label p raw display ≡ ok v
    → i ≢ j
    → find i v ≡ some c
    → find j v ≡ some d
    → c.display_name ≡ []
    → trim_space raw' ≢ []
    → parse_component_versions_label p raw' (display_name_label v) ≢ ok w
unfolding parse_component_versions_label display_name_label
unnamed-refused p raw display v i j c d raw' w prints made other hi hj unnamed text h =
    let good = parse_component_versions_label-IsLabelMap p raw display v made in
    let ks = ordered_keys v in
    let member = λ (k : Text) (e : ComponentVersion) (found : find k v ≡ some e).
      (Perm.mem_iff (ordered_keys-IsOrdered v).1).1 (key_of_find k e v found) in
    let empty : display_pair i (display_of v i) ≡ [] =
      rw (display_of-found v i c hi, unnamed) refl in
    let here : Mem [] (displays p prints v ks) =
      subst (λ t. Mem t (displays p prints v ks)) empty
        (mem-map_of_mem (λ k. display_pair k (display_of v k)) (member i c hi)) in
    elim (List-cases (trim_space raw')) [
      | inl blank ↦ text blank
      | inr (b, s, shape) ↦ elim (Result-cases (parse_display_names p (display_name_label v))) [
        | inr (_, bad) ↦ cc (rw (parse_component_versions_label, shape, bad) at h)
        | inl (names, found) ↦
            several p prints v i j ks names other (member i c hi) (member j d hj)
              (ordered-Printable p prints v good) here
              (ap (parse_display_names p) (sym (display_pairs-joined v true ks)) ∙ found)
      ]
    ]
