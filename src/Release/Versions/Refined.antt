-- ===== src/Release/Versions/Refined.antt =====
-- `ComponentVersions` of pkg/releaseinfo/releaseinfo.go against what the tags of the image stream say.
use mathlib.Core.List.{Mem, Perm, eq-or-mem_of_mem-cons, not-mem-nil}
use mathlib.Core.List.Perm
use mathlib.Core.Logic.Or
use mathlib.Core.Path.{subst}
use hypershift_lite.Prelude.{
  ℕ, suc, ◌≡◌, ◌≢◌, refl, sym, ap, ◌∙◌, Bool, true, false, List, [], ◌∷◌, ◌++◌, Option, none, some,
  length, ltb, if◌then◌else◌, arith, inl, inr, Bool-cases,
}
use hypershift_lite.Prelude.Result.{Error}
use hypershift_lite.Api.{Text, Platform, ImageStream}
use hypershift_lite.Release.Texts.{text_eq, find, put, keys, sort_texts}
use hypershift_lite.Release.Texts.Order.{text_eq_sound}
use hypershift_lite.Release.Texts.Sorting.{sort_texts-perm}
use hypershift_lite.Release.Texts.Maps.{put_keys, find-put_keys, find-put_keys_other, key_of_find}
use hypershift_lite.Release.Texts.Maps.{no_key_of_find}
use hypershift_lite.Release.Labels.{ComponentVersion, ComponentVersions}
use hypershift_lite.Release.Versions.{TextSet, member, insert_text, or_new, Combined, conflict}
use hypershift_lite.Release.Versions.{combine_tags, multiples_of, is_multiple, smallest}
use hypershift_lite.Release.Versions.{entries_of, read_component_versions, component_versions}
use hypershift_lite.Release.Versions.{put_all, with_release, report, reported}
use hypershift_lite.Release.Versions.Gathered.{Tells}
use hypershift_lite.Release.Versions.Tags.{tags_told, tags_untold, tags_clean, AllParsed}

-- The name under which the release itself is reported, and a name that is not empty.
abbrev pub release_text : Text
release_text = b'r' ∷ b'e' ∷ b'l' ∷ b'e' ∷ b'a' ∷ b's' ∷ b'e' ∷ []

abbrev pub if_named : Text → Option Text
if_named [] = none
if_named (c ∷ s) = some (c ∷ s)

-- A set of at most one text that has a text is the set of that text.
two_texts : (n : ℕ) → ltb 1 (suc (suc n)) ≢ false
two_texts n h = ground arith

single :
    (t : Text) (set : TextSet) → ltb 1 (length set) ≡ false → member t set ≡ true → set ≡ t ∷ []
single t [] few here = cc
single t (s ∷ []) few here =
    ap (λ u. u ∷ [])
      (text_eq_sound s t
        (elim (Bool-cases (text_eq s t)) [ inl same ↦ same | inr other ↦ cc (rw (other) at here) ]))
single t (s ∷ u ∷ set) few here = absurd (two_texts (length set) few)

inserted : (t : Text) (set : TextSet) → insert_text t set ≢ []
unfolding insert_text
inserted t [] h = cc
inserted t (s ∷ set) h = elim (Bool-cases (member t (s ∷ set))) [
  | inl here ↦ cc (rw (insert_text, here) at h)
  | inr new ↦ cc (rw (insert_text, new) at h)
]

-- If no key is added, then none has several texts, and none was there before.
none_multiple :
    (acc : TextSet) (sets : List (Text × TextSet)) (ks : List Text)
    → multiples_of acc sets ks ≡ []
    → (acc ≡ []) × ((k : Text) → Mem k ks → is_multiple (find k sets) ≡ false)
unfolding multiples_of
none_multiple acc sets [] h = (h, λ k here. absurd (not-mem-nil here))
none_multiple acc sets (k ∷ ks) h = elim (Bool-cases (is_multiple (find k sets))) [
  | inl several ↦ absurd (
      inserted k acc
        (none_multiple (insert_text k acc) sets ks (rw (multiples_of, several) at h)).0)
  | inr few ↦
      let (before, later) = none_multiple acc sets ks (rw (multiples_of, few) at h) in
      (
        before,
        λ j here.
            Or.elim Bool_path_prop (eq-or-mem_of_mem-cons here)
              (λ e. subst (λ i. is_multiple (find i sets) ≡ false) (sym e) few) (later j),
      )
]
  where
    Bool_path_prop : {a b : Bool} → IsProp (a ≡ b)
    Bool_path_prop = hlevel

-- The set of a told version, if it has no other.
only_version :
    (o : Option TextSet) (t : Text)
    → member t (or_new o) ≡ true
    → is_multiple o ≡ false
    → smallest o ≡ t
unfolding smallest sort_texts
only_version none t here few = cc
only_version (some set) t here few =
    ap (λ s. smallest (some s)) (single t set few here) ∙ only_one t
  where
    only_one : (u : Text) → smallest (some (u ∷ [])) ≡ u
    only_one u = refl

told_found :
    (o : Option TextSet) (t : Text) → member t (or_new o) ≡ true → (set : TextSet) × (o ≡ some set)
told_found none t here = cc
told_found (some set) t here = (set, refl)

sorted_nil : (ts : List Text) → sort_texts ts ≡ [] → ts ≡ []
sorted_nil ts h = sym (Perm.nil-eq (subst (λ r. Perm r ts) h (sort_texts-perm ts)))

append-nil_parts : (es fs : List Error) → es ++ fs ≡ [] → (es ≡ []) × (fs ≡ [])
append-nil_parts [] fs h = (refl, h)
append-nil_parts (e ∷ es) fs h = cc

no_conflict : (ts : TextSet) → conflict ts ≡ [] → ts ≡ []
no_conflict [] h = refl
no_conflict (t ∷ ts) h = cc

module _ (p : Platform) where
  put_all-entries :
      (acc : Combined) (m : List (Text × Text)) (ks : List Text)
      → put_all p m (entries_of acc ks) ≡ put_keys (λ k. smallest (find k acc.versions)) m ks
  unfolding put_all entries_of
  put_all-entries acc m [] = refl
  put_all-entries acc m (k ∷ ks) = put_all-entries acc (put k (smallest (find k acc.versions)) m) ks

  report-clean :
      (found : ComponentVersions) (name : Text) (errors : List Error)
      (versions : List (Text × Text))
      → report p found name errors ≡ reported versions
      → (errors ≡ []) × (put_all p (with_release p name) found ≡ versions)
  report-clean found name [] versions h = (refl, cc)
  report-clean found name (e ∷ es) versions h = cc

  seed :
      (name k : Text)
      → find k (with_release p name) ≡ (if text_eq release_text k then if_named name else none)
  unfolding find
  seed [] k = elim (Bool-cases (text_eq release_text k)) [ inl e ↦ rw e | inr e ↦ rw e ]
  seed (c ∷ s) k = refl

  abbrev gathered : ImageStream → Combined
  gathered is = combine_tags p (record { versions = []; display_names = []; errors = [] }) is.tags

  -- What a clean report says of the sets that were gathered.
  reported_parts :
      (is : ImageStream) (versions : List (Text × Text))
      → component_versions p is ≡ reported versions
      → ((gathered is).errors ≡ [])
        × ((k : Text)
            → Mem k (keys (gathered is).versions)
            → is_multiple (find k (gathered is).versions) ≡ false)
        × (put_keys
              (λ k. smallest (find k (gathered is).versions))
              (with_release p is.name)
              (sort_texts (keys (gathered is).versions))
            ≡ versions)
  unfolding component_versions read_component_versions
  reported_parts is versions h =
      let acc = gathered is in
      let ks = sort_texts (keys acc.versions) in
      let (clean, written) = report-clean (entries_of acc ks) is.name _ versions h in
      let (parsed, apart) = append-nil_parts acc.errors _ clean in
      let multiples = sorted_nil _ (no_conflict _ apart) in
      let (first, _) = none_multiple _ acc.display_names ks multiples in
      let (_, few) = none_multiple [] acc.versions ks first in
      (
        parsed,
        (λ k here. few k ((Perm.mem_iff (sort_texts-perm (keys acc.versions))).1 here)),
        sym (put_all-entries acc (with_release p is.name) ks) ∙ written,
      )

  -- If ComponentVersions reports versions and no error, and a tag gives a component a version, then
  -- the report has that version for the component, whichever tag it is; and all annotations of the
  -- tags are parsed.
  pub component_versions-Tells :
      (is : ImageStream) (versions : List (Text × Text)) (k : Text) (c : ComponentVersion)
      → component_versions p is ≡ reported versions
      → Tells p is.tags k c
      → (find k versions ≡ some c.version) × AllParsed p is.tags
  component_versions-Tells is versions k c h told =
      let acc = gathered is in
      let (clean, few, written) = reported_parts is versions h in
      let here = tags_told p _ is.tags k c told in
      let (set, found) = told_found (find k acc.versions) c.version here in
      let key = key_of_find k set acc.versions found in
      (
        ap (find k) (sym written)
            ∙ (find-put_keys _ (with_release p is.name) (sort_texts (keys acc.versions)) k
                  ((Perm.mem_iff (sort_texts-perm (keys acc.versions))).1 key)
                ∙ ap some (only_version (find k acc.versions) c.version here (few k key))),
        (tags_clean p _ is.tags clean).1,
      )

  -- If ComponentVersions reports versions and no error, and no tag gives a component a version, then
  -- the report has nothing for it, unless it is called `release` and the image stream has a name
  -- that is not empty, which is then what the report has for it.
  pub component_versions-untold :
      (is : ImageStream) (versions : List (Text × Text)) (k : Text)
      → component_versions p is ≡ reported versions
      → ((c : ComponentVersion) → ¬ Tells p is.tags k c)
      → find k versions ≡ (if text_eq release_text k then if_named is.name else none)
  unfolding find
  component_versions-untold is versions k h untold =
      let acc = gathered is in
      let (_, _, written) = reported_parts is versions h in
      ap (find k) (sym written)
      ∙ (find-put_keys_other _ (with_release p is.name) (sort_texts (keys acc.versions)) k (λ here.
            no_key_of_find k acc.versions (tags_untold p _ is.tags k untold)
              ((Perm.mem_iff (sort_texts-perm (keys acc.versions))).0 here))
          ∙ seed is.name k)
