-- ===== src/Api/Copies/Apart.antt =====
-- The deep copy of a list of services, of pkg/api/v1alpha1/zz_generated.deepcopy.go: it reads as the
-- list did, and shares no array with what was there before.
use hypershift_lite.Api.Copies.Views.{array_view, meta_view, ServiceView, ListView}
use hypershift_lite.Api.Copies.Views.{service_view, items_view, list_view, Between}
use hypershift_lite.Api.Copies.Views.{MetaBetween, AllBetween, AreDeep}
use hypershift_lite.Api.Copies.Laws.{get_elem?-append, get_elem?-length, get_elem?-set}
use hypershift_lite.Api.Copies.Laws.{services-Extends}
use hypershift_lite.Api.Copies.Services.{copy_services-Copied}
use mathlib.Core.Path.{subst}
use hypershift_lite.Prelude.{
  ℕ, ◌<◌, ◌≤◌, ◌≡◌, ◌≢◌, ◌⊎◌, inl, inr, refl, sym, ap, ◌∙◌, List, [], ◌∷◌, ◌++◌, Option, none, some,
  length, set, map, arith, length-append,
}
use hypershift_lite.Api.Copies.{
  TypeMeta, ListMeta, StoredService, StoredMeta, Array, Store, MetaCopies, KubernetesServiceList,
}
use hypershift_lite.Api.Copies.{services_at, copy_services, copy_list}

-- The arrays of a list are among those of the store with addresses from some bounds on and below
-- others: the array of its items, and all that their metadata and their conditions refer to.
abbrev AreWithin : ℕ → ℕ → ℕ → ℕ → Store → Option ℕ → Type 0
AreWithin first last low high s none = Unit {0}
AreWithin first last low high s (some a) =
    (first ≤ a) × (a < last) × AllBetween low high (services_at s a)

-- All arrays of a list are in the store.
abbrev pub IsStored : Store → KubernetesServiceList → Type 0
IsStored s list = AreWithin 0 (length s.services) 0 (length s.arrays) s list.items

-- Writes to an array, through whatever slice.
abbrev pub write_array : Store → ℕ → Array → Store
write_array s a x = record s { arrays = set s.arrays a x }

abbrev pub write_services : Store → ℕ → List StoredService → Store
write_services s a svcs = record s { services = set s.services a svcs }

abbrev Outside : ℕ → ℕ → ℕ → Type 0
Outside low high a = (a < low) ⊎ (high ≤ a)

ne_of_Outside : (low high a b : ℕ) → Outside low high a → low ≤ b → b < high → a ≢ b
ne_of_Outside low high a b (inl h) below above e = omega (arith, h, below, e)
ne_of_Outside low high a b (inr h) below above e = omega (arith, h, above, e)

module _ (s : Store) (a : ℕ) where
  array_unwritten :
      (low high : ℕ) (x : Array) (o : Option ℕ)
      → Outside low high a
      → Between low high o
      → array_view (set s.arrays a x) o ≡ array_view s.arrays o
  array_unwritten low high x none h inside = refl
  array_unwritten low high x (some b) h (below, above) =
      rw (get_elem?-set s.arrays a b x (ne_of_Outside low high a b h below above)) refl

  meta_unwritten :
      (low high : ℕ) (x : Array) (o : StoredMeta)
      → Outside low high a
      → MetaBetween low high o
      → meta_view (set s.arrays a x) o ≡ meta_view s.arrays o
  meta_unwritten low high x o h (first, second, third) =
      rw
        (
          array_unwritten low high x o.annotations h first,
          array_unwritten low high x o.owner_references h second,
          array_unwritten low high x o.deletion_timestamp h third,
        )
        refl

  services_unwritten :
      (low high : ℕ) (x : Array) (svcs : List StoredService)
      → Outside low high a
      → AllBetween low high svcs
      → map (service_view (write_array s a x)) svcs ≡ map (service_view s) svcs
  services_unwritten low high x [] h inside = refl
  services_unwritten low high x (svc ∷ svcs) h ((first, second), later) =
      rw
        (
          meta_unwritten low high x svc.metadata h first,
          array_unwritten low high x svc.status.conditions h second,
          services_unwritten low high x svcs h later,
        )
        refl

  unwritten_arrays :
      (first last low high : ℕ) (x : Array) (o : Option ℕ)
      → Outside low high a
      → AreWithin first last low high s o
      → items_view (write_array s a x) o ≡ items_view s o
  unwritten_arrays first last low high x none h inside = refl
  unwritten_arrays first last low high x (some b) h (_, _, inside) =
      ap some (services_unwritten low high x (services_at s b) h inside)

  unwritten_services :
      (first last low high : ℕ) (svcs : List StoredService) (o : Option ℕ)
      → Outside first last a
      → AreWithin first last low high s o
      → items_view (write_services s a svcs) o ≡ items_view s o
  unwritten_services first last low high svcs none h inside = refl
  unwritten_services first last low high svcs (some b) h (below, above, _) =
      rw (get_elem?-set s.services a b svcs (ne_of_Outside first last a b h below above)) refl

-- An array of items that is not written is within the same bounds.
written-AreWithin :
    (s : Store) (b first last low high : ℕ) (svcs : List StoredService) (o : Option ℕ)
    → Outside first last b
    → AreWithin first last low high s o
    → AreWithin first last low high (write_services s b svcs) o
written-AreWithin s b first last low high svcs none h inside = tt
written-AreWithin s b first last low high svcs (some a) h (below, above, inside) = (
  below,
  above,
  rw (get_elem?-set s.services b a svcs (ne_of_Outside first last b a h below above)) inside,
)

both_unwritten :
    (s : Store) (a b first last low high : ℕ) (x : Array) (svcs : List StoredService) (o : Option ℕ)
    → Outside low high a
    → Outside first last b
    → AreWithin first last low high s o
    → items_view (write_array (write_services s b svcs) a x) o ≡ items_view s o
both_unwritten s a b first last low high x svcs o h k inside =
    unwritten_arrays (write_services s b svcs) a first last low high x o h
      (written-AreWithin s b first last low high svcs o k inside)
    ∙ unwritten_services s b first last low high svcs o k inside

abbrev seen : TypeMeta → ListMeta → Option (List ServiceView) → ListView
seen type_meta metadata items = record { type_meta = type_meta; metadata = metadata; items = items }

seen_items :
    (list : KubernetesServiceList) {i i' : Option (List ServiceView)}
    → i ≡ i'
    → seen list.type_meta list.metadata i ≡ seen list.type_meta list.metadata i'
seen_items list e = ap (seen list.type_meta list.metadata) e

seen_again :
    {t t' : TypeMeta} {m m' : ListMeta} {i i' : Option (List ServiceView)}
    → t ≡ t'
    → m ≡ m'
    → i ≡ i'
    → seen t m i ≡ seen t' m' i'
seen_again e f g = λ k. seen (e k) (f k) (g k)

module _ (m : MetaCopies) (deep : AreDeep m) where
  -- What a copy of a list leaves.
  record ListCopied (s s' : Store) (list out : KubernetesServiceList) : Type 0 where
    type_meta : out.type_meta ≡ list.type_meta
    metadata : out.metadata ≡ list.metadata
    view : items_view s' out.items ≡ items_view s list.items
    old_view : items_view s' list.items ≡ items_view s list.items
    old_within : AreWithin 0 (length s.services) 0 (length s.arrays) s' list.items
    within :
        AreWithin
          (length s.services)
          (length s'.services)
          (length s.arrays)
          (length s'.arrays)
          s'
          out.items

  -- The array that was copied, and the new one behind the old ones.
  array_copied :
      (s : Store) (type_meta : TypeMeta) (metadata : ListMeta) (a : ℕ)
      → let list : KubernetesServiceList = record {
        type_meta = type_meta;
        metadata = metadata;
        items = some a;
      } in
        IsStored s list → ListCopied s (copy_list m list s).1 list (copy_list m list s).0
  unfolding copy_list
  array_copied s type_meta metadata a (_, below, inside) =
      let svcs = services_at s a in
      let s₁ = (copy_services m svcs s).1 in
      let out = (copy_services m svcs s).0 in
      let copied = copy_services-Copied m deep svcs s inside in
      let same : length s₁.services ≡ length s.services = ap length copied.extends.services in
      let old : services_at (record s₁ { services = s₁.services ++ out ∷ [] }) a ≡ svcs =
        rw (copied.extends.services, get_elem?-append s.services (out ∷ []) a below) refl in
      let new : services_at (record s₁ { services = s₁.services ++ out ∷ [] }) (length s₁.services)
          ≡ out =
        rw (get_elem?-length) refl in
      record {
        type_meta = refl;
        metadata = deep.list_meta metadata;
        view = ap some (ap (map (service_view s₁)) new ∙ copied.views);
        old_view = ap some (
            ap (map (service_view s₁)) old
            ∙ services-Extends {s = s} {t = s₁} 0 svcs copied.extends inside);
        old_within = (omega arith, below, subst (AllBetween 0 (length s.arrays)) (sym old) inside);
        within = (
          omega (arith, same),
          rw (length-append) (omega arith),
          subst (AllBetween (length s.arrays) (length s₁.arrays)) (sym new) copied.fresh,
        );
      }

  list_copied :
      (s : Store) (type_meta : TypeMeta) (metadata : ListMeta) (items : Option ℕ)
      → let list : KubernetesServiceList = record {
        type_meta = type_meta;
        metadata = metadata;
        items = items;
      } in
        IsStored s list → ListCopied s (copy_list m list s).1 list (copy_list m list s).0
  unfolding copy_list
  list_copied s type_meta metadata none h = record {
    type_meta = refl;
    metadata = deep.list_meta metadata;
    view = refl;
    old_view = refl;
    old_within = tt;
    within = tt;
  }
  list_copied s type_meta metadata (some a) h = array_copied s type_meta metadata a h

  -- DeepCopy of a list of services gives a list that reads as the old one did, down to what the
  -- metadata refers to and to the conditions, with nil slices, maps and pointers apart from empty
  -- ones, and the old one reads as before. This is provided that all that the list refers to is in
  -- the store, and that the library's copy of an object's metadata is a deep one and its copies of
  -- times and of a list's metadata are equal to what they copy.
  pub copy_list-view :
      (s : Store) (list : KubernetesServiceList)
      → IsStored s list
      → let (out, s') = copy_list m list s in
        (list_view s' out ≡ list_view s list) × (list_view s' list ≡ list_view s list)
  copy_list-view s list h =
      let copied = list_copied s list.type_meta list.metadata list.items h in
      (
        seen_again copied.type_meta copied.metadata copied.view,
        ap (λ items. seen list.type_meta list.metadata items) copied.old_view,
      )

  -- A deep copy shares no slice, map or time with what was there before: after it, writes to what was
  -- in the old store leave what the copy reads as unchanged, and writes elsewhere, such as to what
  -- the copy refers to, leave what the old list reads as unchanged. This is provided that all that
  -- the list refers to is in the store, and that the library's copy of an object's metadata is a
  -- deep one and its copies of times and of a list's metadata are equal to what they copy.
  pub copy_list-apart :
      (s : Store) (list : KubernetesServiceList) (a b c d : ℕ) (x : Array)
      (svcs : List StoredService)
      → IsStored s list
      → a < length s.arrays
      → b < length s.services
      → length s.arrays ≤ c
      → length s.services ≤ d
      → let (out, s') = copy_list m list s in
        (list_view (write_array (write_services s' b svcs) a x) out ≡ list_view s' out)
        × (list_view (write_array (write_services s' d svcs) c x) list ≡ list_view s' list)
  copy_list-apart s list a b c d x svcs h old_a old_b new_c new_d =
      let copied = list_copied s list.type_meta list.metadata list.items h in
      let (out, s') = copy_list m list s in
      (
        seen_items out
            (both_unwritten s' a b _ _ _ _ x svcs out.items (inl old_a) (inl old_b) copied.within),
        seen_items list (
            both_unwritten s' c d _ _ _ _ x svcs list.items (inr new_c) (inr new_d)
              copied.old_within),
      )
