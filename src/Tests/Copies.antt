-- ===== src/Tests/Copies.antt =====
-- The theorems on deep copies at a concrete store.
use hypershift_lite.Api.Copies.Views.{array_view, meta_view}
use hypershift_lite.Api.Copies.Views.{list_view, Between}
use hypershift_lite.Api.Copies.Views.{MetaBetween, Grown, MetaCopied, AreDeep}
use hypershift_lite.Api.Copies.Laws.{get_elem?-length, Grown-trans, Grown-length}
use hypershift_lite.Api.Copies.Laws.{array-Grown}
use hypershift_lite.Api.Copies.Laws.{Between-wider}
use mathlib.Core.List.{append-nil}
use hypershift_lite.Prelude.{
  sym, ℕ, zero, suc, ◌≡◌, ◌<◌, ◌∙◌, refl, ap, List, [], ◌∷◌, ◌++◌, Option, none, some, arith,
  length, length-append, get_elem?,
}
use hypershift_lite.Api.{KubernetesServiceCondition, ConditionStatus}
use hypershift_lite.Api.Copies.{Store, StoredService, KubernetesServiceList, MetaCopies, copy_list}
use hypershift_lite.Api.Copies.{StoredMeta, Array}
use hypershift_lite.Api.Copies.Apart.{IsStored, write_array, write_services, copy_list-view}
use hypershift_lite.Api.Copies.Apart.{copy_list-apart}

-- A library that copies what each reference leads to.
abbrev array_or_zero : Option Array → Array
array_or_zero none = Array.time 0
array_or_zero (some array) = array

abbrev copy_reference : Option ℕ → List Array → Option ℕ × List Array
copy_reference none arrays = (none, arrays)
copy_reference (some a) arrays =
    (some (length arrays), arrays ++ array_or_zero (get_elem? arrays a) ∷ [])

abbrev copy_meta : StoredMeta → List Array → StoredMeta × List Array
copy_meta o arrays =
    let (annotations, first) = copy_reference o.annotations arrays in
    let (owner_references, second) = copy_reference o.owner_references first in
    let (deletion_timestamp, third) = copy_reference o.deletion_timestamp second in
    (
      record o {
        annotations = annotations;
        owner_references = owner_references;
        deletion_timestamp = deletion_timestamp;
      },
      third,
    )

abbrev deep_copies : MetaCopies
deep_copies = record { copy_object_meta = copy_meta; copy_list_meta = λ l. l; copy_time = λ t. t }

record ReferenceCopied (arrays arrays' : List Array) (o o' : Option ℕ) : Type 0 where
  grown : Grown arrays arrays'
  view : array_view arrays' o' ≡ array_view arrays o
  fresh : Between (length arrays) (length arrays') o'

is_there :
    (arrays : List Array) (a : ℕ)
    → a < length arrays
    → some (array_or_zero (get_elem? arrays a)) ≡ get_elem? arrays a
is_there [] a h = absurd (omega (arith, h))
is_there (x ∷ arrays) zero h = refl
is_there (x ∷ arrays) (suc a) h = is_there arrays a (omega (arith, h))

reference_copied :
    (o : Option ℕ) (arrays : List Array)
    → Between 0 (length arrays) o
    → let (o', arrays') = copy_reference o arrays in ReferenceCopied arrays arrays' o o'
reference_copied none arrays h = record {
  grown = record { more = []; kept = sym (append-nil arrays) };
  view = refl;
  fresh = tt;
}
reference_copied (some a) arrays (_, below) = record {
  grown = record { more = array_or_zero (get_elem? arrays a) ∷ []; kept = refl };
  view =
      ap some
        (get_elem?-length arrays (array_or_zero (get_elem? arrays a)) ∙ is_there arrays a below);
  fresh = (omega arith, rw (length-append) (omega arith));
}

meta_copied :
    (o : StoredMeta) (arrays : List Array)
    → MetaBetween 0 (length arrays) o
    → let (o', arrays') = copy_meta o arrays in MetaCopied arrays arrays' o o'
meta_copied o arrays (a, r, d) =
    let (annotations, first) = copy_reference o.annotations arrays in
    let (owner_references, second) = copy_reference o.owner_references first in
    let (deletion_timestamp, third) = copy_reference o.deletion_timestamp second in
    let one = reference_copied o.annotations arrays a in
    let to_first = Grown-length {a = arrays} {b = first} one.grown in
    let two = reference_copied o.owner_references first (
      Between-wider 0 (length arrays) 0 (length first) o.owner_references (omega arith) to_first
        r) in
    let to_second = Grown-length {a = first} {b = second} two.grown in
    let both = Grown-trans {a = arrays} {b = first} {c = second} one.grown two.grown in
    let three = reference_copied o.deletion_timestamp second (
      Between-wider 0 (length arrays) 0 (length second) o.deletion_timestamp (omega arith)
        (omega (arith, to_first, to_second)) d) in
    let to_third = Grown-length {a = second} {b = third} three.grown in
    let rest = Grown-trans {a = first} {b = second} {c = third} two.grown three.grown in
    let seen_annotations : array_view third annotations ≡ array_view arrays o.annotations =
      array-Grown {a = first} {b = third} (length arrays) annotations rest one.fresh ∙ one.view in
    let seen_owners : array_view third owner_references ≡ array_view arrays o.owner_references =
      array-Grown {a = second} {b = third} (length first) owner_references three.grown two.fresh
      ∙ (two.view ∙ array-Grown {a = arrays} {b = first} 0 o.owner_references one.grown r) in
    let seen_time : array_view third deletion_timestamp ≡ array_view arrays o.deletion_timestamp =
      three.view ∙ array-Grown {a = arrays} {b = second} 0 o.deletion_timestamp both d in
    record {
      grown = Grown-trans {a = arrays} {b = second} {c = third} both three.grown;
      view = λ i. record (meta_view arrays o) {
        annotations = seen_annotations i;
        owner_references = seen_owners i;
        deletion_timestamp = seen_time i;
      };
      fresh = (
        Between-wider (length arrays) (length first) (length arrays) (length third) annotations
            (omega arith) (omega (arith, to_second, to_third)) one.fresh,
        Between-wider (length first) (length second) (length arrays) (length third) owner_references
            to_first to_third two.fresh,
        Between-wider (length second) (length third) (length arrays) (length third)
            deletion_timestamp (omega (arith, to_first, to_second)) (omega arith) three.fresh,
      );
    }

deep_copies-AreDeep : AreDeep deep_copies
deep_copies-AreDeep = record { object_meta = meta_copied; list_meta = λ l. refl; time = λ t. refl }

abbrev up : KubernetesServiceCondition
up = record {
  type = "Available";
  status = ConditionStatus.true_status;
  last_transition_time = 3;
  reason = "Running";
  message = "up";
}

-- Two services that share the array of their conditions and the map of their annotations.
abbrev stored : StoredService
stored = record {
  type_meta = record { kind = "KubernetesService"; api_version = "v1alpha1" };
  metadata = record {
    name = "ks";
    generate_name = "";
    namespace = "ns";
    uid = "";
    annotations = some 1;
    owner_references = none;
    deletion_timestamp = none;
    creation_timestamp = 0;
  };
  spec = record { release_image = "release"; pull_secret = "pull" };
  status = record { conditions = some 0 };
}

abbrev store : Store
store = record {
  arrays = Array.conditions (up ∷ []) ∷ Array.annotations (("a", "b") ∷ []) ∷ [];
  services = (stored ∷ stored ∷ []) ∷ [];
}

abbrev services : KubernetesServiceList
services = record {
  type_meta = record { kind = "KubernetesServiceList"; api_version = "v1alpha1" };
  metadata = record { resource_version = "1"; continue = "" };
  items = some 0;
}

services_IsStored : IsStored store services
services_IsStored = (omega arith, omega arith, (one, (one, tt)))
  where
    one : MetaBetween 0 2 stored.metadata × Between 0 2 stored.status.conditions
    one = (((omega arith, omega arith), tt, tt), (omega arith, omega arith))

copy_list-view_example :
    (list_view (copy_list deep_copies services store).1 (copy_list deep_copies services store).0
      ≡ list_view store services)
    × (list_view (copy_list deep_copies services store).1 services ≡ list_view store services)
copy_list-view_example =
    copy_list-view deep_copies deep_copies-AreDeep store services services_IsStored

copy_list-apart_example :
    let (out, s) = copy_list deep_copies services store in
    let x = Array.annotations [] in
    (list_view (write_array (write_services s 0 []) 1 x) out ≡ list_view s out)
    × (list_view (write_array (write_services s 1 []) 2 x) services ≡ list_view s services)
copy_list-apart_example =
    copy_list-apart deep_copies deep_copies-AreDeep store services 1 0 2 1 (Array.annotations []) []
      services_IsStored (omega arith) (omega arith) (omega arith) (omega arith)

-- Each service of the copy has a map and an array of its own.
copied_addresses :
    (copy_list deep_copies services store).1.services
    ≡ (stored ∷ stored ∷ [])
      ∷ (record stored {
        metadata = record (stored.metadata) { annotations = some 2 };
        status = record { conditions = some 3 };
      }
          ∷ record stored {
            metadata = record (stored.metadata) { annotations = some 4 };
            status = record { conditions = some 5 };
          }
          ∷ [])
      ∷ []
unfolding copy_list
copied_addresses = refl
