-- ===== src/Api/Copies/Views.antt =====
-- Deep copies of pkg/api/v1alpha1: what a reader sees of an object in the store, where its references
-- lead, and what the library's copies are to do.
use hypershift_lite.Prelude.{String}
use hypershift_lite.Prelude.{
  ℕ, ◌<◌, ◌≤◌, ◌≡◌, List, [], ◌∷◌, ◌++◌, Option, none, some, length, get_elem?, map,
}
use hypershift_lite.Api.Kube.{KubernetesServiceCondition, KubernetesServiceSpec}
use hypershift_lite.Api.Copies.{TypeMeta, ListMeta, StoredMeta, StoredService, Array, Store}
use hypershift_lite.Api.Copies.{MetaCopies, conditions_in}
use hypershift_lite.Api.Copies.{KubernetesServiceList, services_at}

-- What a reader sees at a reference: nil apart from what is there.
abbrev pub array_view : List Array → Option ℕ → Option (Option Array)
array_view arrays none = none
array_view arrays (some a) = some (get_elem? arrays a)

-- What a reader sees of an object's metadata, of a service and of a list.
pub record MetaView : Type 0 where
  pub name : String
  pub generate_name : String
  pub namespace : String
  pub uid : String
  pub annotations : Option (Option Array)
  pub owner_references : Option (Option Array)
  pub deletion_timestamp : Option (Option Array)
  pub creation_timestamp : ℕ

abbrev pub meta_view : List Array → StoredMeta → MetaView
meta_view arrays o = record {
  name = o.name;
  generate_name = o.generate_name;
  namespace = o.namespace;
  uid = o.uid;
  annotations = array_view arrays o.annotations;
  owner_references = array_view arrays o.owner_references;
  deletion_timestamp = array_view arrays o.deletion_timestamp;
  creation_timestamp = o.creation_timestamp;
}

pub record ServiceView : Type 0 where
  pub type_meta : TypeMeta
  pub metadata : MetaView
  pub spec : KubernetesServiceSpec
  pub conditions : Option (List KubernetesServiceCondition)

pub record ListView : Type 0 where
  pub type_meta : TypeMeta
  pub metadata : ListMeta
  pub items : Option (List ServiceView)

-- The conditions of what a reader sees at a reference.
abbrev pub conditions_seen : Option (Option Array) → Option (List KubernetesServiceCondition)
conditions_seen none = none
conditions_seen (some array) = some (conditions_in array)

abbrev pub service_view : Store → StoredService → ServiceView
service_view s svc = record {
  type_meta = svc.type_meta;
  metadata = meta_view s.arrays svc.metadata;
  spec = svc.spec;
  conditions = conditions_seen (array_view s.arrays svc.status.conditions);
}

abbrev pub items_view : Store → Option ℕ → Option (List ServiceView)
items_view s none = none
items_view s (some a) = some (map (service_view s) (services_at s a))

abbrev pub list_view : Store → KubernetesServiceList → ListView
list_view s list = record {
  type_meta = list.type_meta;
  metadata = list.metadata;
  items = items_view s list.items;
}

-- The addresses of a value are between two bounds of the store's arrays.
abbrev pub Between : ℕ → ℕ → Option ℕ → Type 0
Between low high none = Unit {0}
Between low high (some a) = (low ≤ a) × (a < high)

abbrev pub MetaBetween : ℕ → ℕ → StoredMeta → Type 0
MetaBetween low high o =
    Between low high o.annotations
    × Between low high o.owner_references
    × Between low high o.deletion_timestamp

abbrev pub AllBetween : ℕ → ℕ → List StoredService → Type 0
AllBetween low high [] = Unit {0}
AllBetween low high (svc ∷ svcs) =
    (MetaBetween low high svc.metadata × Between low high svc.status.conditions)
    × AllBetween low high svcs

-- The arrays are those that there were, and perhaps more.
pub record Grown (arrays arrays' : List Array) : Type 0 where
  pub more : List Array
  pub kept : arrays' ≡ arrays ++ more

-- What the code relies on: a copy of an object's metadata reads as the old one, its references lead
-- to new places, and what was there is kept; and the copies of the two types without references are
-- equal to what they copy.
pub record MetaCopied (arrays arrays' : List Array) (o o' : StoredMeta) : Type 0 where
  pub grown : Grown arrays arrays'
  pub view : meta_view arrays' o' ≡ meta_view arrays o
  pub fresh : MetaBetween (length arrays) (length arrays') o'

pub record AreDeep (m : MetaCopies) : Type 0 where
  pub object_meta :
      (o : StoredMeta) (arrays : List Array)
      → MetaBetween 0 (length arrays) o
      → let (o', arrays') = m.copy_object_meta o arrays in MetaCopied arrays arrays' o o'
  pub list_meta : (l : ListMeta) → m.copy_list_meta l ≡ l
  pub time : (t : ℕ) → m.copy_time t ≡ t

-- The store has the arrays of the other and perhaps more, and the same services.
pub record Extends (s t : Store) : Type 0 where
  pub arrays : Grown s.arrays t.arrays
  pub services : t.services ≡ s.services
