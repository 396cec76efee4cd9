-- ===== src/Api/Copies.antt =====
-- pkg/api/v1alpha1/zz_generated.deepcopy.go, with a store: a slice, a map or a time that a field
-- points to is nil or an address, and two values with one address share what is there. A pointer
-- that a function takes or returns is `none` for nil or the struct that it points to, since no
-- function keeps one. The deep copies of the library's own types are parameters.
pub mod Views
pub mod Laws
pub mod Services
pub mod Apart
use hypershift_lite.Prelude.{ℕ, String, List, [], ◌∷◌, ◌++◌, Option, none, some, length, get_elem?}
use hypershift_lite.Prelude.Dict.{Dict}
use hypershift_lite.Api.Meta.{OwnerReference}
use hypershift_lite.Api.Kube.{KubernetesServiceCondition, KubernetesServiceSpec}

-- metav1.TypeMeta and metav1.ListMeta
pub record TypeMeta : Type 0 where
  pub kind : String
  pub api_version : String

pub record ListMeta : Type 0 where
  pub resource_version : String
  pub continue : String

-- metav1.ObjectMeta as Go stores it, with the fields that the code uses: a map, a slice and a pointer.
-- The pointer in an owner reference is read as the Boolean that it points to.
pub record StoredMeta : Type 0 where
  pub name : String
  pub generate_name : String
  pub namespace : String
  pub uid : String
  pub annotations : Option ℕ
  pub owner_references : Option ℕ
  pub deletion_timestamp : Option ℕ
  pub creation_timestamp : ℕ

-- KubernetesServiceStatus, KubernetesService and KubernetesServiceList as Go stores them.
pub record StoredStatus : Type 0 where
  pub conditions : Option ℕ

pub record StoredService : Type 0 where
  pub type_meta : TypeMeta
  pub metadata : StoredMeta
  pub spec : KubernetesServiceSpec
  pub status : StoredStatus

pub record KubernetesServiceList : Type 0 where
  pub type_meta : TypeMeta
  pub metadata : ListMeta
  pub items : Option ℕ

-- What an address in a service leads to.
pub data Array : Type 0 where
  conditions : List KubernetesServiceCondition → Array
  owner_references : List OwnerReference → Array
  annotations : Dict String → Array
  time : ℕ → Array

-- The arrays by address, and the arrays of services.
pub record Store : Type 0 where
  pub arrays : List Array
  pub services : List (List StoredService)

abbrev or_nothing {ℓ} : {A : Type ℓ} → Option (List A) → List A
or_nothing none = []
or_nothing (some xs) = xs

-- The types of Go keep a slice of conditions from leading to anything else.
abbrev pub conditions_in : Option Array → List KubernetesServiceCondition
conditions_in (some (Array.conditions cs)) = cs
conditions_in _ = []

abbrev pub conditions_at : Store → ℕ → List KubernetesServiceCondition
conditions_at s a = conditions_in (get_elem? s.arrays a)

abbrev pub services_at : Store → ℕ → List StoredService
services_at s a = or_nothing (get_elem? s.services a)

-- A new array: its address, and the store with it.
abbrev pub make_conditions : List KubernetesServiceCondition → Store → ℕ × Store
make_conditions cs s = (length s.arrays, record s { arrays = s.arrays ++ Array.conditions cs ∷ [] })

abbrev pub make_services : List StoredService → Store → ℕ × Store
make_services ss s = (length s.services, record s { services = s.services ++ ss ∷ [] })

-- DeepCopyInto of metav1.ObjectMeta, metav1.ListMeta and metav1.Time.
pub record MetaCopies : Type 0 where
  pub copy_object_meta : StoredMeta → List Array → StoredMeta × List Array
  pub copy_list_meta : ListMeta → ListMeta
  pub copy_time : ℕ → ℕ

module _ (m : MetaCopies) where
  unfoldable pub copy_condition : KubernetesServiceCondition → KubernetesServiceCondition
  copy_condition c = record c { last_transition_time = m.copy_time c.last_transition_time }

  -- The loop over the conditions. No one reads the new array before the loop has filled it.
  unfoldable pub copy_conditions : List KubernetesServiceCondition → List KubernetesServiceCondition
  unfolding copy_condition
  copy_conditions [] = []
  copy_conditions (c ∷ cs) = copy_condition c ∷ copy_conditions cs

  unfoldable pub copy_spec : KubernetesServiceSpec → KubernetesServiceSpec
  copy_spec spec = record spec { pull_secret = spec.pull_secret }

  unfoldable pub copy_status : StoredStatus → Store → StoredStatus × Store
  unfolding copy_conditions
  copy_status status s = elim status.conditions [
    | none ↦ (status, s)
    | some a ↦
        let (b, s') = make_conditions (copy_conditions (conditions_at s a)) s in
        (record status { conditions = some b }, s')
  ]

  unfoldable pub copy_service : StoredService → Store → StoredService × Store
  unfolding copy_status
  copy_service svc s =
      let (metadata, arrays) = m.copy_object_meta svc.metadata s.arrays in
      let (status, s') = copy_status svc.status (record s { arrays = arrays }) in
      (record svc { metadata = metadata; status = status }, s')

  -- The loop over the items.
  unfoldable pub copy_services : List StoredService → Store → List StoredService × Store
  unfolding copy_service
  copy_services [] s = ([], s)
  copy_services (svc ∷ svcs) s =
      let (first, s₁) = copy_service svc s in
      let (rest, s₂) = copy_services svcs s₁ in (first ∷ rest, s₂)

  unfoldable pub copy_list : KubernetesServiceList → Store → KubernetesServiceList × Store
  unfolding copy_services
  copy_list list s = elim list.items [
    | none ↦ (record list { metadata = m.copy_list_meta list.metadata }, s)
    | some a ↦
        let (copied, s₁) = copy_services (services_at s a) s in
        let (b, s₂) = make_services copied s₁ in
        (record list { metadata = m.copy_list_meta list.metadata; items = some b }, s₂)
  ]

  -- DeepCopy of the five types, which gives nil for nil, and DeepCopyObject of the two objects.
  unfoldable pub deep_copy_condition :
      Option KubernetesServiceCondition → Option KubernetesServiceCondition
  unfolding copy_condition
  deep_copy_condition none = none
  deep_copy_condition (some c) = some (copy_condition c)

  unfoldable pub deep_copy_spec : Option KubernetesServiceSpec → Option KubernetesServiceSpec
  unfolding copy_spec
  deep_copy_spec none = none
  deep_copy_spec (some spec) = some (copy_spec spec)

  unfoldable pub deep_copy_status : Option StoredStatus → Store → Option StoredStatus × Store
  unfolding copy_status
  deep_copy_status none s = (none, s)
  deep_copy_status (some status) s = let (out, s') = copy_status status s in (some out, s')

  unfoldable pub deep_copy_service : Option StoredService → Store → Option StoredService × Store
  unfolding copy_service
  deep_copy_service none s = (none, s)
  deep_copy_service (some svc) s = let (out, s') = copy_service svc s in (some out, s')

  unfoldable pub deep_copy_list :
      Option KubernetesServiceList → Store → Option KubernetesServiceList × Store
  unfolding copy_list
  deep_copy_list none s = (none, s)
  deep_copy_list (some list) s = let (out, s') = copy_list list s in (some out, s')

  -- A runtime.Object: `none` is the nil interface.
  unfoldable pub deep_copy_service_object :
      Option StoredService → Store → Option StoredService × Store
  unfolding deep_copy_service
  deep_copy_service_object svc s =
      let (c, s') = deep_copy_service svc s in (elim c [ none ↦ none | some out ↦ some out ], s')

  unfoldable pub deep_copy_list_object :
      Option KubernetesServiceList → Store → Option KubernetesServiceList × Store
  unfolding deep_copy_list
  deep_copy_list_object list s =
      let (c, s') = deep_copy_list list s in (elim c [ none ↦ none | some out ↦ some out ], s')
