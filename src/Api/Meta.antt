-- ===== src/Api/Meta.antt =====
-- metav1.ObjectMeta and metav1.OwnerReference, with the fields that the code uses.
use hypershift_lite.Prelude.{ℕ, String, Bool, true, List, [], Option, none, nat_eq}
use hypershift_lite.Prelude.Dict.{Dict}

pub record OwnerReference : Type 0 where
  pub api_version : String
  pub kind : String
  pub name : String
  pub uid : String
  pub block_owner_deletion : Option Bool

-- Times are numbers of nanoseconds; 0 is Go's zero time.
pub record ObjectMeta : Type 0 where
  pub name : String
  pub generate_name : String
  pub namespace : String
  pub uid : String
  pub annotations : Option (Dict String)
  pub owner_references : List OwnerReference
  pub deletion_timestamp : Option ℕ
  pub creation_timestamp : ℕ

-- metav1.ObjectMeta{Name: name, Namespace: namespace}
abbrev pub named : String → String → ObjectMeta
named name namespace = record {
  name = name;
  generate_name = "";
  namespace = namespace;
  uid = "";
  annotations = none;
  owner_references = [];
  deletion_timestamp = none;
  creation_timestamp = 0;
}

-- `(*metav1.Time).IsZero`: a nil pointer and the zero time are zero.
abbrev pub is_zero : Option ℕ → Bool
is_zero none = true
is_zero (Option.some t) = nat_eq t 0
