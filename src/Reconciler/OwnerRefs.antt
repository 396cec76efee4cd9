-- ===== src/Reconciler/OwnerRefs.antt =====
-- The owner references of reconciler.go, lines 536 to 581.
pub mod Laws
use hypershift_lite.Prelude.{
  ℕ, suc, String, Bool, true, false, List, [], ◌∷◌, ◌++◌, Option, none, some,
}
use hypershift_lite.Prelude.{◌==◌, ◌&&◌, set, if◌then◌else◌}
use hypershift_lite.Api.{OwnerReference, ObjectMeta, KubernetesService, Platform, group_version}
use hypershift_lite.Client.{Kind, Object}
use mathlib.Core.Option

-- The reference that an object gets.
unfoldable pub ks_owner_ref : KubernetesService → OwnerReference
ks_owner_ref ks = record {
  api_version = group_version;
  kind = "KubernetesService";
  name = ks.metadata.name;
  uid = ks.metadata.uid;
  block_owner_deletion = some true;
}

abbrev pub metadata_of : (k : Kind) → Object k → ObjectMeta
metadata_of Kind.secret o = o.metadata
metadata_of Kind.config_map o = o.metadata
metadata_of Kind.service o = o.metadata
metadata_of Kind.service_account o = o.metadata
metadata_of Kind.role o = o.metadata
metadata_of Kind.role_binding o = o.metadata
metadata_of Kind.deployment o = o.metadata
metadata_of Kind.etcd_cluster o = o.metadata

abbrev pub with_metadata : (k : Kind) → ObjectMeta → Object k → Object k
with_metadata Kind.secret m o = record o { metadata = m }
with_metadata Kind.config_map m o = record o { metadata = m }
with_metadata Kind.service m o = record o { metadata = m }
with_metadata Kind.service_account m o = record o { metadata = m }
with_metadata Kind.role m o = record o { metadata = m }
with_metadata Kind.role_binding m o = record o { metadata = m }
with_metadata Kind.deployment m o = record o { metadata = m }
with_metadata Kind.etcd_cluster m o = record o { metadata = m }

module _ (p : Platform) where
  unfoldable pub refer_same_object : OwnerReference → OwnerReference → Bool
  refer_same_object a b = elim (p.parse_group a.api_version) [
    | none ↦ false
    | some a_group ↦ elim (p.parse_group b.api_version) [
      | none ↦ false
      | some b_group ↦ a_group == b_group && (a.kind == b.kind && a.name == b.name)
    ]
  ]

  -- `none` is -1.
  unfoldable pub index_owner_ref : List OwnerReference → OwnerReference → Option ℕ
  unfolding refer_same_object
  index_owner_ref [] ref = none
  index_owner_ref (r ∷ rest) ref =
      let later = Option.map suc (index_owner_ref rest ref) in
      if refer_same_object r ref then some 0 else later

  unfoldable pub ensure_owner_ref : List OwnerReference → OwnerReference → List OwnerReference
  unfolding index_owner_ref
  ensure_owner_ref owner_references ref = elim (index_owner_ref owner_references ref) [
    | none ↦ owner_references ++ ref ∷ []
    | some idx ↦ set owner_references idx ref
  ]

  unfoldable pub ensure_ks_owner_ref : (k : Kind) → KubernetesService → Object k → Object k
  unfolding ensure_owner_ref ks_owner_ref
  ensure_ks_owner_ref k kube_svc object =
      let m = metadata_of k object in
      with_metadata k
        (record m {
          owner_references = ensure_owner_ref m.owner_references (ks_owner_ref kube_svc);
        })
        object
