-- ===== src/Reconciler/Phases/Order.antt =====
-- The order in which a run of `Reconcile` reports conditions and writes components.
use hypershift_lite.Prelude.{String, ◌≡◌, Bool, true, false, not, [], ◌∷◌, ◌&&◌, ◌||◌, ◌==◌}
use hypershift_lite.Prelude.{contains, arith}
use hypershift_lite.Api.{Platform, KubernetesService, etcd_available}
use hypershift_lite.Api.{kube_api_server_available}
use hypershift_lite.Certs.{Crypto}
use hypershift_lite.Client.{Client, Kind, Object}
use hypershift_lite.Pki.{root_ca_secret}
use hypershift_lite.Etcd.Manifests as Etcd
use hypershift_lite.Kas.Manifests as Kas
use hypershift_lite.Release.Images.{ReleaseImage}
use hypershift_lite.Reconciler.OwnerRefs.{metadata_of}
use hypershift_lite.Reconciler.Recorded.{Record, recorded, applied, status_updated}
use hypershift_lite.Reconciler.Components.{reconcile_etcd, reconcile_kube_api_server}
use hypershift_lite.Reconciler.Components.{reconcile_kube_controller_manager}
use hypershift_lite.Reconciler.Phases.{condition_is_true}
use hypershift_lite.Reconciler.Phases.Keeps.{Keeps, Free, Blind, IsNamed, Keeps-pure}
use hypershift_lite.Reconciler.Phases.Keeps.{get_optional_then, apply_then, get_required_then}
use hypershift_lite.Reconciler.Phases.Keeps.{ensure_then}

-- The objects of the API server and those of the controller manager.
abbrev pub is_kas_object : Kind → String → Bool
is_kas_object Kind.secret name =
    contains
      ("kas-server-crt" ∷ "kas-aggregator-crt" ∷ "kas-sa-key" ∷ "kubeconfig"
        ∷ "localhost-kubeconfig" ∷ [])
      name
is_kas_object Kind.config_map name =
    contains ("kas-audit-config" ∷ "kas-config" ∷ "oauth-metadata" ∷ []) name
is_kas_object Kind.service name = name == "kube-apiserver"
is_kas_object Kind.deployment name = name == "kube-apiserver"
is_kas_object _ name = false

abbrev pub is_kcm_object : Kind → String → Bool
is_kcm_object Kind.secret name = name == "cluster-signer"
is_kcm_object Kind.config_map name = name == "kcm-config"
is_kcm_object Kind.deployment name = name == "kube-controller-manager"
is_kcm_object _ name = false

-- Whether the last status update of a record sent a condition of this type that is true.
abbrev pub last_reported : Record → String → Bool
last_reported [] t = false
last_reported (status_updated ks ∷ _) t = condition_is_true ks t
last_reported (_ ∷ r) t = last_reported r t

-- Whether an object may be written after these calls.
abbrev pub may_write : Record → Kind → String → Bool
may_write r kind name =
    (not (is_kas_object kind name) || last_reported r etcd_available)
    && (not (is_kcm_object kind name)
        || (last_reported r etcd_available && last_reported r kube_api_server_available))

-- Every write of the record was allowed when it was made.
abbrev pub InOrder : Record → Type 0
InOrder [] = Unit {0}
InOrder (applied kind ns name ∷ r) = (may_write r kind name ≡ true) × InOrder r
InOrder (_ ∷ r) = InOrder r

-- In order, and the last update sent the conditions that `ks` has.
pub record Agrees (ks : KubernetesService) (r : Record) : Type 0 where
  pub in_order : InOrder r
  pub etcd : last_reported r etcd_available ≡ condition_is_true ks etcd_available
  pub kas :
      last_reported r kube_api_server_available ≡ condition_is_true ks kube_api_server_available

Agrees-Blind : (ks : KubernetesService) → Blind (Agrees ks)
Agrees-Blind ks = record {
  at = λ t kind ns name h. record { in_order = h.in_order; etcd = h.etcd; kas = h.kas };
}

Free-if :
    (ks : KubernetesService) (kind : Kind) (o : Object kind)
    → (not (is_kas_object kind (metadata_of kind o).name) || condition_is_true ks etcd_available)
        && (not (is_kcm_object kind (metadata_of kind o).name)
            || (condition_is_true ks etcd_available
                && condition_is_true ks kube_api_server_available))
      ≡ true
    → Free (Agrees ks) kind o
Free-if ks kind o allowed = record {
  at = λ t h. record {
    in_order = (rw (h.etcd, h.kas) allowed, h.in_order);
    etcd = h.etcd;
    kas = h.kas;
  };
}

module _ (p : Platform) (c : Crypto) (k : Client c.Env) (named : IsNamed k)
    (ks : KubernetesService) where
  pub etcd_plain :
      (kind : Kind) (o : Object kind)
      → is_kas_object kind (metadata_of kind o).name ≡ false
      → is_kcm_object kind (metadata_of kind o).name ≡ false
      → Free (Agrees ks) kind o
  etcd_plain kind o a b = Free-if ks kind o (rw (a, b))

  pub reconcile_etcd-Keeps : Keeps k (Agrees ks) (reconcile_etcd p c (recorded k) ks)
  unfolding reconcile_etcd Etcd.client_secret Etcd.server_secret Etcd.peer_secret
      Etcd.operator_service_account Etcd.operator_role Etcd.operator_role_binding
      Etcd.operator_deployment Etcd.cluster root_ca_secret
  reconcile_etcd-Keeps =
      search
        (
          get_required_then k named,
          get_optional_then k named,
          apply_then k named,
          Agrees-Blind ks,
          Keeps-pure,
          etcd_plain,
        )
        depth 60

  kas-Free :
      condition_is_true ks etcd_available ≡ true
      → (kind : Kind) (o : Object kind) → is_kcm_object kind (metadata_of kind o).name ≡ false
      → Free (Agrees ks) kind o
  kas-Free etcd kind o b = Free-if ks kind o (ground arith)

  pub reconcile_kube_api_server-Keeps :
      condition_is_true ks etcd_available ≡ true
      → (image : ReleaseImage)
      → Keeps k (Agrees ks) (reconcile_kube_api_server p c (recorded k) ks image)
  unfolding reconcile_kube_api_server Kas.service Kas.server_cert_secret Kas.aggregator_cert_secret
      Kas.service_account_signing_key_secret Kas.service_kubeconfig_secret
      Kas.localhost_kubeconfig_secret Kas.audit_config Kas.config Kas.oauth_metadata Kas.deployment
  reconcile_kube_api_server-Keeps etcd image =
      search
        (get_required_then k named, ensure_then k named, Agrees-Blind ks, Keeps-pure, kas-Free etcd)
        depth 60

  kcm-Free :
      condition_is_true ks etcd_available ≡ true
      → condition_is_true ks kube_api_server_available ≡ true
      → (kind : Kind) (o : Object kind) → Free (Agrees ks) kind o
  kcm-Free etcd kas kind o = Free-if ks kind o (ground arith)

  pub reconcile_kube_controller_manager-Keeps :
      condition_is_true ks etcd_available ≡ true
      → condition_is_true ks kube_api_server_available ≡ true
      → (image : ReleaseImage)
      → Keeps k (Agrees ks) (reconcile_kube_controller_manager p c (recorded k) ks image)
  unfolding reconcile_kube_controller_manager
  reconcile_kube_controller_manager-Keeps etcd kas image =
      search
        (
          get_required_then k named,
          get_optional_then k named,
          apply_then k named,
          Agrees-Blind ks,
          Keeps-pure,
          kcm-Free etcd kas,
        )
        depth 60
