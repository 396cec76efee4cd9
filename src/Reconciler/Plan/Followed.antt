-- ===== src/Reconciler/Plan/Followed.antt =====
-- Each component of pkg/controllers/kubeservice/reconciler.go writes its objects in the order of the plan.
use hypershift_lite.Api.{Platform, KubernetesService}
use hypershift_lite.Certs.{Crypto}
use hypershift_lite.Client.{Client}
use hypershift_lite.Pki.{root_ca_secret}
use hypershift_lite.Etcd.Manifests as Etcd
use hypershift_lite.Kas.Manifests as Kas
use hypershift_lite.Kcm.Manifests as Kcm
use hypershift_lite.Release.Images.{ReleaseImage}
use hypershift_lite.Reconciler.Recorded.{recorded}
use hypershift_lite.Reconciler.Components.{reconcile_etcd, reconcile_kube_api_server}
use hypershift_lite.Reconciler.Components.{reconcile_kube_controller_manager}
use hypershift_lite.Reconciler.Phases.Keeps.{IsNamed}
use hypershift_lite.Reconciler.Plan.{Completes}
use hypershift_lite.Reconciler.Plan.{etcd_plan, kas_plan, kcm_plan}
use hypershift_lite.Reconciler.Plan.Rules.{Completes-pure}
use hypershift_lite.Reconciler.Plan.Objects.{
  fetch_then, require_then, write_then, ensure_then, write_fetched_then,
}

module _ (p : Platform) (c : Crypto) (k : Client c.Env) (named : IsNamed k)
    (ks : KubernetesService) where
  pub etcd-Completes :
      Completes k (etcd_plan ks.metadata.namespace) (reconcile_etcd p c (recorded k) ks)
  unfolding reconcile_etcd Etcd.client_secret Etcd.server_secret Etcd.peer_secret
      Etcd.operator_service_account Etcd.operator_role Etcd.operator_role_binding
      Etcd.operator_deployment Etcd.cluster root_ca_secret
  etcd-Completes =
      search
        (
          require_then k named,
          ensure_then k named,
          fetch_then k named,
          write_fetched_then k named,
          write_then k named,
          Completes-pure,
        )
        depth 60

  pub kas-Completes :
      (image : ReleaseImage)
      → Completes k
          (kas_plan ks.metadata.namespace)
          (reconcile_kube_api_server p c (recorded k) ks image)
  unfolding reconcile_kube_api_server Kas.service Kas.server_cert_secret Kas.aggregator_cert_secret
      Kas.service_account_signing_key_secret Kas.service_kubeconfig_secret
      Kas.localhost_kubeconfig_secret Kas.audit_config Kas.config Kas.oauth_metadata Kas.deployment
  kas-Completes image = search (require_then k named, ensure_then k named, Completes-pure) depth 60

  pub kcm-Completes :
      (image : ReleaseImage)
      → Completes k
          (kcm_plan ks.metadata.namespace)
          (reconcile_kube_controller_manager p c (recorded k) ks image)
  unfolding reconcile_kube_controller_manager Kcm.cluster_signer_secret Kcm.config Kcm.deployment
  kcm-Completes image = search (require_then k named, ensure_then k named, Completes-pure) depth 60
