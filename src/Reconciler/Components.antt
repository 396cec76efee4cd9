-- ===== src/Reconciler/Components.antt =====
-- `reconcileEtcd`, `reconcileKubeAPIServer` and `reconcileKubeControllerManager` of reconciler.go.
use hypershift_lite.Prelude.{ℕ, String, none, some}
use hypershift_lite.Prelude.Dict.{Dict, lookup}
use hypershift_lite.Prelude.Result.{Result, ok, err}
use hypershift_lite.Prelude.Action.{Action, pure, ◌>>=◌, ◌>>◌}
use hypershift_lite.Api.{Platform, KubernetesService, Deployment}
use hypershift_lite.Certs.{Crypto}
use hypershift_lite.Client.{Client, Kind}
use hypershift_lite.Pki.{root_ca_secret}
use hypershift_lite.Etcd.Manifests as Etcd
use hypershift_lite.Etcd.Secrets.{reconcile_client_secret, reconcile_server_secret}
use hypershift_lite.Etcd.Secrets.{reconcile_peer_secret}
use hypershift_lite.Etcd.Operator.{reconcile_operator_role, reconcile_operator_role_binding}
use hypershift_lite.Etcd.Operator.{reconcile_operator_deployment, reconcile_cluster}
use hypershift_lite.Kas.Manifests as Kas
use hypershift_lite.Kas.Manifests.{reconcile_service, reconcile_audit_config}
use hypershift_lite.Kas.Secrets.{reconcile_server_cert_secret, reconcile_aggregator_cert_secret}
use hypershift_lite.Kas.Secrets.{reconcile_service_account_signing_key_secret}
use hypershift_lite.Kas.Kubeconfig.{reconcile_service_kubeconfig_secret}
use hypershift_lite.Kas.Kubeconfig.{reconcile_localhost_kubeconfig_secret}
use hypershift_lite.Kas.Config as Kas_config
use hypershift_lite.Kas.Config.{reconcile_oauth_metadata}
use hypershift_lite.Kas.Deployment.{reconcile_kube_api_server_deployment}
use hypershift_lite.Kcm.Manifests as Kcm
use hypershift_lite.Kcm.Manifests.{reconcile_cluster_signer_secret}
use hypershift_lite.Kcm.Deployment.{reconcile_deployment}
use hypershift_lite.Release.Images.{ReleaseImage, component_images}
use hypershift_lite.Reconciler.OwnerRefs.{ensure_ks_owner_ref}
use hypershift_lite.Reconciler.World.{World, get_required, get_optional, apply}

abbrev pub default_service_cidr : String
default_service_cidr = "172.30.0.0/16"

abbrev pub default_pod_cidr : String
default_pod_cidr = "10.128.0.0/14"

abbrev etcd_operator_image : String
etcd_operator_image = "quay.io/coreos/etcd-operator:v0.9.4"

abbrev etcd_version : String
etcd_version = "3.4.9"

abbrev kube_api_server_port : ℕ
kube_api_server_port = 6443

abbrev kube_api_server_replicas : ℕ
kube_api_server_replicas = 1

abbrev kube_controller_manager_replicas : ℕ
kube_controller_manager_replicas = 1

abbrev pub etcd_cluster_replicas : ℕ
etcd_cluster_replicas = 1

-- `images[name]`: the empty string for a missing name.
unfoldable pub image_of : String → Dict String → String
unfolding lookup
image_of name images = elim (lookup name images) [ none ↦ "" | some image ↦ image ]

module _ (p : Platform) (c : Crypto) (k : Client c.Env) where
  -- The function that CreateOrUpdate runs for the API server's deployment.
  unfoldable pub kas_deployment : ReleaseImage → Deployment → Result Deployment
  unfolding component_images image_of reconcile_kube_api_server_deployment
  kas_deployment image_info deployment = elim (component_images image_info) [
    | err e ↦ err e
    | ok images ↦ ok (
        reconcile_kube_api_server_deployment p deployment
          (image_of "cluster-config-operator" images) (image_of "cli" images)
          (image_of "hyperkube" images) kube_api_server_port kube_api_server_replicas)
  ]

  -- The same, for the controller manager's.
  unfoldable pub kcm_deployment : ReleaseImage → Deployment → Result Deployment
  unfolding component_images image_of reconcile_deployment
  kcm_deployment image_info deployment = elim (component_images image_info) [
    | err e ↦ err e
    | ok images ↦ ok (
        reconcile_deployment p deployment default_pod_cidr default_service_cidr
          (image_of "hyperkube" images) kube_controller_manager_replicas)
  ]

  unfoldable pub reconcile_etcd : KubernetesService → Action (World k) (Unit {0})
  reconcile_etcd kube_svc = do
    let ns = kube_svc.metadata.namespace
    ca ← get_required k "cannot get root CA secret" Kind.secret (root_ca_secret ns)
    client_secret_found ←
        get_optional k "cannot get client secret" Kind.secret (Etcd.client_secret ns)
    apply k "failed to reconcile etcd client secret" Kind.secret client_secret_found
        (λ e o. reconcile_client_secret c e (ensure_ks_owner_ref p Kind.secret kube_svc o) ca)
    client_secret_again ← get_optional k "cannot get server secret" Kind.secret client_secret_found
    apply k "failed to reconcile etcd server secret" Kind.secret (Etcd.server_secret ns)
        (λ e o. reconcile_server_secret c e (ensure_ks_owner_ref p Kind.secret kube_svc o) ca)
    get_optional k "cannot get peer secret" Kind.secret client_secret_again
    apply k "failed to reconcile etcd peer secret" Kind.secret (Etcd.peer_secret ns)
        (λ e o. reconcile_peer_secret c e (ensure_ks_owner_ref p Kind.secret kube_svc o) ca)
    operator_service_account_found ←
        get_optional k "cannot get etcd operator service account" Kind.service_account
          (Etcd.operator_service_account ns)
    apply k "failed to reconcile etcd operator service account" Kind.service_account
        operator_service_account_found
        (λ _ o. ok (ensure_ks_owner_ref p Kind.service_account kube_svc o))
    operator_role_found ←
        get_optional k "cannot get etcd operator role" Kind.role (Etcd.operator_role ns)
    apply k "failed to reconcile etcd operator role" Kind.role operator_role_found
        (λ _ o. ok (reconcile_operator_role p (ensure_ks_owner_ref p Kind.role kube_svc o)))
    operator_role_binding_found ←
        get_optional k "cannot get etcd operator role binding" Kind.role_binding
          (Etcd.operator_role_binding ns)
    apply k "failed to reconcile etcd operator role binding" Kind.role_binding
        operator_role_binding_found
        (λ _ o.
          ok (
            reconcile_operator_role_binding p (ensure_ks_owner_ref p Kind.role_binding kube_svc o)))
    operator_deployment_found ←
        get_optional k "cannot get etcd operator deployment" Kind.deployment
          (Etcd.operator_deployment ns)
    apply k "failed to reconcile etcd operator deployment" Kind.deployment operator_deployment_found
        (λ _ o. ok (
          reconcile_operator_deployment etcd_operator_image
            (ensure_ks_owner_ref p Kind.deployment kube_svc o)))
    cluster_found ← get_optional k "cannot get etcd cluster" Kind.etcd_cluster (Etcd.cluster ns)
    apply k "failed to reconcile etcd cluster" Kind.etcd_cluster cluster_found (λ _ o. ok (
        reconcile_cluster etcd_cluster_replicas etcd_version
          (ensure_ks_owner_ref p Kind.etcd_cluster kube_svc o)))
    pure tt

  unfoldable pub reconcile_kube_api_server :
      KubernetesService → ReleaseImage → Action (World k) (Unit {0})
  reconcile_kube_api_server kube_svc image_info = do
    let ns = kube_svc.metadata.namespace
    ca ← get_required k "cannot get root CA secret" Kind.secret (root_ca_secret ns)
    svc ← get_optional k "cannot get api server service" Kind.service (Kas.service ns)
    apply k "failed to reconcile api server service" Kind.service svc (λ _ o. ok (
        reconcile_service (ensure_ks_owner_ref p Kind.service kube_svc o) kube_api_server_port
          kube_api_server_port))
    server_cert_secret_found ←
        get_optional k "cannot get api server cert secret" Kind.secret (Kas.server_cert_secret ns)
    apply k "failed to reconcile api server cert secret" Kind.secret server_cert_secret_found
        (λ e o.
          reconcile_server_cert_secret p c e (ensure_ks_owner_ref p Kind.secret kube_svc o) ca
            default_service_cidr)
    aggregator_cert_secret_found ←
        get_optional k "cannot get api server aggreator cert secret" Kind.secret
          (Kas.aggregator_cert_secret ns)
    apply k "failed to reconcile api server aggregator cert secret" Kind.secret
        aggregator_cert_secret_found
        (λ e o.
          reconcile_aggregator_cert_secret c e (ensure_ks_owner_ref p Kind.secret kube_svc o) ca)
    service_account_signing_key_secret_found ←
        get_optional k "cannot get api server service account key secret" Kind.secret
          (Kas.service_account_signing_key_secret ns)
    apply k "failed to reconcile api server service account key secret" Kind.secret
        service_account_signing_key_secret_found
        (λ e o.
          reconcile_service_account_signing_key_secret c e
            (ensure_ks_owner_ref p Kind.secret kube_svc o))
    service_kubeconfig_secret_found ←
        get_optional k "cannot get service admin kubeconfig secret" Kind.secret
          (Kas.service_kubeconfig_secret ns)
    apply k "failed to reconcile service admin kubeconfig secret" Kind.secret
        service_kubeconfig_secret_found
        (λ e o.
          reconcile_service_kubeconfig_secret p c e (ensure_ks_owner_ref p Kind.secret kube_svc o)
            ca kube_api_server_port)
    localhost_kubeconfig_secret_found ←
        get_optional k "cannot get service localhost kubeconfig secret" Kind.secret
          (Kas.localhost_kubeconfig_secret ns)
    apply k "failed to reconcile localhost kubeconfig secret" Kind.secret
        localhost_kubeconfig_secret_found
        (λ e o.
          reconcile_localhost_kubeconfig_secret p c e (ensure_ks_owner_ref p Kind.secret kube_svc o)
            ca kube_api_server_port)
    audit_config_found ←
        get_optional k "cannot get api server audit config" Kind.config_map (Kas.audit_config ns)
    apply k "failed to reconcile api server audit config" Kind.config_map audit_config_found
        (λ _ o. ok (reconcile_audit_config (ensure_ks_owner_ref p Kind.config_map kube_svc o)))
    cfg ← get_optional k "cannot get api server config" Kind.config_map (Kas.config ns)
    apply k "failed to reconcile api server config" Kind.config_map cfg (λ _ o.
        Kas_config.reconcile_config p (ensure_ks_owner_ref p Kind.config_map kube_svc o)
          default_service_cidr kube_api_server_port)
    oauth_metadata_found ←
        get_optional k "cannot get oauth metadata" Kind.config_map (Kas.oauth_metadata ns)
    apply k "failed to reconcile oauth metadata" Kind.config_map oauth_metadata_found
        (λ _ o. ok (reconcile_oauth_metadata (ensure_ks_owner_ref p Kind.config_map kube_svc o)))
    dep ← get_optional k "cannot get api server deployment" Kind.deployment (Kas.deployment ns)
    apply k "failed to reconcile api server service account key secret" Kind.deployment dep
        (λ _ o. kas_deployment image_info (ensure_ks_owner_ref p Kind.deployment kube_svc o))
    pure tt

  unfoldable pub reconcile_kube_controller_manager :
      KubernetesService → ReleaseImage → Action (World k) (Unit {0})
  reconcile_kube_controller_manager kube_svc image_info = do
    let ns = kube_svc.metadata.namespace
    ca ← get_required k "cannot get root CA secret" Kind.secret (root_ca_secret ns)
    cluster_signer_secret_found ←
        get_optional k "cannot get api server cert secret" Kind.secret
          (Kcm.cluster_signer_secret ns)
    apply k "failed to reconcile api server cert secret" Kind.secret cluster_signer_secret_found
        (λ e o.
          reconcile_cluster_signer_secret c e (ensure_ks_owner_ref p Kind.secret kube_svc o) ca)
    cfg ← get_optional k "cannot get controller manager config" Kind.config_map (Kcm.config ns)
    apply k "failed to reconcile controller manager config" Kind.config_map cfg
        (λ _ o. Kcm.reconcile_config p (ensure_ks_owner_ref p Kind.config_map kube_svc o))
    dep ←
        get_optional k "cannot get controller manager deployment" Kind.deployment
          (Kcm.deployment ns)
    apply k "failed to reconcile controller manager deployment" Kind.deployment dep
        (λ _ o. kcm_deployment image_info (ensure_ks_owner_ref p Kind.deployment kube_svc o))
    pure tt
