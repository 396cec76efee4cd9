-- ===== src/Tests/Fixtures.antt =====
-- A server on which every component is available, and libraries that do as little as they may.
use mathlib.Core.Path.{ap₂}
use hypershift_lite.Prelude.{map, ◌/◌, ◌*◌, ◌^◌, ◌∙◌, refl, ◌≡◌, ◌∷◌, ap}
use hypershift_lite.Api.{KubernetesServiceCondition}
use hypershift_lite.Prelude.{
  ℕ, suc, String, ◌<>◌, ◌≡◌, refl, sym, ap, ◌∙◌, List, [], ◌∷◌, none, some, true, ◌+◌,
}
use hypershift_lite.Prelude.Result.{Result, ok, err, message}
use hypershift_lite.Api.{Platform, Bytes, named, Secret, SecretType, ServiceType}
use hypershift_lite.Api.{Deployment, DeploymentSpec, EtcdCluster}
use hypershift_lite.Api.{ConditionStatus, KubernetesService, pod_spec, Pod, PodPhase}
use hypershift_lite.Api.{ImageStream}
use hypershift_lite.Certs.{Crypto, Certificate, rsa}
use hypershift_lite.Client.{Client, Kind, Object, Fetch, found}
use hypershift_lite.Reconciler.OwnerRefs.{metadata_of}
use hypershift_lite.Reconciler.Phases.Keeps.{IsNamed}
use hypershift_lite.Prelude.{if◌then◌else◌}
use hypershift_lite.Reconciler.Phases.Safety.{EchoesStatuses, statuses_of, typed_status}

abbrev pub one_tag : ImageStream
one_tag = record {
  name = 52 ∷ 46 ∷ 54 ∷ 46 ∷ 48 ∷ [];
  tags = record { name = "hyperkube"; from = some "quay.io/hyperkube"; annotations = [] } ∷ [];
}

abbrev pub platform : Platform
platform = record {
  path_join = λ a b. a <> "/" <> b;
  decimal = λ n. "6443";
  parse_cidr = λ s. ok (172 ∷ 30 ∷ 0 ∷ 0 ∷ []);
  parse_ip = λ s. 127 ∷ 0 ∷ 0 ∷ 1 ∷ [];
  parse_group = λ s. some s;
  marshal_api_server = λ c. ok "{}";
  marshal_controller_manager = λ c. ok "{}";
  write_kubeconfig = λ c. ok [];
  parse_image_stream = λ bytes. ok one_tag;
  parse_semver = λ t. err (message "no version");
  semver_string = λ v. [];
  kcp_group_version = "kubecontrolplane.config.openshift.io/v1";
  etcd_group = "etcd.database.coreos.com";
  core_group = "";
  apps_group = "apps";
  rbac_group = "rbac.authorization.k8s.io";
}

abbrev pub certificate : Bytes → Certificate
certificate raw = record {
  raw = raw;
  version = 3;
  dns_names = [];
  ip_addresses = [];
  key_usages = [];
  ext_key_usages = [];
  not_before = 0;
  not_after = 100;
  serial_number = 7;
  subject = record { common_name = "root-ca"; organization = []; organizational_unit = [] };
  is_ca = true;
  basic_constraints_valid = true;
  subject_key_id = [];
  public_key = rsa (record { n = 7; e = 3 });
}

abbrev parse_number : Bytes → Result ℕ
parse_number [] = err (message "no key")
parse_number (n ∷ _) = ok n

abbrev pub crypto : Crypto
crypto = record {
  Env = Unit {0};
  PrivateKey = ℕ;
  clock = λ e i. 0;
  generate_key = λ e bits. ok 7;
  random_int = λ e bound. ok 7;
  public = λ k. record { n = k; e = 3 };
  create_request = λ e r k. ok [];
  parse_request = λ bytes. ok (record {
    raw = bytes;
    subject = record { common_name = ""; organization = []; organizational_unit = [] };
    dns_names = [];
    ip_addresses = [];
  });
  create_certificate = λ e t parent key signer. ok (1 ∷ []);
  parse_certificate = λ bytes. ok (certificate bytes);
  marshal_asn1 = λ k. ok (k.n ∷ []);
  marshal_point = λ curve x y. x ∷ y ∷ [];
  sha1 = λ bytes. bytes;
  md5_hex = λ bytes. "00";
  marshal_private_key = λ k. k ∷ [];
  parse_private_key = parse_number;
  marshal_public_key = λ k. ok (k.n ∷ []);
  pem_encode = λ label bytes. bytes;
  pem_decode = λ bytes. some bytes;
  base64_encode = λ bytes. "AA==";
}

abbrev pub ca_secret : Secret
ca_secret = record {
  metadata = named "root-ca" "ns";
  type = SecretType.opaque;
  values = some (("ca.crt", 1 ∷ []) ∷ ("ca.key", 7 ∷ []) ∷ []);
}

abbrev pub empty_secret : Secret
empty_secret = record { metadata = named "a" "ns"; type = SecretType.unset; values = none }

abbrev blank_spec : DeploymentSpec
blank_spec = record {
  replicas = some 1;
  match_labels = none;
  rolling_update = none;
  template_labels = none;
  template = pod_spec;
}

abbrev pub deployment_named : String → String → Deployment
deployment_named ns name = record {
  metadata = named name ns;
  spec = blank_spec;
  status = record {
    conditions = record { type = "Available"; status = ConditionStatus.true_status } ∷ [];
    available_replicas = 1;
  };
}

-- An etcd cluster with the members that are ready and its condition.
abbrev pub cluster_named : String → String → List String → ConditionStatus → EtcdCluster
cluster_named ns name ready status = record {
  metadata = named name ns;
  spec = record { size = 3; version = "3.4.9"; tls = none };
  conditions = record { type = "Available"; status = status } ∷ [];
  ready = ready;
}

abbrev pub object_named : (kind : Kind) → String → String → Object kind
object_named Kind.secret ns name = record ca_secret { metadata = named name ns }
object_named Kind.config_map ns name = record { metadata = named name ns; values = none }
object_named Kind.service ns name = record {
  metadata = named name ns;
  spec = record { ports = []; selector = none; type = ServiceType.unset };
}
object_named Kind.service_account ns name = record { metadata = named name ns }
object_named Kind.role ns name = record { metadata = named name ns; rules = [] }
object_named Kind.role_binding ns name = record {
  metadata = named name ns;
  role_ref = record { api_group = ""; kind = ""; name = "" };
  subjects = [];
}
object_named Kind.deployment ns name = deployment_named ns name
object_named Kind.etcd_cluster ns name =
    cluster_named ns name ("etcd-0" ∷ []) ConditionStatus.true_status

abbrev pub kube_service : KubernetesService
kube_service = record {
  metadata = named "svc" "ns";
  spec = record { release_image = "quay.io/release"; pull_secret = "pull" };
  status = record { conditions = [] };
}

abbrev pub finished_pod : Pod
finished_pod = record {
  metadata = named "image-lookup-1" "ns";
  spec = pod_spec;
  phase = PodPhase.succeeded;
  terminated = true ∷ [];
}

abbrev written : {A : Type 0} → Result A → Result (Unit {0})
written (ok _) = ok tt
written (err e) = err e

-- A service as a server gives it back, with its times in whole seconds.
abbrev pub in_seconds : KubernetesService → KubernetesService
in_seconds ks = record ks {
  status = record {
    conditions =
        map
          (λ (c : KubernetesServiceCondition). record c {
            last_transition_time = c.last_transition_time / 10 ^ 9 * 10 ^ 9;
          })
          ks.status.conditions;
  };
}

-- The state counts the calls that write; `service` is the answer to the Get of a service.
abbrev pub client : Fetch KubernetesService → Client (Unit {0})
client service = record {
  State = ℕ;
  now = λ s. 10 + s;
  get = λ kind ns name s. (found (object_named kind ns name), s);
  get_kube_service = λ ns name s. (service, s);
  update_status = λ ks s. (ok (in_seconds ks), suc s);
  delete_cluster = λ cluster s. (ok tt, suc s);
  list_pods = λ label value s. (ok (finished_pod ∷ []), s);
  create_or_update = λ kind o f s. (
    written (f tt (object_named kind (metadata_of kind o).namespace (metadata_of kind o).name)),
    suc s,
  );
  new_kube_client = λ s. (ok tt, s);
  create_pod = λ ns pod s. (ok finished_pod, suc s);
  delete_pod = λ expired ns name s.
      (if expired then err (message "context deadline exceeded") else ok tt, suc s);
  get_pod = λ ns name s. (ok finished_pod, s);
  pod_logs = λ ns name s. (ok [], s);
}

object_named-namespace :
    (kind : Kind) (ns name : String) → (metadata_of kind (object_named kind ns name)).namespace ≡ ns
object_named-namespace Kind.secret ns name = refl
object_named-namespace Kind.config_map ns name = refl
object_named-namespace Kind.service ns name = refl
object_named-namespace Kind.service_account ns name = refl
object_named-namespace Kind.role ns name = refl
object_named-namespace Kind.role_binding ns name = refl
object_named-namespace Kind.deployment ns name = refl
object_named-namespace Kind.etcd_cluster ns name = refl

object_named-name :
    (kind : Kind) (ns name : String) → (metadata_of kind (object_named kind ns name)).name ≡ name
object_named-name Kind.secret ns name = refl
object_named-name Kind.config_map ns name = refl
object_named-name Kind.service ns name = refl
object_named-name Kind.service_account ns name = refl
object_named-name Kind.role ns name = refl
object_named-name Kind.role_binding ns name = refl
object_named-name Kind.deployment ns name = refl
object_named-name Kind.etcd_cluster ns name = refl

object_named-named :
    (kind : Kind) (ns name : String) (o : Object kind)
    → Path (Fetch (Object kind)) (found (object_named kind ns name)) (found o)
    → ((metadata_of kind o).namespace ≡ ns) × ((metadata_of kind o).name ≡ name)
object_named-named kind ns name o h =
    let e : object_named kind ns name ≡ o = cc in
    (
      sym (ap (λ x. (metadata_of kind x).namespace) e) ∙ object_named-namespace kind ns name,
      sym (ap (λ x. (metadata_of kind x).name) e) ∙ object_named-name kind ns name,
    )

pub client-IsNamed : IsNamed (client (found kube_service))
client-IsNamed = record { names = λ kind ns name s o h. object_named-named kind ns name o h }

statuses_of-map :
    (f : KubernetesServiceCondition → KubernetesServiceCondition)
    → ((c : KubernetesServiceCondition) → typed_status (f c) ≡ typed_status c)
    → (cs : List KubernetesServiceCondition) → map typed_status (map f cs) ≡ map typed_status cs
statuses_of-map f same [] = refl
statuses_of-map f same (c ∷ cs) = ap₂ ◌∷◌ (same c) (statuses_of-map f same cs)

statuses_of_ok :
    (ks ks' : KubernetesService)
    → Path (Result KubernetesService) (ok (in_seconds ks)) (ok ks')
    → statuses_of ks' ≡ statuses_of ks
statuses_of_ok ks ks' h =
    let e : ks' ≡ in_seconds ks = cc in
    ap statuses_of e ∙ statuses_of-map _ (λ c. refl) ks.status.conditions

pub client-EchoesStatuses : EchoesStatuses (client (found kube_service))
client-EchoesStatuses = record { echo = λ ks ks' s h. statuses_of_ok ks ks' h }
