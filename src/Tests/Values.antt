-- ===== src/Tests/Values.antt =====
-- The theorems on conditions, addresses, references, pods and labels at concrete arguments.
use hypershift_lite.Release.Images.Laws.{last_override}
use hypershift_lite.Prelude.{
  ◌≡◌, refl, [], ◌∷◌, none, some, true, false, ◌+◌, ◌%◌, ◌^◌, length, get_elem?, arith,
}
use hypershift_lite.Prelude.Result.{ok, ◌>>=◌}
use hypershift_lite.Api.{ConditionStatus, OwnerReference, KubernetesServiceCondition}
use hypershift_lite.Tests.Fixtures.{platform, deployment_named, one_tag}
use hypershift_lite.Prelude.Dict.{lookup}
use hypershift_lite.Ks.{get_condition_by_type, set_condition_by_type}
use hypershift_lite.Kas.Ips.{next_ip}
use hypershift_lite.Tests.Fixtures.{kube_service}
use hypershift_lite.Kas.Status as Kas
use hypershift_lite.Kas.Status.{deployment_is_available}
use hypershift_lite.Kcm.Status as Kcm
use hypershift_lite.Reconciler.Phases.{condition_is_true}
use hypershift_lite.Reconciler.Phases.Reports.{report-condition, IsUp}
use hypershift_lite.Kcm.Deployment.{reconcile_deployment}
use hypershift_lite.Prelude.{String}
use hypershift_lite.Prelude.Dict.{Dict}
use hypershift_lite.Release.Images.{component_images, decorate}
use hypershift_lite.Release.Images.Laws.{
  last_image, or_else, component_images-last, component_images-decorate,
}
use hypershift_lite.Release.Labels.{allowed_version_key}
use hypershift_lite.Release.Labels.{allowed_version_key}
use hypershift_lite.Api.{Text}
use hypershift_lite.Reconciler.OwnerRefs.{ensure_owner_ref}
use hypershift_lite.Ks.Laws.{NodupTypes, get-set, set-NodupTypes, set-set}
use hypershift_lite.Kas.Ips.Laws.{next_ip-successor, AreBytes, value}
use hypershift_lite.Reconciler.OwnerRefs.Laws.{put, ensure_owner_ref-put, ensure_owner_ref-twice}
use hypershift_lite.Reconciler.Mounts.{flags, controller_manager-cidrs}

abbrev failing : KubernetesServiceCondition
failing = record {
  type = "EtcdAvailable";
  status = ConditionStatus.false_status;
  last_transition_time = 3;
  reason = "";
  message = "";
}

get-set_example :
    get_condition_by_type
      (set_condition_by_type 5 "EtcdAvailable" ConditionStatus.true_status "Up" "up" (failing ∷ []))
      "EtcdAvailable"
    ≡ some (record failing {
      status = ConditionStatus.true_status;
      last_transition_time = 5;
      reason = "Up";
      message = "up";
    })
unfolding get_condition_by_type
get-set_example =
    get-set 5 "EtcdAvailable" ConditionStatus.true_status "Up" "up" (failing ∷ []) "EtcdAvailable"

set-NodupTypes_example :
    NodupTypes
      (set_condition_by_type 5 "EtcdAvailable" ConditionStatus.true_status "Up" "up" (failing ∷ []))
unfolding get_condition_by_type
set-NodupTypes_example =
    set-NodupTypes 5 "EtcdAvailable" ConditionStatus.true_status "Up" "up" (failing ∷ []) (refl, tt)

set-set_example :
    set_condition_by_type 9 "EtcdAvailable" ConditionStatus.true_status "Up" "up"
      (set_condition_by_type 5 "EtcdAvailable" ConditionStatus.true_status "Up" "up" (failing ∷ []))
    ≡ set_condition_by_type 5 "EtcdAvailable" ConditionStatus.true_status "Up" "up" (failing ∷ [])
set-set_example = set-set 5 9 "EtcdAvailable" ConditionStatus.true_status "Up" "up" (failing ∷ [])

next_ip-successor_example :
    (AreBytes (next_ip (10 ∷ 0 ∷ 255 ∷ 255 ∷ [])))
    × (length (next_ip (10 ∷ 0 ∷ 255 ∷ 255 ∷ [])) ≡ 4)
    × (value (next_ip (10 ∷ 0 ∷ 255 ∷ 255 ∷ [])) ≡ (value (10 ∷ 0 ∷ 255 ∷ 255 ∷ []) + 1) % 256 ^ 4)
next_ip-successor_example =
    next_ip-successor (10 ∷ 0 ∷ 255 ∷ 255 ∷ [])
      (omega arith, (omega arith, (omega arith, (omega arith, tt))))

abbrev old_owner : OwnerReference
old_owner = record {
  api_version = "v1";
  kind = "KubernetesService";
  name = "svc";
  uid = "1";
  block_owner_deletion = none;
}

abbrev new_owner : OwnerReference
new_owner = record old_owner { uid = "2" }

ensure_owner_ref-put_example :
    ensure_owner_ref platform (old_owner ∷ []) new_owner ≡ put platform new_owner (old_owner ∷ [])
ensure_owner_ref-put_example = ensure_owner_ref-put platform (old_owner ∷ []) new_owner

ensure_owner_ref-twice_example :
    ensure_owner_ref platform (ensure_owner_ref platform (old_owner ∷ []) new_owner) new_owner
    ≡ ensure_owner_ref platform (old_owner ∷ []) new_owner
ensure_owner_ref-twice_example =
    ensure_owner_ref-twice platform (old_owner ∷ []) new_owner "v1" refl

controller_manager-cidrs_example :
    let args =
      flags
        (reconcile_deployment platform
          (deployment_named "ns" "kube-controller-manager")
          "10.128.0.0/14"
          "172.30.0.0/16"
          "c"
          1).spec.template in
    (get_elem? args 6 ≡ some "--cluster-cidr=172.30.0.0/16")
    × (get_elem? args 24 ≡ some "--service-cluster-ip-range=10.128.0.0/14")
controller_manager-cidrs_example =
    controller_manager-cidrs platform (deployment_named "ns" "kube-controller-manager")
      "10.128.0.0/14" "172.30.0.0/16" "c" 1

-- "ab-c"
abbrev a_key : Text
a_key = b'a' ∷ b'b' ∷ b'-' ∷ b'c' ∷ []

a_key-allowed : allowed_version_key a_key ≡ true
unfolding allowed_version_key
a_key-allowed = refl

hyphen_last : allowed_version_key (b'a' ∷ b'-' ∷ []) ≡ false
unfolding allowed_version_key
hyphen_last = refl

component_images-last_example :
    (images : Dict String) × (component_images one_tag ≡ ok images)
    × ((name : String) → lookup name images ≡ last_image name one_tag.tags)
component_images-last_example = component_images-last one_tag refl

component_images-decorate_example :
    (images : Dict String) × ((decorate (some (("hyperkube", "other") ∷ [])) (ok one_tag)
        >>= component_images)
      ≡ ok images)
    × ((name : String)
        → lookup name images
          ≡ or_else
              (last_override name (("hyperkube", "other") ∷ []))
              (last_image name one_tag.tags))
component_images-decorate_example =
    component_images-decorate one_tag (("hyperkube", "other") ∷ []) refl

report-condition_example :
    let d = deployment_named "ns" "kube-apiserver" in
    let kas = condition_is_true (Kas.report 5 d kube_service) "KubeAPIServerAvailable" in
    let kcm = condition_is_true (Kcm.report 5 d kube_service) "KubeControllerManagerAvailable" in
    ((kas ≡ true → IsUp d) × (IsUp d → kas ≡ true))
    × ((kcm ≡ true → IsUp d) × (IsUp d → kcm ≡ true))
report-condition_example = report-condition 5 (deployment_named "ns" "kube-apiserver") kube_service
