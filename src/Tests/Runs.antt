-- ===== src/Tests/Runs.antt =====
-- Whole runs of Reconcile, and the theorems on them at concrete arguments.
use hypershift_lite.Prelude.{◌≡◌, [], ◌&&◌}
use hypershift_lite.Prelude.{String}
use hypershift_lite.Reconciler.Components.{
  reconcile_etcd, reconcile_kube_api_server, reconcile_kube_controller_manager,
}
use hypershift_lite.Reconciler.Plan.{plan, writes, Begun, Completes, etcd_plan, kas_plan, kcm_plan}
use hypershift_lite.Reconciler.Plan.Reconciled.{reconcile-plan, components-Completes}
use hypershift_lite.Client.{Client, found}
use hypershift_lite.Tests.Fixtures.{
  platform, crypto, client, one_tag, client-IsNamed, client-EchoesStatuses, kube_service,
}
use hypershift_lite.Reconciler.Recorded.{recorded}
use hypershift_lite.Reconciler.World.{World}
use hypershift_lite.Reconciler.Phases.{reconcile, report_available, condition_is_true}
use hypershift_lite.Reconciler.Phases.Order.{InOrder}
use hypershift_lite.Reconciler.Phases.Safety.{reconcile-InOrder}
use hypershift_lite.Reconciler.Phases.Availability.{report_available-condition}

abbrev live : Client (Unit {0})
live = client (found kube_service)

abbrev live_world : World (recorded live)
live_world = record { api = (0, []); release_info_cache = [] }

reconcile-InOrder_example :
    InOrder (reconcile platform crypto (recorded live) 5 "ns" "svc" live_world).1.api.1
reconcile-InOrder_example =
    reconcile-InOrder platform crypto live client-IsNamed client-EchoesStatuses 5 "ns" "svc"
      live_world tt

report_available-condition_example :
    condition_is_true (report_available 5 kube_service) "Available" ≡ (
      condition_is_true kube_service "EtcdAvailable"
      && (condition_is_true kube_service "KubeAPIServerAvailable"
          && condition_is_true kube_service "KubeControllerManagerAvailable"))
report_available-condition_example = report_available-condition 5 kube_service

reconcile-plan_example :
    (namespace : String) × Begun
      (plan namespace)
      []
      (writes (reconcile platform crypto (recorded live) 5 "ns" "svc" live_world).1.api.1)
reconcile-plan_example = reconcile-plan platform crypto live client-IsNamed 5 "ns" "svc" live_world

components-Completes_example :
    Completes live
      (etcd_plan kube_service.metadata.namespace)
      (reconcile_etcd platform crypto (recorded live) kube_service)
    × Completes live
        (kas_plan kube_service.metadata.namespace)
        (reconcile_kube_api_server platform crypto (recorded live) kube_service one_tag)
    × Completes live
        (kcm_plan kube_service.metadata.namespace)
        (reconcile_kube_controller_manager platform crypto (recorded live) kube_service one_tag)
components-Completes_example =
    components-Completes platform crypto live client-IsNamed kube_service one_tag
