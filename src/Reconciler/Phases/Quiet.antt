-- ===== src/Reconciler/Phases/Quiet.antt =====
-- The calls of the status routines and of the lookup of a release image write no component.
use hypershift_lite.Prelude.{
  ℕ, zero, suc, String, Bool, true, false, Option, none, some, inl, inr, Option-cases, ◌∷◌,
}
use hypershift_lite.Prelude.Result.{Result-cases}
use hypershift_lite.Api.{Platform, KubernetesService, EtcdCluster, Deployment}
use hypershift_lite.Client.{Client}
use hypershift_lite.Etcd.Status.{
  etcd_cluster_label, update_and_delete, etcd_cluster_has_terminated_pods, report_cluster,
}
use hypershift_lite.Etcd.Status.{Verdict, running, bootstrap_failed, check_pods, scaling_up}
use hypershift_lite.Etcd.Status.{reconcile_etcd_cluster_status}
use hypershift_lite.Kas.Status as Kas
use hypershift_lite.Kas.Status.{reconcile_kube_api_server_deployment_status}
use hypershift_lite.Kcm.Status.{reconcile_kube_controller_manager_deployment_status}
use hypershift_lite.Release.Provider.{poll_until, read_image_stream, await_image_stream, lookup}
use hypershift_lite.Release.Provider.{poll_answer, lookup_pod, Waited, waited_result}
use hypershift_lite.Reconciler.Recorded.{Event, Record, recorded, applied}
use hypershift_lite.Reconciler.Recorded.{made_client, created_pod, deleted_pod, got_pod, read_logs}

-- An event that writes no component.
abbrev pub IsQuiet : Event → Type 0
IsQuiet (applied _ _ _) = ⊥
IsQuiet _ = Unit {0}

-- The calls of a run from one record to another were all quiet.
pub data Quietly (from : Record) : Record → Type 0 where
  same : Quietly from from
  one : {r : Record} (e : Event) → IsQuiet e → Quietly from r → Quietly from (e ∷ r)

module _ {Env : Type 0} (k : Client Env) where
  update_and_delete-Quietly :
      (b : Bool) (cluster : EtcdCluster) (ks : KubernetesService) (s : k.State × Record)
      → Quietly s.1 (update_and_delete (recorded k) b cluster ks s).1.1
  unfolding update_and_delete
  update_and_delete-Quietly true cluster ks s = elim (Result-cases (k.update_status ks s.0).0) [
    | inl (ks', e) ↦ elim (Result-cases (k.delete_cluster cluster (k.update_status ks s.0).1).0) [
      | inl (_, e') ↦ rw (e, e', update_and_delete) (search (one, same))
      | inr (_, e') ↦ rw (e, e', update_and_delete) (search (one, same))
    ]
    | inr (_, e) ↦ rw (e, update_and_delete) (search (one, same))
  ]
  update_and_delete-Quietly false cluster ks s = elim (Result-cases (k.update_status ks s.0).0) [
    | inl (ks', e) ↦ rw (e, update_and_delete) (search (one, same))
    | inr (_, e) ↦ rw (e, update_and_delete) (search (one, same))
  ]

  terminated_pods-Quietly :
      (cluster : EtcdCluster) (s : k.State × Record)
      → Quietly s.1 (etcd_cluster_has_terminated_pods (recorded k) cluster s).1.1
  unfolding etcd_cluster_has_terminated_pods
  terminated_pods-Quietly cluster s =
      elim (Result-cases (k.list_pods etcd_cluster_label cluster.metadata.name s.0).0) [
        | inl (_, e) ↦ rw (e, etcd_cluster_has_terminated_pods) (search (one, same))
        | inr (_, e) ↦ rw (e, etcd_cluster_has_terminated_pods) (search (one, same))
      ]

pub Quietly-trans : {q r s : Record} → Quietly q r → Quietly r s → Quietly q s
Quietly-trans h same = h
Quietly-trans h (one e quiet rest) = one e quiet (Quietly-trans h rest)

module _ {Env : Type 0} (k : Client Env) where
  report_cluster-Quietly :
      (v : Verdict) (cluster : EtcdCluster) (ks : KubernetesService) (s : k.State × Record)
      → Quietly s.1 (report_cluster (recorded k) v cluster ks s).1.1
  unfolding report_cluster
  report_cluster-Quietly running cluster ks s = update_and_delete-Quietly k false cluster _ s
  report_cluster-Quietly bootstrap_failed cluster ks s =
      update_and_delete-Quietly k true cluster _ s
  report_cluster-Quietly check_pods cluster ks s =
      elim (Result-cases (etcd_cluster_has_terminated_pods (recorded k) cluster s).0) [
        | inl (true, e) ↦
            rw (e, report_cluster)
              (Quietly-trans (terminated_pods-Quietly k cluster s)
                (update_and_delete-Quietly k true cluster _ _))
        | inl (false, e) ↦
            rw (e, report_cluster)
              (Quietly-trans (terminated_pods-Quietly k cluster s)
                (update_and_delete-Quietly k false cluster _ _))
        | inr (_, e) ↦ rw (e, report_cluster) (terminated_pods-Quietly k cluster s)
      ]
  report_cluster-Quietly scaling_up cluster ks s = update_and_delete-Quietly k false cluster _ s

  pub etcd_status-Quietly :
      (ks : KubernetesService) (cluster : Option EtcdCluster) (s : k.State × Record)
      → Quietly s.1 (reconcile_etcd_cluster_status (recorded k) ks cluster s).1.1
  unfolding reconcile_etcd_cluster_status
  etcd_status-Quietly ks none s = same
  etcd_status-Quietly ks (some cluster) s = report_cluster-Quietly _ cluster ks s

  pub kas_status-Quietly :
      (ks : KubernetesService) (deployment : Option Deployment) (s : k.State × Record)
      → Quietly s.1 (reconcile_kube_api_server_deployment_status (recorded k) ks deployment s).1.1
  unfolding reconcile_kube_api_server_deployment_status
  kas_status-Quietly ks none s = same
  kas_status-Quietly ks (some deployment) s =
      elim (Result-cases (k.update_status (Kas.report (k.now s.0) deployment ks) s.0).0) [
        | inl (_, e) ↦ rw (e, reconcile_kube_api_server_deployment_status) (search (one, same))
        | inr (_, e) ↦ rw (e, reconcile_kube_api_server_deployment_status) (search (one, same))
      ]

  pub kcm_status-Quietly :
      (ks : KubernetesService) (deployment : Option Deployment) (s : k.State × Record)
      → Quietly s.1
          (reconcile_kube_controller_manager_deployment_status (recorded k) ks deployment s).1.1
  unfolding reconcile_kube_controller_manager_deployment_status
  kcm_status-Quietly ks none s = same
  kcm_status-Quietly ks (some deployment) s = search (one, same)

-- A lookup makes no write and no status update.
abbrev pub IsLookup : Event → Type 0
IsLookup made_client = Unit {0}
IsLookup (created_pod _) = Unit {0}
IsLookup (deleted_pod _ _) = Unit {0}
IsLookup (got_pod _ _) = Unit {0}
IsLookup (read_logs _ _) = Unit {0}
IsLookup _ = ⊥

pub data Looked (from : Record) : Record → Type 0 where
  begun : Looked from from
  after : {r : Record} (e : Event) → IsLookup e → Looked from r → Looked from (e ∷ r)

pub Looked-trans : {q r s : Record} → Looked q r → Looked r s → Looked q s
Looked-trans h begun = h
Looked-trans h (after e quiet rest) = after e quiet (Looked-trans h rest)

module _ {Env : Type 0} (k : Client Env) where
  poll_until-Looked :
      (polls : ℕ) (ns name : String) (s : k.State × Record)
      → Looked s.1 (poll_until (recorded k) polls ns name s).1.1
  unfolding poll_until
  poll_until-Looked zero ns name s =
      elim (Option-cases (poll_answer ((recorded k).get_pod ns name s).0)) [
        | inl e ↦ rw (e, poll_until) (search (after, begun))
        | inr (_, e) ↦ rw (e, poll_until) (search (after, begun))
      ]
  poll_until-Looked (suc polls) ns name s =
      let again = poll_until-Looked polls ns name ((recorded k).get_pod ns name s).1 in
      elim (Option-cases (poll_answer ((recorded k).get_pod ns name s).0)) [
        | inl e ↦ rw (e, poll_until) (Looked-trans (search (after, begun)) again)
        | inr (_, e) ↦ rw (e, poll_until) (search (after, begun))
      ]

  module _ (p : Platform) where
    read-Looked :
        (ns name : String) (s : k.State × Record)
        → Looked s.1 (read_image_stream (recorded k) p ns name s).1.1
    unfolding read_image_stream
    read-Looked ns name s = elim (Result-cases (k.pod_logs ns name s.0).0) [
      | inl (bytes, e) ↦ elim (Result-cases (p.parse_image_stream bytes)) [
        | inl (_, e') ↦ rw (e, e', read_image_stream) (search (after, begun))
        | inr (_, e') ↦ rw (e, e', read_image_stream) (search (after, begun))
      ]
      | inr (_, e) ↦ rw (e, read_image_stream) (search (after, begun))
    ]

    await-Looked :
        (waited : Waited) (ns name : String) (s : k.State × Record)
        → Looked s.1 (await_image_stream (recorded k) p waited ns name s).1.1
    unfolding await_image_stream
    await-Looked waited ns name s = elim (Result-cases (waited_result waited)) [
      | inl (_, e) ↦ rw (e, await_image_stream) (read-Looked ns name s)
      | inr (_, e) ↦ rw (e, await_image_stream) begun
    ]

    pub lookup-Looked :
        (polls : ℕ) (ns image pull_secret : String) (s : k.State × Record)
        → Looked s.1 (lookup (recorded k) p polls ns image pull_secret s).1.1
    unfolding lookup
    lookup-Looked polls ns image pull_secret s =
        elim (Result-cases ((recorded k).create_pod ns (lookup_pod image pull_secret) s).0) [
          | inl (pod, e) ↦
              let name = pod.metadata.name in
              let s₁ = ((recorded k).create_pod ns (lookup_pod image pull_secret) s).1 in
              let (waited, s₂) = poll_until (recorded k) polls ns name s₁ in
              let made : Looked s.1 s₁.1 = after (created_pod ns) tt begun in
              rw (e, lookup)
                (after (deleted_pod ns name) tt (
                  Looked-trans (Looked-trans made (poll_until-Looked polls ns name s₁))
                    (await-Looked waited ns name s₂)))
          | inr (_, e) ↦ rw (e, lookup) (search (after, begun))
        ]
