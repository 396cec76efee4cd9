-- ===== src/Etcd/Status.antt =====
-- pkg/controllers/kubeservice/etcd/status.go: the condition that reports the etcd cluster.
pub mod Laws
use hypershift_lite.Prelude.{
  ℕ, String, ◌-◌, ◌*◌, ◌^◌, Bool, true, false, List, [], ◌∷◌, Option, none, some,
}
use hypershift_lite.Prelude.{◌==◌, ◌&&◌, ◌||◌, any, ltb, leb, length, nat_eq, if◌then◌else◌}
use hypershift_lite.Prelude.Result.{Error, Result, ok, err, message, wrap}
use hypershift_lite.Api.{KubernetesService, EtcdCluster, ClusterCondition, ConditionStatus, Pod}
use hypershift_lite.Api.{is_true, etcd_available}
use hypershift_lite.Prelude.Action.{Action}
use hypershift_lite.Client.{Client}
use hypershift_lite.Ks.{with_condition}

abbrev pub etcd_cluster_label : String
etcd_cluster_label = "etcd_cluster"

-- five minutes, in nanoseconds
abbrev pub etcd_cluster_bootstrap_timeout : ℕ
etcd_cluster_bootstrap_timeout = 5 * 60 * 10 ^ 9

unfoldable pub etcd_cluster_condition_by_type :
    List ClusterCondition → String → Option ClusterCondition
etcd_cluster_condition_by_type [] t = none
etcd_cluster_condition_by_type (cond ∷ rest) t =
    if cond.type == t then some cond else etcd_cluster_condition_by_type rest t

-- The first loop that meets a terminated container returns.
unfoldable pub has_terminated_container : List Pod → Bool
has_terminated_container pods = any (λ pod. any (λ terminated. terminated) pod.terminated) pods

-- What the `switch` of ReconcileEtcdClusterStatus finds. The third case asks for the pods.
pub data Verdict : Type 0 where
  running bootstrap_failed check_pods scaling_up : Verdict

abbrev pub is_available : Option ClusterCondition → Bool
is_available none = false
is_available (some condition) = is_true condition.status

-- `time.Since(created) > timeout`, where a creation after `now` gives a negative duration.
unfoldable pub verdict : ℕ → EtcdCluster → Verdict
unfolding etcd_cluster_condition_by_type
verdict now cluster =
    if is_available (etcd_cluster_condition_by_type cluster.conditions "Available")
    then running
    else if nat_eq (length cluster.ready) 0
        && ltb etcd_cluster_bootstrap_timeout (now - cluster.metadata.creation_timestamp)
    then bootstrap_failed
    else if ltb 1 cluster.spec.size && leb (length cluster.ready) 1
    then check_pods
    else scaling_up

module _ {Env : Type 0} (k : Client Env) where
  open k use {State}

  -- The list is restricted by the label alone, so it has the pods of every namespace.
  unfoldable pub etcd_cluster_has_terminated_pods : EtcdCluster → Action State Bool
  unfolding has_terminated_container
  etcd_cluster_has_terminated_pods cluster s =
      let (pods, s') = k.list_pods etcd_cluster_label cluster.metadata.name s in
      elim pods [
        | ok items ↦ (ok (has_terminated_container items), s')
        | err e ↦ (err (wrap "cannot list etcd cluster pods" e), s')
      ]

  -- The end of the routine: the status update, and the deletion of a failed cluster.
  unfoldable pub update_and_delete :
      Bool → EtcdCluster → KubernetesService → Action State KubernetesService
  update_and_delete should_delete cluster ks s =
      let (updated, s') = k.update_status ks s in
      elim updated [
        | err e ↦ (err e, s')
        | ok ks' ↦
            let (deleted, s'') = k.delete_cluster cluster s' in
            if should_delete
            then elim deleted [
              | err e ↦ (err e, s'')
              | ok _ ↦ (err (message "etcd cluster in error state, must recreate"), s'')
            ]
            else (ok ks', s')
      ]

  -- The routine for a cluster that exists, by the case of the `switch`.
  unfoldable pub report_cluster :
      Verdict → EtcdCluster → KubernetesService → Action State KubernetesService
  unfolding with_condition update_and_delete etcd_cluster_has_terminated_pods
  report_cluster running cluster ks s =
      update_and_delete false cluster
        (with_condition (k.now s) etcd_available ConditionStatus.true_status "EtcdRunning"
          "Etcd cluster is running and available" ks)
        s
  report_cluster bootstrap_failed cluster ks s =
      update_and_delete true cluster
        (with_condition (k.now s) etcd_available ConditionStatus.false_status "EtcdFailed"
          "Etcd cluster failed to bootstrap within timeout, recreating" ks)
        s
  report_cluster check_pods cluster ks s =
      let (terminated, s') = etcd_cluster_has_terminated_pods cluster s in
      elim terminated [
        | err e ↦ (err e, s')
        | ok true ↦
            update_and_delete true cluster
              (with_condition (k.now s') etcd_available ConditionStatus.false_status "EtcdFailed"
                "Etcd has failed to achieve quorum after bootstrap, recreating" ks)
              s'
        | ok false ↦
            update_and_delete false cluster
              (with_condition (k.now s') etcd_available ConditionStatus.false_status "ScalingUp"
                "Etcd cluster is scaling up" ks)
              s'
      ]
  report_cluster scaling_up cluster ks s =
      update_and_delete false cluster
        (with_condition (k.now s) etcd_available ConditionStatus.false_status "ScalingUp"
          "Etcd cluster is scaling up" ks)
        s

  unfoldable pub reconcile_etcd_cluster_status :
      KubernetesService → Option EtcdCluster → Action State KubernetesService
  unfolding verdict report_cluster
  reconcile_etcd_cluster_status ks none s = (ok ks, s)
  reconcile_etcd_cluster_status ks (some cluster) s =
      report_cluster (verdict (k.now s) cluster) cluster ks s
