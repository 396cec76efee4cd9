-- ===== src/Etcd/Status/Laws.antt =====
-- When the etcd cluster is deleted, and what the routine then returns.
use hypershift_lite.Prelude.{
  ℕ, String, ◌≡◌, refl, not, ◌&&◌, ◌||◌, ltb, leb, nat_eq, length, if◌then◌else◌, ◌-◌, ap, ◌⊎◌,
  Bool, true, false, List, [], ◌∷◌, some, inl, inr, Bool-cases,
}
use hypershift_lite.Prelude.Result.{Result, ok, err, Result-cases}
use hypershift_lite.Api.{KubernetesService, EtcdCluster, Pod}
use hypershift_lite.Client.{Client}
use hypershift_lite.Etcd.Status.{
  reconcile_etcd_cluster_status, report_cluster, update_and_delete, Verdict, running,
  bootstrap_failed, check_pods, scaling_up, verdict, is_available, etcd_cluster_condition_by_type,
  etcd_cluster_bootstrap_timeout, has_terminated_container, etcd_cluster_has_terminated_pods,
}
use hypershift_lite.Reconciler.Recorded.{Record, recorded, deleted_cluster}

-- The clusters that the calls of a record deleted.
abbrev pub deletions : Record → List (String × String)
deletions [] = []
deletions (deleted_cluster ns name ∷ rest) = (ns, name) ∷ deletions rest
deletions (_ ∷ rest) = deletions rest

-- Whether the pods of a listing make a cluster of a verdict one to recreate.
abbrev must_recreate : Verdict → Result (List Pod) → Bool
must_recreate running _ = false
must_recreate bootstrap_failed _ = true
must_recreate scaling_up _ = false
must_recreate check_pods (ok pods) = has_terminated_container pods
must_recreate check_pods (err _) = false

-- What a run of the routine has done with the cluster: it is left alone if it is not to be
-- recreated; otherwise an error comes back, and the cluster was deleted, unless that error is the
-- one with which the status update failed.
abbrev pub Settles :
    {Env : Type 0} → Client Env → Bool → EtcdCluster → Result KubernetesService → Record → Type 0
Settles k false cluster answer r = deletions r ≡ []
Settles k true cluster (ok _) r = ⊥
Settles k true cluster (err e) r =
    (deletions r ≡ (cluster.metadata.namespace, cluster.metadata.name) ∷ [])
    ⊎ ((deletions r ≡ [])
        × ((ks : KubernetesService) × (s : k.State) × ((k.update_status ks s).0 ≡ err e)))

abbrev any_terminated : Result (List Pod) → Bool
any_terminated (ok pods) = has_terminated_container pods
any_terminated (err _) = false

-- Whether a cluster is to be recreated: it does not say that it is available, and either no member
-- was ready within the timeout, or more than one is wanted, at most one is ready and a pod of the
-- listing has a terminated container.
abbrev pub needs_recreation : ℕ → EtcdCluster → Result (List Pod) → Bool
needs_recreation now cluster listing =
    not (is_available (etcd_cluster_condition_by_type cluster.conditions "Available"))
    && ((nat_eq (length cluster.ready) 0
          && ltb etcd_cluster_bootstrap_timeout (now - cluster.metadata.creation_timestamp))
        || ((ltb 1 cluster.spec.size && leb (length cluster.ready) 1) && any_terminated listing))

must_recreate_choice :
    (available failed starting : Bool) (listing : Result (List Pod))
    → must_recreate
        (if available
          then running
          else if failed
          then bootstrap_failed
          else if starting
          then check_pods
          else scaling_up)
        listing
      ≡ (not available && (failed || (starting && any_terminated listing)))
must_recreate_choice true _ _ listing = refl
must_recreate_choice false true _ listing = refl
must_recreate_choice false false true (ok pods) = refl
must_recreate_choice false false true (err _) = refl
must_recreate_choice false false false listing = refl

must_recreate-verdict :
    (now : ℕ) (cluster : EtcdCluster) (listing : Result (List Pod))
    → must_recreate (verdict now cluster) listing ≡ needs_recreation now cluster listing
unfolding verdict
must_recreate-verdict now cluster listing = must_recreate_choice _ _ _ listing

module _ {Env : Type 0} (k : Client Env) where
  update_and_delete-Settles :
      (should : Bool) (cluster : EtcdCluster) (ks : KubernetesService) (s : k.State × Record)
      → deletions s.1 ≡ []
      → let out = update_and_delete (recorded k) should cluster ks s in
        Settles k should cluster out.0 out.1.1
  unfolding update_and_delete
  update_and_delete-Settles true cluster ks s h = elim (Result-cases (k.update_status ks s.0).0) [
    | inl (ks', e) ↦ elim (Result-cases (k.delete_cluster cluster (k.update_status ks s.0).1).0) [
      | inl (_, e') ↦
          rw (update_and_delete, e, e')
            (inl (ap (λ t. (cluster.metadata.namespace, cluster.metadata.name) ∷ t) h))
      | inr (_, e') ↦
          rw (update_and_delete, e, e')
            (inl (ap (λ t. (cluster.metadata.namespace, cluster.metadata.name) ∷ t) h))
    ]
    | inr (_, e) ↦ rw (update_and_delete, e) (inr (h, (ks, s.0, e)))
  ]
  update_and_delete-Settles false cluster ks s h = elim (Result-cases (k.update_status ks s.0).0) [
    | inl (ks', e) ↦ rw (update_and_delete, e) h
    | inr (_, e) ↦ rw (update_and_delete, e) h
  ]

  pods_deletions :
      (cluster : EtcdCluster) (s : k.State)
      → deletions (etcd_cluster_has_terminated_pods (recorded k) cluster (s, [])).1.1 ≡ []
  unfolding etcd_cluster_has_terminated_pods
  pods_deletions cluster s =
      elim (Result-cases (k.list_pods "etcd_cluster" cluster.metadata.name s).0) [
        | inl (_, e) ↦ rw (etcd_cluster_has_terminated_pods, e) refl
        | inr (_, e) ↦ rw (etcd_cluster_has_terminated_pods, e) refl
      ]

  report_cluster-Settles :
      (v : Verdict) (cluster : EtcdCluster) (ks : KubernetesService) (s : k.State)
      → let out = report_cluster (recorded k) v cluster ks (s, []) in
        Settles k
          (must_recreate v (k.list_pods "etcd_cluster" cluster.metadata.name s).0)
          cluster
          out.0
          out.1.1
  unfolding report_cluster
  report_cluster-Settles running cluster ks s =
      update_and_delete-Settles false cluster _ (s, []) refl
  report_cluster-Settles bootstrap_failed cluster ks s =
      update_and_delete-Settles true cluster _ (s, []) refl
  report_cluster-Settles scaling_up cluster ks s =
      update_and_delete-Settles false cluster _ (s, []) refl
  report_cluster-Settles check_pods cluster ks s =
      elim (Result-cases (k.list_pods "etcd_cluster" cluster.metadata.name s).0) [
        | inr (_, e) ↦
            rw (report_cluster, etcd_cluster_has_terminated_pods, e) (pods_deletions cluster s)
        | inl (pods, e) ↦ elim (Bool-cases (has_terminated_container pods)) [
          | inl failed ↦
              rw (report_cluster, etcd_cluster_has_terminated_pods, e, failed)
                (update_and_delete-Settles true cluster _
                  (etcd_cluster_has_terminated_pods (recorded k) cluster (s, [])).1
                  (pods_deletions cluster s))
          | inr none_failed ↦
              rw (report_cluster, etcd_cluster_has_terminated_pods, e, none_failed)
                (update_and_delete-Settles false cluster _
                  (etcd_cluster_has_terminated_pods (recorded k) cluster (s, [])).1
                  (pods_deletions cluster s))
        ]
      ]

  -- The routine that reports the etcd cluster deletes it exactly if its condition does not say that it
  -- is available and either no member was ready within the timeout, or more than one is wanted, at
  -- most one is ready and a listed pod has a terminated container. It then returns an error, and it
  -- skips the deletion only if the status update fails.
  pub reconcile_etcd_cluster_status-Settles :
      (ks : KubernetesService) (cluster : EtcdCluster) (s : k.State)
      → let out = reconcile_etcd_cluster_status (recorded k) ks (some cluster) (s, []) in
        Settles k
          (needs_recreation
            (k.now s)
            cluster
            (k.list_pods "etcd_cluster" cluster.metadata.name s).0)
          cluster
          out.0
          out.1.1
  unfolding reconcile_etcd_cluster_status
  reconcile_etcd_cluster_status-Settles ks cluster s =
      rw (← must_recreate-verdict) (report_cluster-Settles (verdict (k.now s) cluster) cluster ks s)
