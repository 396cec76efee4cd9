-- ===== src/Tests/Server.antt =====
-- The theorems on the etcd cluster's status and the release image's look-up at concrete arguments.
use hypershift_lite.Prelude.{◌≡◌, refl, [], ◌∷◌, some, true}
use hypershift_lite.Prelude.Result.{ok, err, message, wrap}
use hypershift_lite.Api.{ConditionStatus}
use hypershift_lite.Client.{Client, found}
use hypershift_lite.Tests.Fixtures.{
  platform, client, kube_service, cluster_named, one_tag, finished_pod,
}
use hypershift_lite.Reconciler.Recorded.{recorded, deleted_pod}
use hypershift_lite.Prelude.Dict.{lookup}
use hypershift_lite.Etcd.Status.{
  reconcile_etcd_cluster_status, etcd_cluster_condition_by_type, has_terminated_container,
}
use hypershift_lite.Release.Provider as Provider
use hypershift_lite.Release.Provider.{poll_until}
use hypershift_lite.Release.Provider.Polls.{Answers, succeeded, later, poll_until-Answers}
use hypershift_lite.Api.{Pod, PodPhase}
use hypershift_lite.Release.Provider.{finished, timed_out}
use hypershift_lite.Prelude.{ℕ, zero, suc, ◌<◌, ◌≤◌}
use hypershift_lite.Reconciler.World.{World, get_release_image}
use hypershift_lite.Etcd.Status.Laws.{
  reconcile_etcd_cluster_status-Settles, Settles, needs_recreation,
}
use hypershift_lite.Reconciler.World.Cache.{get_release_image-cached, get_release_image-failed}
use hypershift_lite.Release.Provider.Cleanup.{lookup-last_event, newest}

abbrev live : Client (Unit {0})
live = client (found kube_service)

-- A cluster of three of which one is ready, with a pod that has terminated.
reconcile_etcd_cluster_status-Settles_example :
    let cluster = cluster_named "ns" "etcd" ("etcd-0" ∷ []) ConditionStatus.false_status in
    let out = reconcile_etcd_cluster_status (recorded live) kube_service (some cluster) (0, []) in
    Settles live (needs_recreation 10 cluster (ok (finished_pod ∷ []))) cluster out.0 out.1.1
reconcile_etcd_cluster_status-Settles_example =
    reconcile_etcd_cluster_status-Settles live kube_service
      (cluster_named "ns" "etcd" ("etcd-0" ∷ []) ConditionStatus.false_status) 0

recreated :
    needs_recreation 10
      (cluster_named "ns" "etcd" ("etcd-0" ∷ []) ConditionStatus.false_status)
      (ok (finished_pod ∷ []))
    ≡ true
unfolding etcd_cluster_condition_by_type has_terminated_container
recreated = refl

abbrev cold : World live
cold = record { api = 0; release_info_cache = [] }

looked_up : (get_release_image live platform 5 "ns" "quay.io/release" "pull" cold).0 ≡ ok one_tag
unfolding get_release_image Provider.lookup
looked_up = refl

get_release_image-cached_example :
    let w' = (get_release_image live platform 5 "ns" "quay.io/release" "pull" cold).1 in
    (lookup "quay.io/release" w'.release_info_cache ≡ some one_tag)
    × (get_release_image live platform 0 "other" "quay.io/release" "" w' ≡ (ok one_tag, w'))
get_release_image-cached_example =
    get_release_image-cached live platform 5 0 "ns" "other" "quay.io/release" "pull" "" cold one_tag
      looked_up

-- A server whose look-up pod stays pending.
abbrev stuck : Client (Unit {0})
stuck = record live {
  get_pod = λ ns name s. (ok (record finished_pod { phase = PodPhase.pending }), s);
}

abbrev cold_stuck : World stuck
cold_stuck = record { api = 0; release_info_cache = [] }

no_image :
    (get_release_image stuck platform 1 "ns" "quay.io/release" "pull" cold_stuck).0
    ≡ err (
        wrap "failed to lookup release info" (
          wrap "failed waiting for image lookup pod \"image-lookup-1\""
            (message "timed out waiting for the condition")))
unfolding get_release_image Provider.lookup
no_image = refl

get_release_image-failed_example :
    (get_release_image stuck platform 1 "ns" "quay.io/release" "pull"
      cold_stuck).1.release_info_cache
    ≡ []
get_release_image-failed_example =
    get_release_image-failed stuck platform 1 "ns" "quay.io/release" "pull" cold_stuck _ no_image

lookup-last_event_example :
    newest (Provider.lookup (recorded live) platform 0 "ns" "quay.io/release" "pull" (0, [])).1.1
    ≡ some (deleted_pod "ns" "image-lookup-1")
lookup-last_event_example = lookup-last_event live platform 0 "ns" "quay.io/release" "pull" 0 []

abbrev phase_at : ℕ → PodPhase
phase_at zero = PodPhase.pending
phase_at (suc zero) = PodPhase.running
phase_at (suc (suc _)) = PodPhase.succeeded

-- A server whose look-up pod ends at the third poll.
abbrev slow : Client (Unit {0})
slow = record live {
  get_pod = λ ns name s. (ok (record finished_pod { phase = phase_at s }), suc s);
}

abbrev slow_pod : ℕ → Pod
slow_pod n = record finished_pod { phase = phase_at n }

third_poll : Answers slow "ns" "image-lookup-1" 0 2 (ok tt) 3
third_poll =
    later (slow_pod 0) refl (λ e. cc) (λ e. cc)
      (later (slow_pod 1) refl (λ e. cc) (λ e. cc) (succeeded (slow_pod 2) refl refl))

poll_until-Answers_example :
    (2 ≤ 2 → poll_until slow 2 "ns" "image-lookup-1" 0 ≡ (finished (ok tt), 3))
    × (2 < 2 → (poll_until slow 2 "ns" "image-lookup-1" 0).0 ≡ timed_out)
poll_until-Answers_example = poll_until-Answers slow "ns" "image-lookup-1" 2 2 third_poll
