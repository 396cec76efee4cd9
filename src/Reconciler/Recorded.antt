-- ===== src/Reconciler/Recorded.antt =====
-- A client that records its calls, newest first, and does with each what the client below it does.
-- It changes no answer: what is proved of its record holds of every run of the controllers.
use hypershift_lite.Prelude.{String, List, ◌∷◌}
use hypershift_lite.Api.{KubernetesService}
use hypershift_lite.Client.{Client, Kind}
use hypershift_lite.Reconciler.OwnerRefs.{metadata_of}

pub data Event : Type 0 where
  got : Kind → String → String → Event
  got_service : String → String → Event
  -- Status().Update of a service
  status_updated : KubernetesService → Event
  deleted_cluster : String → String → Event
  listed_pods : String → String → Event
  -- CreateOrUpdate of a namespace and a name
  applied : Kind → String → String → Event
  made_client : Event
  created_pod : String → Event
  -- A call of Delete, whatever came of it, and calls of Get and GetLogs
  deleted_pod got_pod read_logs : String → String → Event

abbrev pub Record : Type 0
Record = List Event

abbrev pub recorded : {Env : Type 0} → Client Env → Client Env
recorded k = record {
  State = k.State × Record;
  now = λ s. k.now s.0;
  get = λ kind ns name s. let (r, t) = k.get kind ns name s.0 in (r, (t, got kind ns name ∷ s.1));
  get_kube_service = λ ns name s.
      let (r, t) = k.get_kube_service ns name s.0 in (r, (t, got_service ns name ∷ s.1));
  update_status = λ ks s. let (r, t) = k.update_status ks s.0 in (r, (t, status_updated ks ∷ s.1));
  delete_cluster = λ cluster s.
      let (r, t) = k.delete_cluster cluster s.0 in
      (r, (t, deleted_cluster cluster.metadata.namespace cluster.metadata.name ∷ s.1));
  list_pods = λ label value s.
      let (r, t) = k.list_pods label value s.0 in (r, (t, listed_pods label value ∷ s.1));
  create_or_update = λ kind o f s.
      let (r, t) = k.create_or_update kind o f s.0 in
      let m = metadata_of kind o in (r, (t, applied kind m.namespace m.name ∷ s.1));
  new_kube_client = λ s. let (r, t) = k.new_kube_client s.0 in (r, (t, made_client ∷ s.1));
  create_pod = λ ns pod s. let (r, t) = k.create_pod ns pod s.0 in (r, (t, created_pod ns ∷ s.1));
  delete_pod = λ expired ns name s.
      let (r, t) = k.delete_pod expired ns name s.0 in (r, (t, deleted_pod ns name ∷ s.1));
  get_pod = λ ns name s. let (r, t) = k.get_pod ns name s.0 in (r, (t, got_pod ns name ∷ s.1));
  pod_logs = λ ns name s. let (r, t) = k.pod_logs ns name s.0 in (r, (t, read_logs ns name ∷ s.1));
}
