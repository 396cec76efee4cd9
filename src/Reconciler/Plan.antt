-- ===== src/Reconciler/Plan.antt =====
-- What `Reconcile` of pkg/controllers/kubeservice/reconciler.go promises of its writes: a plan, the
-- objects in the order in which a run writes them, and what it is for an action to follow one.
pub mod Rules
pub mod Objects
pub mod Followed
pub mod Reconciled
use hypershift_lite.Prelude.{String, ◌≡◌, List, [], ◌∷◌, ◌++◌}
use hypershift_lite.Prelude.Result.{Result, ok, err}
use hypershift_lite.Prelude.Action.{Action}
use hypershift_lite.Client.{Client, Kind}
use hypershift_lite.Reconciler.World.{World}
use hypershift_lite.Reconciler.Recorded.{Event, Record, recorded, applied}

-- The kind, the namespace and the name of an object that is written.
abbrev pub Write : Type 0
Write = Kind × String × String

-- The writes of a record, newest first.
abbrev pub writes : Record → List Write
writes [] = []
writes (applied kind ns name ∷ r) = (kind, ns, name) ∷ writes r
writes (_ ∷ r) = writes r

-- The writes after some more, which are in the order in which they are made.
abbrev pub logged : List Write → List Write → List Write
logged [] before = before
logged (w ∷ ws) before = logged ws (w ∷ before)

-- An initial segment of the plan was written.
pub record Begun (plan before later : List Write) : Type 0 where
  pub made : List Write
  pub left : List Write
  pub split : plan ≡ made ++ left
  pub done : later ≡ logged made before

-- The whole plan was written if there is a result, and an initial segment if there is an error.
abbrev pub Ended : {A : Type 0} → List Write → Result A → List Write → List Write → Type 0
Ended plan (ok a) before later = later ≡ logged plan before
Ended plan (err e) before later = Begun plan before later

pub record Completes {Env : Type 0} (k : Client Env) {A : Type 0} (plan : List Write)
    (m : Action (World (recorded k)) A) : Type 0 where
  pub at : (w : World (recorded k)) → Ended plan (m w).0 (writes w.api.1) (writes (m w).1.api.1)

-- The action writes an initial segment of the plan, whether it returns or fails.
pub record Follows {Env : Type 0} (k : Client Env) {A : Type 0} (plan : List Write)
    (m : Action (World (recorded k)) A) : Type 0 where
  pub at : (w : World (recorded k)) → Begun plan (writes w.api.1) (writes (m w).1.api.1)

-- The objects of the components, in the order of their writes.
module _ (ns : String) where
  abbrev pub root_ca_plan : List Write
  root_ca_plan = (Kind.secret, ns, "root-ca") ∷ []

  abbrev pub etcd_plan : List Write
  etcd_plan =
      (Kind.secret, ns, "etcd-client-tls")
      ∷ (Kind.secret, ns, "etcd-server-tls")
      ∷ (Kind.secret, ns, "etcd-peer-tls")
      ∷ (Kind.service_account, ns, "etcd-operator")
      ∷ (Kind.role, ns, "etcd-operator")
      ∷ (Kind.role_binding, ns, "etcd-operator")
      ∷ (Kind.deployment, ns, "etcd-operator")
      ∷ (Kind.etcd_cluster, ns, "etcd")
      ∷ []

  abbrev pub kas_plan : List Write
  kas_plan =
      (Kind.service, ns, "kube-apiserver")
      ∷ (Kind.secret, ns, "kas-server-crt")
      ∷ (Kind.secret, ns, "kas-aggregator-crt")
      ∷ (Kind.secret, ns, "kas-sa-key")
      ∷ (Kind.secret, ns, "kubeconfig")
      ∷ (Kind.secret, ns, "localhost-kubeconfig")
      ∷ (Kind.config_map, ns, "kas-audit-config")
      ∷ (Kind.config_map, ns, "kas-config")
      ∷ (Kind.config_map, ns, "oauth-metadata")
      ∷ (Kind.deployment, ns, "kube-apiserver")
      ∷ []

  abbrev pub kcm_plan : List Write
  kcm_plan =
      (Kind.secret, ns, "cluster-signer")
      ∷ (Kind.config_map, ns, "kcm-config")
      ∷ (Kind.deployment, ns, "kube-controller-manager")
      ∷ []

  abbrev pub plan : List Write
  plan = root_ca_plan ++ (etcd_plan ++ (kas_plan ++ kcm_plan))
