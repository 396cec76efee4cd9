-- ===== src/Reconciler/Phases/Safety.antt =====
-- A whole run of `Reconcile` writes the components in order.
use hypershift_lite.Prelude.{ℕ, ◌∷◌, String, ◌≡◌, refl, true, inl, inr}
use hypershift_lite.Prelude.{Bool-cases}
use hypershift_lite.Prelude.Result.{ok, Result-cases}
use hypershift_lite.Prelude.Action.{◌>>=◌}
use hypershift_lite.Api.{Platform, KubernetesService, etcd_available, is_zero}
use hypershift_lite.Api.{kube_api_server_available}
use hypershift_lite.Certs.{Crypto}
use hypershift_lite.Client.{Client, Kind, Fetch, found, not_found, failed}
use hypershift_lite.Pki.{root_ca_secret}
use hypershift_lite.Release.Images.{ReleaseImage}
use hypershift_lite.Reconciler.World.{World, call}
use hypershift_lite.Reconciler.Recorded.{Event, Record, recorded, applied, status_updated}
use hypershift_lite.Reconciler.Recorded.{made_client, created_pod, deleted_pod, got_pod, read_logs}
use hypershift_lite.Reconciler.Recorded.{got, got_service, deleted_cluster, listed_pods}
use hypershift_lite.Reconciler.Phases.{condition_is_true, done, after}
use hypershift_lite.Reconciler.Phases.{report_available}
use hypershift_lite.Reconciler.Phases.{ks_phase}
use hypershift_lite.Reconciler.Phases.{apply_root_ca, write_kube_api_server, write_components}
use hypershift_lite.Reconciler.Phases.{reconcile_service_phases, reconcile}
use hypershift_lite.Reconciler.Phases.{begin, status_is_true}
use hypershift_lite.Ks.{get_condition_by_type}
use hypershift_lite.Api.{ConditionStatus, KubernetesServiceCondition, is_true}
use hypershift_lite.Prelude.{Bool, false, List, [], map, ap, sym, ◌∙◌, ◌==◌, if◌then◌else◌}
use hypershift_lite.Reconciler.Phases.Keeps.{Keeps, IsNamed, Keeps-pure, Keeps-bind}
use hypershift_lite.Reconciler.Phases.Keeps.{Keeps-raise, apply-Keeps}
use hypershift_lite.Reconciler.Phases.Quiet.{Quietly, same, one, IsQuiet, Looked, begun, IsLookup}
use hypershift_lite.Reconciler.Phases.Still.{Still, image-Keeps, etcd_phase-Keeps, kas_phase-Keeps}
use hypershift_lite.Reconciler.Phases.Still.{kcm_phase-Keeps, and_then-Keeps}
use hypershift_lite.Reconciler.Phases.Quiet as Quiet
use hypershift_lite.Reconciler.Phases.Quiet.{etcd_status-Quietly, kas_status-Quietly}
use hypershift_lite.Reconciler.Phases.Quiet.{kcm_status-Quietly, lookup-Looked}
use hypershift_lite.Reconciler.Phases.Order.{InOrder, Agrees, reconcile_etcd-Keeps, etcd_plain}
use hypershift_lite.Reconciler.Phases.Order.{reconcile_kube_api_server-Keeps}
use hypershift_lite.Reconciler.Phases.Order.{reconcile_kube_controller_manager-Keeps}

InOrder-Still : Still InOrder
InOrder-Still = record { at = λ e r. step e r }
  where
    step : (e : Event) (r : Record) → IsQuiet e → InOrder r → InOrder (e ∷ r)
    step (got _ _ _) r q h = h
    step (got_service _ _) r q h = h
    step (status_updated _) r q h = h
    step (deleted_cluster _ _) r q h = h
    step (listed_pods _ _) r q h = h
    step (applied _ _ _) r q h = absurd q
    step made_client r q h = h
    step (created_pod _) r q h = h
    step (deleted_pod _ _) r q h = h
    step (got_pod _ _) r q h = h
    step (read_logs _ _) r q h = h

Agrees-Looked : {ks : KubernetesService} {q r : Record} → Looked q r → Agrees ks q → Agrees ks r
Agrees-Looked begun h = h
Agrees-Looked (Quiet.after made_client _ rest) h =
    let a = Agrees-Looked rest h in record { in_order = a.in_order; etcd = a.etcd; kas = a.kas }
Agrees-Looked (Quiet.after (created_pod _) _ rest) h =
    let a = Agrees-Looked rest h in record { in_order = a.in_order; etcd = a.etcd; kas = a.kas }
Agrees-Looked (Quiet.after (deleted_pod _ _) _ rest) h =
    let a = Agrees-Looked rest h in record { in_order = a.in_order; etcd = a.etcd; kas = a.kas }
Agrees-Looked (Quiet.after (got_pod _ _) _ rest) h =
    let a = Agrees-Looked rest h in record { in_order = a.in_order; etcd = a.etcd; kas = a.kas }
Agrees-Looked (Quiet.after (read_logs _ _) _ rest) h =
    let a = Agrees-Looked rest h in record { in_order = a.in_order; etcd = a.etcd; kas = a.kas }
Agrees-Looked (Quiet.after (got _ _ _) q rest) h = absurd q
Agrees-Looked (Quiet.after (got_service _ _) q rest) h = absurd q
Agrees-Looked (Quiet.after (status_updated _) q rest) h = absurd q
Agrees-Looked (Quiet.after (deleted_cluster _ _) q rest) h = absurd q
Agrees-Looked (Quiet.after (listed_pods _ _) q rest) h = absurd q
Agrees-Looked (Quiet.after (applied _ _ _) q rest) h = absurd q

-- The types and statuses of the conditions of a service.
abbrev pub typed_status : KubernetesServiceCondition → String × ConditionStatus
typed_status c = (c.type, c.status)

abbrev pub statuses_of : KubernetesService → List (String × ConditionStatus)
statuses_of ks = map typed_status ks.status.conditions

-- What the code relies on: the answer to a status update has the conditions that were sent, in
-- order, with their types and statuses. The times, reasons and messages may differ.
pub record EchoesStatuses {Env : Type 0} (k : Client Env) : Type 0 where
  pub echo :
      (ks ks' : KubernetesService) (s : k.State)
      → (k.update_status ks s).0 ≡ ok ks'
      → statuses_of ks' ≡ statuses_of ks

module _ (p : Platform) (c : Crypto) (k : Client c.Env) (named : IsNamed k)
    (ks : KubernetesService) where
  root_ca-Keeps : Keeps k (Agrees ks) (apply_root_ca p c (recorded k) ks)
  unfolding apply_root_ca root_ca_secret
  root_ca-Keeps =
      apply-Keeps k named _ Kind.secret _ _
        (etcd_plain p c k named ks Kind.secret (root_ca_secret ks.metadata.namespace) refl refl)

  kas-Keeps :
      condition_is_true ks etcd_available ≡ true
      → (image : ReleaseImage)
      → Keeps k (Agrees ks) (write_kube_api_server p c (recorded k) ks image)
  unfolding write_kube_api_server
  kas-Keeps etcd image =
      Keeps-bind k _ _ (reconcile_kube_api_server-Keeps p c k named ks etcd image) λ _.
        elim (Bool-cases (condition_is_true ks kube_api_server_available)) [
          | inl kas ↦ rw kas (
              Keeps-bind k _ _
                (reconcile_kube_controller_manager-Keeps p c k named ks etcd kas image)
                (λ _. Keeps-pure k done))
          | inr none_yet ↦ rw none_yet (Keeps-pure k done)
        ]

  components-Keeps :
      (polls : ℕ) (ns : String)
      → Keeps k (Agrees ks) (write_components p c (recorded k) polls ns ks)
  unfolding write_components
  components-Keeps polls ns = Keeps-bind k _ _ root_ca-Keeps λ _.
      Keeps-bind k _ _ (reconcile_etcd-Keeps p c k named ks) λ _.
        elim (Bool-cases (condition_is_true ks etcd_available)) [
          | inl etcd ↦ rw etcd (
              Keeps-bind k _ _
                (image-Keeps k p (λ _ _ h. Agrees-Looked h) polls ns ks.spec.release_image
                  ks.spec.pull_secret)
                (λ image. kas-Keeps etcd image))
          | inr none_yet ↦ rw none_yet (Keeps-pure k (after 10))
        ]

-- Whether the first condition of a type is true, by types and statuses only.
abbrev is_true_in : String → List (String × ConditionStatus) → Bool
is_true_in t [] = false
is_true_in t ((u, status) ∷ rest) = if u == t then is_true status else is_true_in t rest

is_true_in-statuses :
    (t : String) (cs : List KubernetesServiceCondition)
    → status_is_true (get_condition_by_type cs t) ≡ is_true_in t (map typed_status cs)
unfolding get_condition_by_type
is_true_in-statuses t [] = refl
is_true_in-statuses t (c ∷ cs) = elim (Bool-cases (c.type == t)) [
  | inl here ↦ rw (here, get_condition_by_type) refl
  | inr other ↦ rw (other, get_condition_by_type) (is_true_in-statuses t cs)
]

condition_is_true_statuses :
    (ks ks' : KubernetesService) (t : String)
    → statuses_of ks' ≡ statuses_of ks
    → condition_is_true ks t ≡ condition_is_true ks' t
unfolding condition_is_true
condition_is_true_statuses ks ks' t e =
    is_true_in-statuses t ks.status.conditions
    ∙ (ap (is_true_in t) (sym e) ∙ sym (is_true_in-statuses t ks'.status.conditions))

module _ (p : Platform) (c : Crypto) (k : Client c.Env) (named : IsNamed k)
    (echoes : EchoesStatuses k) where
  last_phases-Keeps :
      (polls : ℕ) (ns : String) (ks : KubernetesService)
      → Keeps k InOrder
          (ks_phase p c (recorded k) ks >>= λ ks'. write_components p c (recorded k) polls ns ks')
  unfolding ks_phase call ◌>>=◌
  last_phases-Keeps polls ns ks = record {
    at = λ w h.
        let reported = report_available (k.now w.api.0) ks in
        elim (Result-cases (k.update_status reported w.api.0).0) [
          | inl (ks', e) ↦
              rw e
                ((components-Keeps p c k named ks' polls ns).at _ (record {
                  in_order = h;
                  etcd =
                      condition_is_true_statuses reported ks' etcd_available
                        (echoes.echo reported ks' w.api.0 e);
                  kas =
                      condition_is_true_statuses reported ks' kube_api_server_available
                        (echoes.echo reported ks' w.api.0 e);
                })).in_order
          | inr (_, e) ↦ rw e h
        ];
  }

  service_phases-Keeps :
      (polls : ℕ) (ns : String) (ks : KubernetesService)
      → Keeps k InOrder (reconcile_service_phases p c (recorded k) polls ns ks)
  unfolding reconcile_service_phases
  service_phases-Keeps polls ns ks =
      Keeps-bind k _ _ (etcd_phase-Keeps p c k InOrder-Still ns ks) λ etcd.
        and_then-Keeps p c k etcd _ λ ks₁.
          Keeps-bind k _ _ (kas_phase-Keeps p c k InOrder-Still ns ks₁) λ kas.
            and_then-Keeps p c k kas _ λ ks₂.
              Keeps-bind k _ _ (kcm_phase-Keeps p c k InOrder-Still ns ks₂)
                λ kcm. and_then-Keeps p c k kcm _ λ ks₃. last_phases-Keeps polls ns ks₃

  begin-Keeps :
      (polls : ℕ) (ns : String) (answer : Fetch KubernetesService)
      → Keeps k InOrder (begin p c (recorded k) polls ns answer)
  begin-Keeps polls ns (failed e) = Keeps-raise k e
  begin-Keeps polls ns not_found = Keeps-pure k done
  begin-Keeps polls ns (found ks) = elim (Bool-cases (is_zero ks.metadata.deletion_timestamp)) [
    | inl live ↦ rw live (service_phases-Keeps polls ns ks)
    | inr gone ↦ rw gone (Keeps-pure k done)
  ]

  -- In every run of Reconcile, whatever the server answers and whether the run fails, an object of
  -- the API server is written only while the last status update of the record said that etcd is
  -- available, and one of the controller manager only while it said so of etcd and of the API
  -- server. This is provided that the record so far is in order, that a Get gives an object of
  -- the name that it was asked for, and that a status update that succeeds gives back the
  -- conditions that it was sent, with their types and statuses.
  pub reconcile-InOrder :
      (polls : ℕ) (ns name : String) (w : World (recorded k))
      → InOrder w.api.1
      → InOrder (reconcile p c (recorded k) polls ns name w).1.api.1
  unfolding reconcile
  reconcile-InOrder polls ns name w h =
      (begin-Keeps polls ns ((recorded k).get_kube_service ns name w.api).0).at _ h
