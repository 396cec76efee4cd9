-- ===== src/Reconciler/Phases/Still.antt =====
-- The status phases of `Reconcile` and the look-up of a release image keep what quiet calls keep.
use hypershift_lite.Prelude.{ℕ, String, Option, inl, inr, ◌∷◌}
use hypershift_lite.Prelude.{Option-cases}
use hypershift_lite.Prelude.Dict.{lookup}
use hypershift_lite.Prelude.Result.{Result-cases}
use hypershift_lite.Prelude.Action.{Action}
use hypershift_lite.Api.{Platform, KubernetesService}
use hypershift_lite.Certs.{Crypto}
use hypershift_lite.Client.{Client, Kind}
use hypershift_lite.Release.Provider as Provider
use hypershift_lite.Reconciler.World.{World, call, get_release_image}
use hypershift_lite.Reconciler.Recorded.{Event, Record, recorded}
use hypershift_lite.Reconciler.Recorded.{made_client}
use hypershift_lite.Reconciler.Recorded.{got}
use hypershift_lite.Reconciler.Phases.{Phase, Outcome, after, stop, go_on}
use hypershift_lite.Reconciler.Phases.{look, etcd_phase, kas_phase, kcm_phase, keep_going}
use hypershift_lite.Reconciler.Phases.{Observed, phase_of}
use hypershift_lite.Reconciler.Phases.{broken, deleting, observed, and_then}
use hypershift_lite.Reconciler.Phases.Keeps.{Keeps, Keeps-pure, Keeps-bind}
use hypershift_lite.Reconciler.Phases.Keeps.{Keeps-raise}
use hypershift_lite.Reconciler.Phases.Quiet.{Quietly, same, one, IsQuiet, Looked, begun, IsLookup}
use hypershift_lite.Reconciler.Phases.Quiet as Quiet
use hypershift_lite.Reconciler.Phases.Quiet.{etcd_status-Quietly, kas_status-Quietly}
use hypershift_lite.Reconciler.Phases.Quiet.{kcm_status-Quietly, lookup-Looked}

-- `P` does not look at quiet calls.
pub record Still (P : Record → Type 0) : Type 0 where
  pub at : (e : Event) (r : Record) → IsQuiet e → P r → P (e ∷ r)

Still-Quietly : {P : Record → Type 0} {q r : Record} → Still P → Quietly q r → P q → P r
Still-Quietly still same h = h
Still-Quietly still (one e quiet rest) h = still.at e _ quiet (Still-Quietly still rest h)

module _ {Env : Type 0} (k : Client Env) (p : Platform) {P : Record → Type 0}
    (looked_at : (q r : Record) → Looked q r → P q → P r) where
  pub image-Keeps :
      (polls : ℕ) (ns image pull_secret : String)
      → Keeps k P (get_release_image (recorded k) p polls ns image pull_secret)
  unfolding get_release_image
  image-Keeps polls ns image pull_secret = record {
    at = λ w h. elim (Option-cases (lookup image w.release_info_cache)) [
      | inl miss ↦ elim (Result-cases ((recorded k).new_kube_client w.api).0) [
        | inl (_, made) ↦
            let looked =
              looked_at _ _
                (lookup-Looked k p polls ns image pull_secret
                  ((recorded k).new_kube_client w.api).1)
                (looked_at _ _ (Quiet.after made_client tt begun) h) in
            elim (Result-cases
              (Provider.lookup (recorded k) p polls ns image pull_secret
                ((recorded k).new_kube_client w.api).1).0) [
                  | inl (_, e) ↦ rw (miss, made, e, get_release_image) looked
                  | inr (_, e) ↦ rw (miss, made, e, get_release_image) looked
                ]
        | inr (_, e) ↦
            rw (miss, e, get_release_image) (looked_at _ _ (Quiet.after made_client tt begun) h)
      ]
      | inr (_, hit) ↦ rw (hit, get_release_image) h
    ];
  }

module _ (p : Platform) (c : Crypto) (k : Client c.Env) {P : Record → Type 0} where
  phase_of-Keeps :
      {A : Type 0} (o : Observed A)
      (routine : Option A → Action (World (recorded k)) KubernetesService)
      → ((a : Option A) → Keeps k P (routine a))
      → Keeps k P (phase_of p c (recorded k) o routine)
  phase_of-Keeps (broken e) routine keep = Keeps-raise k e
  phase_of-Keeps deleting routine keep = Keeps-pure k (stop (after 5))
  phase_of-Keeps (observed a) routine keep =
      Keeps-bind k (routine a) _ (keep a) (λ ks. Keeps-pure k (go_on ks))

  pub and_then-Keeps :
      (phase : Phase) (next : KubernetesService → Action (World (recorded k)) Outcome)
      → ((ks : KubernetesService) → Keeps k P (next ks))
      → Keeps k P (and_then p c (recorded k) phase next)
  and_then-Keeps (stop outcome) next keep = Keeps-pure k outcome
  and_then-Keeps (go_on ks) next keep = keep ks

module _ (p : Platform) (c : Crypto) (k : Client c.Env) {P : Record → Type 0}
    (still : Still P) where
  pub call-Keeps :
      {A : Type 0} (m : Action (k.State × Record) A)
      → ((s : k.State × Record) → Quietly s.1 (m s).1.1)
      → Keeps k P (call (recorded k) m)
  unfolding call
  call-Keeps m quiet = record { at = λ w h. Still-Quietly still (quiet w.api) h }

  look-Keeps : (kind : Kind) (ns name : String) → Keeps k P (look p c (recorded k) kind ns name)
  unfolding look
  look-Keeps kind ns name = record { at = λ w h. still.at (got kind ns name) w.api.1 tt h }

  pub etcd_phase-Keeps :
      (ns : String) (ks : KubernetesService) → Keeps k P (etcd_phase p c (recorded k) ns ks)
  unfolding etcd_phase
  etcd_phase-Keeps ns ks = Keeps-bind k _ _ (look-Keeps Kind.etcd_cluster _ _) λ answer.
      phase_of-Keeps p c k _ _ (λ cluster. call-Keeps _ (etcd_status-Quietly k ks cluster))

  pub kas_phase-Keeps :
      (ns : String) (ks : KubernetesService) → Keeps k P (kas_phase p c (recorded k) ns ks)
  unfolding kas_phase keep_going
  kas_phase-Keeps ns ks = Keeps-bind k _ _ (look-Keeps Kind.deployment _ _) λ answer.
      phase_of-Keeps p c k _ _ (λ deployment.
        Keeps-bind k _ _ (call-Keeps _ (kas_status-Quietly k ks deployment))
          (λ reported. Keeps-pure k reported.0))

  pub kcm_phase-Keeps :
      (ns : String) (ks : KubernetesService) → Keeps k P (kcm_phase p c (recorded k) ns ks)
  unfolding kcm_phase
  kcm_phase-Keeps ns ks = Keeps-bind k _ _ (look-Keeps Kind.deployment _ _) λ answer.
      phase_of-Keeps p c k _ _ (λ deployment. call-Keeps _ (kcm_status-Quietly k ks deployment))
