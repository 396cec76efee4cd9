-- ===== src/Reconciler/World.antt =====
-- What the reconciler's methods act on: the client's state and the cache of release images; and the
-- calls that every method makes. The mutex around the cache makes its uses follow one another, as
-- they do here. Go's panics are errors that nothing handles.
pub mod Cache
use hypershift_lite.Prelude.{ℕ, String, Option, none, some, ◌∷◌}
use hypershift_lite.Prelude.Dict.{Dict, lookup, insert}
use hypershift_lite.Prelude.Result.{Error, Result, ok, err, message, wrap, context}
use hypershift_lite.Prelude.Action.{Action, pure, raise, ◌>>=◌, ◌>>◌}
use hypershift_lite.Api.{ObjectMeta, Platform, KubernetesService}
use hypershift_lite.Client.{Client, Kind, Object, Fetch, found, not_found, failed}
use hypershift_lite.Release.Images.{ReleaseImage}
use hypershift_lite.Release.Provider as Provider
use hypershift_lite.Reconciler.OwnerRefs.{metadata_of, ensure_ks_owner_ref}

module _ {Env : Type 0} (k : Client Env) where
  pub record World : Type 0 where
    pub api : k.State
    pub release_info_cache : Dict ReleaseImage

module _ {Env : Type 0} (k : Client Env) where
  -- A call of the client.
  unfoldable pub call : {A : Type 0} → Action k.State A → Action (World k) A
  call m w = let (r, s) = m w.api in (r, record w { api = s })

  abbrev pub fetched_or : {A : Type 0} → String → A → Fetch A → Result A
  fetched_or text initial (found o) = ok o
  fetched_or text initial not_found = ok initial
  fetched_or text initial (failed e) = err (wrap text e)

  abbrev fetched : {A : Type 0} → String → Fetch A → Result A
  fetched text (found o) = ok o
  fetched text not_found = err (wrap text (message "not found"))
  fetched text (failed e) = err (wrap text e)

  -- `if err := r.Get(…); err != nil { return fmt.Errorf("text: %w", err) }`
  unfoldable pub get_required :
      String → (kind : Kind) → Object kind → Action (World k) (Object kind)
  get_required text kind o w =
      let m = metadata_of kind o in
      let (answer, s) = k.get kind m.namespace m.name w.api in
      (fetched text answer, record w { api = s })

  -- `if err := r.Get(…); err != nil && !apierrors.IsNotFound(err) { return … }`: the object that is
  -- found, or the one that was given.
  unfoldable pub get_optional :
      String → (kind : Kind) → Object kind → Action (World k) (Object kind)
  get_optional text kind o w =
      let m = metadata_of kind o in
      let (answer, s) = k.get kind m.namespace m.name w.api in
      (fetched_or text o answer, record w { api = s })

  -- `if _, err := controllerutil.CreateOrUpdate(…); err != nil { return fmt.Errorf("text: %w", err) }`
  unfoldable pub apply :
      String
      → (kind : Kind) → Object kind
      → (Env → Object kind → Result (Object kind))
      → Action (World k) (Unit {0})
  apply text kind o mutate w =
      let (answer, s) = k.create_or_update kind o mutate w.api in
      (context text answer, record w { api = s })

  -- `getReleaseImage`; `polls` is the number of polls that follow the first one.
  unfoldable pub get_release_image :
      Platform → ℕ → String → String → String → Action (World k) ReleaseImage
  unfolding lookup insert
  get_release_image p polls namespace image_pull_spec pull_secret_name w =
      elim (lookup image_pull_spec w.release_info_cache) [
        | some img ↦ (ok img, w)
        | none ↦
            let (client, s₁) = k.new_kube_client w.api in
            elim client [
              | err e ↦ (err (wrap "unable to create kube client" e), record w { api = s₁ })
              | ok _ ↦
                  let (found_img, s₂) =
                    Provider.lookup k p polls namespace image_pull_spec pull_secret_name s₁ in
                  elim found_img [
                    | err e ↦ (err (wrap "failed to lookup release info" e), record w { api = s₂ })
                    | ok img ↦ (
                      ok img,
                      record {
                        api = s₂;
                        release_info_cache = insert image_pull_spec img w.release_info_cache;
                      },
                    )
                  ]
            ]
      ]
