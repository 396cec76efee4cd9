-- ===== src/Reconciler/World/Cache.antt =====
-- The cache of release images.
use hypershift_lite.Prelude.{ℕ, String, ◌≡◌, refl, ◌∙◌, ap, some, Option-cases, inl, inr, eq_refl}
use hypershift_lite.Prelude.Dict.{lookup, lookup-insert}
use hypershift_lite.Prelude.Result.{Error, ok, err, Result-cases}
use hypershift_lite.Api.{Platform}
use hypershift_lite.Client.{Client}
use hypershift_lite.Release.Images.{ReleaseImage}
use hypershift_lite.Release.Provider as Provider
use hypershift_lite.Reconciler.World.{World, get_release_image}

module _ {Env : Type 0} (k : Client Env) (p : Platform) where
  cached_hit :
      (polls : ℕ) (ns spec secret : String) (w : World k) (img : ReleaseImage)
      → lookup spec w.release_info_cache ≡ some img
      → get_release_image k p polls ns spec secret w ≡ (ok img, w)
  unfolding get_release_image
  cached_hit polls ns spec secret w img h = rw (get_release_image, h) refl

  stored :
      (polls : ℕ) (ns spec secret : String) (w : World k) (img : ReleaseImage)
      → (get_release_image k p polls ns spec secret w).0 ≡ ok img
      → lookup spec (get_release_image k p polls ns spec secret w).1.release_info_cache ≡ some img
  unfolding get_release_image
  stored polls ns spec secret w img h = elim (Option-cases (lookup spec w.release_info_cache)) [
    | inr (old, found) ↦
        let same : ok old ≡ ok img = rw (get_release_image, found) at h in
        let kept : old ≡ img = cc in rw (get_release_image, found) (found ∙ ap some kept)
    | inl missing ↦ elim (Result-cases (k.new_kube_client w.api).0) [
      | inr (_, failed) ↦ cc (rw (get_release_image, missing, failed) at h)
      | inl (_, made) ↦
          elim (Result-cases
            (Provider.lookup k p polls ns spec secret (k.new_kube_client w.api).1).0) [
              | inr (_, failed) ↦ cc (rw (get_release_image, missing, made, failed) at h)
              | inl (new, found) ↦
                  let same : ok new ≡ ok img = rw (get_release_image, missing, made, found) at h in
                  let kept : new ≡ img = cc in
                  rw (get_release_image, missing, made, found)
                    (rw (lookup-insert, eq_refl spec) (ap some kept))
            ]
    ]
  ]

  -- A look-up of a release image that succeeds leaves its image in the cache under the pull spec, and a second look-up
  -- of that spec then answers the same, with no call of the client and with whatever the rest of
  -- its arguments are.
  pub get_release_image-cached :
      (polls later : ℕ) (ns other spec secret secret' : String) (w : World k) (img : ReleaseImage)
      → (get_release_image k p polls ns spec secret w).0 ≡ ok img
      → let w' = (get_release_image k p polls ns spec secret w).1 in
        (lookup spec w'.release_info_cache ≡ some img)
        × (get_release_image k p later other spec secret' w' ≡ (ok img, w'))
  get_release_image-cached polls later ns other spec secret secret' w img h =
      let kept = stored polls ns spec secret w img h in
      (kept, cached_hit later other spec secret' _ img kept)

  -- A look-up of a release image that fails leaves the cache as it was.
  pub get_release_image-failed :
      (polls : ℕ) (ns spec secret : String) (w : World k) (e : Error)
      → (get_release_image k p polls ns spec secret w).0 ≡ err e
      → (get_release_image k p polls ns spec secret w).1.release_info_cache ≡ w.release_info_cache
  unfolding get_release_image
  get_release_image-failed polls ns spec secret w e h =
      elim (Option-cases (lookup spec w.release_info_cache)) [
        | inr (img, found) ↦ rw (get_release_image, found) refl
        | inl missing ↦ elim (Result-cases (k.new_kube_client w.api).0) [
          | inr (_, failed) ↦ rw (get_release_image, missing, failed) refl
          | inl (_, made) ↦
              elim (Result-cases
                (Provider.lookup k p polls ns spec secret (k.new_kube_client w.api).1).0) [
                  | inr (_, failed) ↦ rw (get_release_image, missing, made, failed) refl
                  | inl (img, found) ↦ cc (rw (get_release_image, missing, made, found) at h)
                ]
        ]
      ]
