-- ===== src/Reconciler/OwnerRefs/Laws.antt =====
-- The owner references of an object after `ensureOwnerRef`.
use hypershift_lite.Prelude.{String, ◌≡◌, refl, ap, true, List, [], ◌∷◌, ◌++◌, some}
use hypershift_lite.Prelude.{set, if◌then◌else◌, Bool-cases, Option-cases, inl, inr, eq_refl}
use hypershift_lite.Api.{OwnerReference, Platform}
use hypershift_lite.Reconciler.OwnerRefs.{refer_same_object, index_owner_ref, ensure_owner_ref}

-- The references with a match for one of them replaced, or that one added, written directly.
abbrev pub put : Platform → OwnerReference → List OwnerReference → List OwnerReference
put p ref [] = ref ∷ []
put p ref (r ∷ rest) = if refer_same_object p r ref then ref ∷ rest else r ∷ put p ref rest

module _ (p : Platform) where
  -- ensureOwnerRef replaces the first reference to the same object, or it adds one at the end.
  pub ensure_owner_ref-put :
      (refs : List OwnerReference) (ref : OwnerReference)
      → ensure_owner_ref p refs ref ≡ put p ref refs
  unfolding ensure_owner_ref index_owner_ref
  ensure_owner_ref-put [] ref = refl
  ensure_owner_ref-put (r ∷ rest) ref = elim (Bool-cases (refer_same_object p r ref)) [
    | inl found ↦ rw (ensure_owner_ref, index_owner_ref, found) refl
    | inr no_match ↦ elim (Option-cases (index_owner_ref p rest ref)) [
      | inl missing ↦
          let later : rest ++ ref ∷ [] ≡ put p ref rest =
            rw (ensure_owner_ref, missing) at (ensure_owner_ref-put rest ref) in
          rw (ensure_owner_ref, index_owner_ref, no_match, missing) (ap (λ t. r ∷ t) later)
      | inr (i, found) ↦
          let later : set rest i ref ≡ put p ref rest =
            rw (ensure_owner_ref, found) at (ensure_owner_ref-put rest ref) in
          rw (ensure_owner_ref, index_owner_ref, no_match, found) (ap (λ t. r ∷ t) later)
    ]
  ]

  refer_same_refl :
      (ref : OwnerReference) (group : String)
      → p.parse_group ref.api_version ≡ some group
      → refer_same_object p ref ref ≡ true
  unfolding refer_same_object
  refer_same_refl ref group h =
      rw (refer_same_object, h) (rw (h, eq_refl group, eq_refl ref.kind, eq_refl ref.name) refl)

  put-put :
      (refs : List OwnerReference) (ref : OwnerReference)
      → refer_same_object p ref ref ≡ true
      → put p ref (put p ref refs) ≡ put p ref refs
  put-put [] ref h = rw (h) refl
  put-put (r ∷ rest) ref h = elim (Bool-cases (refer_same_object p r ref)) [
    | inl found ↦ rw (found, h) refl
    | inr no_match ↦ rw (no_match) (rw (no_match) (ap (λ t. r ∷ t) (put-put rest ref h)))
  ]

  -- A second ensureOwnerRef with the same reference changes nothing, provided that its API version parses.
  pub ensure_owner_ref-twice :
      (refs : List OwnerReference) (ref : OwnerReference) (group : String)
      → p.parse_group ref.api_version ≡ some group
      → ensure_owner_ref p (ensure_owner_ref p refs ref) ref ≡ ensure_owner_ref p refs ref
  ensure_owner_ref-twice refs ref group h =
      rw (ensure_owner_ref-put refs ref, ensure_owner_ref-put (put p ref refs) ref)
        (put-put refs ref (refer_same_refl ref group h))
