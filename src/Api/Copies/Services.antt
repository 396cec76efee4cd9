-- ===== src/Api/Copies/Services.antt =====
-- The deep copies of services, of pkg/api/v1alpha1/zz_generated.deepcopy.go.
use mathlib.Core.Path.{ap₂}
use hypershift_lite.Prelude.{
  ℕ, ◌≡◌, refl, ap, ◌∙◌, List, [], ◌∷◌, ◌++◌, Option, none, some, length, map, arith, length-append,
}
use hypershift_lite.Api.Kube.{KubernetesServiceCondition}
use hypershift_lite.Api.Copies.{StoredService, Array, Store}
use hypershift_lite.Api.Copies.{MetaCopies}
use hypershift_lite.Api.Copies.{conditions_at}
use hypershift_lite.Api.Copies.{copy_condition, copy_conditions, copy_status}
use hypershift_lite.Api.Copies.{copy_service, copy_services}
use hypershift_lite.Api.Copies.Views.{array_view}
use hypershift_lite.Api.Copies.Views.{conditions_seen, service_view, Between}
use hypershift_lite.Api.Copies.Views.{MetaBetween, AllBetween, AreDeep}
use hypershift_lite.Api.Copies.Views.{Extends}
use hypershift_lite.Api.Copies.Laws.{get_elem?-length, Grown-trans, Grown-length}
use hypershift_lite.Api.Copies.Laws.{
  Extends-refl, Extends-trans, array-Grown, meta-Grown, services-Extends,
}
use hypershift_lite.Api.Copies.Laws.{Between-wider, MetaBetween-wider, AllBetween-wider}

module _ (m : MetaCopies) (deep : AreDeep m) where
  copy_conditions-equal : (cs : List KubernetesServiceCondition) → copy_conditions m cs ≡ cs
  unfolding copy_conditions copy_condition
  copy_conditions-equal [] = refl
  copy_conditions-equal (c ∷ cs) =
      rw (deep.time c.last_transition_time, copy_conditions-equal cs) refl

  -- What a copy of services from one store to another is.
  pub record Copied (s s' : Store) (svcs out : List StoredService) : Type 0 where
    pub extends : Extends s s'
    pub views : map (service_view s') out ≡ map (service_view s) svcs
    pub fresh : AllBetween (length s.arrays) (length s'.arrays) out

  status_copied :
      (s : Store) (o : Option ℕ)
      → Between 0 (length s.arrays) o
      → let (status, s') = copy_status m (record { conditions = o }) s in
        Extends s s'
        × (conditions_seen (array_view s'.arrays status.conditions)
            ≡ conditions_seen (array_view s.arrays o))
        × Between (length s.arrays) (length s'.arrays) status.conditions
  unfolding copy_status
  status_copied s none h = (Extends-refl s, refl, tt)
  status_copied s (some a) h = (
    record {
      arrays = record {
        more = Array.conditions (copy_conditions m (conditions_at s a)) ∷ [];
        kept = refl;
      };
      services = refl;
    },
    rw (get_elem?-length, copy_conditions-equal) refl,
    (omega arith, rw (length-append) (omega arith)),
  )

  -- The copy of one service.
  service-Copied :
      (svc : StoredService) (s : Store)
      → MetaBetween 0 (length s.arrays) svc.metadata
      → Between 0 (length s.arrays) svc.status.conditions
      → let (out, s') = copy_service m svc s in Copied s s' (svc ∷ []) (out ∷ [])
  unfolding copy_service
  service-Copied svc s here there =
      let (metadata, arrays) = m.copy_object_meta svc.metadata s.arrays in
      let first = deep.object_meta svc.metadata s.arrays here in
      let s₁ : Store = record s { arrays = arrays } in
      let longer = Grown-length {a = s.arrays} {b = arrays} first.grown in
      let (second, view, fresh) = status_copied s₁ svc.status.conditions (
        Between-wider 0 (length s.arrays) 0 (length arrays) svc.status.conditions (omega arith)
          longer there) in
      let (status, s₂) = copy_status m svc.status s₁ in
      let longer_still = Grown-length {a = arrays} {b = s₂.arrays} second.arrays in
      record {
        extends = record {
          arrays =
              Grown-trans {a = s.arrays} {b = arrays} {c = s₂.arrays} first.grown second.arrays;
          services = second.services;
        };
        views =
            ap (λ v. v ∷ [])
              (ap₂
                (λ o cs. record {
                  type_meta = svc.type_meta;
                  metadata = o;
                  spec = svc.spec;
                  conditions = cs;
                })
                (meta-Grown {a = arrays} {b = s₂.arrays} (length s.arrays) metadata second.arrays
                    first.fresh
                  ∙ first.view)
                (view
                  ∙ ap conditions_seen (
                      array-Grown {a = s.arrays} {b = arrays} 0 svc.status.conditions first.grown
                        there)));
        fresh = (
          (
            MetaBetween-wider (length s.arrays) (length arrays) (length s.arrays) (length s₂.arrays)
                metadata (omega arith) longer_still first.fresh,
            Between-wider (length arrays) (length s₂.arrays) (length s.arrays) (length s₂.arrays)
                status.conditions longer (omega arith) fresh,
          ),
          tt,
        );
      }

  pub copy_services-Copied :
      (svcs : List StoredService) (s : Store)
      → AllBetween 0 (length s.arrays) svcs
      → Copied s (copy_services m svcs s).1 svcs (copy_services m svcs s).0
  unfolding copy_services
  copy_services-Copied [] s h = record { extends = Extends-refl s; views = refl; fresh = tt }
  copy_services-Copied (svc ∷ svcs) s ((here, there), later) =
      let (out, s₁) = copy_service m svc s in
      let first = service-Copied svc s here there in
      let s₂ = (copy_services m svcs s₁).1 in
      let grown = Grown-length {a = s.arrays} {b = s₁.arrays} first.extends.arrays in
      let rest = copy_services-Copied svcs s₁ (
        AllBetween-wider 0 (length s.arrays) 0 (length s₁.arrays) svcs (omega arith) grown later) in
      let grown_again = Grown-length {a = s₁.arrays} {b = s₂.arrays} rest.extends.arrays in
      record {
        extends = Extends-trans {s = s} {t = s₁} {u = s₂} first.extends rest.extends;
        views =
            ap₂ ◌++◌
              (services-Extends {s = s₁} {t = s₂} (length s.arrays) (out ∷ []) rest.extends
                  first.fresh
                ∙ first.views)
              (rest.views ∙ services-Extends {s = s} {t = s₁} 0 svcs first.extends later);
        fresh = (
          (AllBetween-wider (length s.arrays) (length s₁.arrays) (length s.arrays)
              (length s₂.arrays) (out ∷ []) (omega arith) grown_again first.fresh).0,
          AllBetween-wider (length s₁.arrays) (length s₂.arrays) (length s.arrays)
              (length s₂.arrays) (copy_services m svcs s₁).0 grown (omega arith) rest.fresh,
        );
      }
