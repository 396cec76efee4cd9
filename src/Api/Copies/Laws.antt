-- ===== src/Api/Copies/Laws.antt =====
-- Stores that grow, for the deep copies of pkg/api/v1alpha1: what was stored before reads as before.
use mathlib.Core.List.{append_assoc, append-nil}
use hypershift_lite.Prelude.{
  ℕ, suc, zero, ◌<◌, ◌≤◌, ◌≡◌, ◌≢◌, refl, sym, ap, ◌∙◌, List, [], ◌∷◌, ◌++◌, Option, none, some,
  length, get_elem?, set, map, arith, length-append,
}
use hypershift_lite.Api.Copies.{StoredMeta, StoredService, Array, Store}
use hypershift_lite.Api.Copies.Views.{array_view, meta_view}
use hypershift_lite.Api.Copies.Views.{service_view, Between}
use hypershift_lite.Api.Copies.Views.{MetaBetween, AllBetween, Grown}
use hypershift_lite.Api.Copies.Views.{Extends}

module _ {ℓ} {A : Type ℓ} where
  pub get_elem?-append :
      (xs ys : List A) (i : ℕ) → i < length xs → get_elem? (xs ++ ys) i ≡ get_elem? xs i
  get_elem?-append [] ys i h = absurd (omega (arith, h))
  get_elem?-append (x ∷ xs) ys zero h = refl
  get_elem?-append (x ∷ xs) ys (suc i) h = get_elem?-append xs ys i (omega (arith, h))

  pub get_elem?-length : (xs : List A) (x : A) → get_elem? (xs ++ x ∷ []) (length xs) ≡ some x
  get_elem?-length [] x = refl
  get_elem?-length (y ∷ xs) x = get_elem?-length xs x

  pub get_elem?-set :
      (xs : List A) (i j : ℕ) (x : A) → i ≢ j → get_elem? (set xs i x) j ≡ get_elem? xs j
  get_elem?-set [] i j x h = refl
  get_elem?-set (y ∷ xs) zero zero x h = absurd (h refl)
  get_elem?-set (y ∷ xs) zero (suc j) x h = refl
  get_elem?-set (y ∷ xs) (suc i) zero x h = refl
  get_elem?-set (y ∷ xs) (suc i) (suc j) x h = get_elem?-set xs i j x (λ e. h (ap suc e))

pub Grown-trans : {a b c : List Array} → Grown a b → Grown b c → Grown a c
Grown-trans {a} {b} {c} h k = record {
  more = h.more ++ k.more;
  kept = k.kept ∙ (ap (λ xs. xs ++ k.more) h.kept ∙ append_assoc a h.more k.more);
}

pub Grown-length : {a b : List Array} → Grown a b → length a ≤ length b
Grown-length {a} {b} h = rw (h.kept, length-append) (omega arith)

pub Extends-refl : (s : Store) → Extends s s
Extends-refl s = record {
  arrays = record { more = []; kept = sym (append-nil s.arrays) };
  services = refl;
}

pub Extends-trans : {s t u : Store} → Extends s t → Extends t u → Extends s u
Extends-trans {s} {t} {u} h k = record {
  arrays = Grown-trans {a = s.arrays} {b = t.arrays} {c = u.arrays} h.arrays k.arrays;
  services = k.services ∙ h.services;
}

pub array-Grown :
    {a b : List Array} (low : ℕ) (o : Option ℕ)
    → Grown a b
    → Between low (length a) o
    → array_view b o ≡ array_view a o
array-Grown low none h inside = refl
array-Grown {a} {b} low (some i) h (_, below) = rw (h.kept, get_elem?-append a h.more i below) refl

pub meta-Grown :
    {a b : List Array} (low : ℕ) (o : StoredMeta)
    → Grown a b
    → MetaBetween low (length a) o
    → meta_view b o ≡ meta_view a o
meta-Grown {a} {b} low o h (first, second, third) =
    rw
      (
        array-Grown {a = a} {b = b} low o.annotations h first,
        array-Grown {a = a} {b = b} low o.owner_references h second,
        array-Grown {a = a} {b = b} low o.deletion_timestamp h third,
      )
      refl

pub services-Extends :
    {s t : Store} (low : ℕ) (svcs : List StoredService)
    → Extends s t
    → AllBetween low (length s.arrays) svcs
    → map (service_view t) svcs ≡ map (service_view s) svcs
services-Extends low [] h inside = refl
services-Extends {s} {t} low (svc ∷ svcs) h ((first, second), later) =
    rw
      (
        meta-Grown {a = s.arrays} {b = t.arrays} low svc.metadata h.arrays first,
        array-Grown {a = s.arrays} {b = t.arrays} low svc.status.conditions h.arrays second,
        services-Extends {s = s} {t = t} low svcs h later,
      )
      refl

pub Between-wider :
    (low high low' high' : ℕ) (a : Option ℕ)
    → low' ≤ low
    → high ≤ high'
    → Between low high a
    → Between low' high' a
Between-wider low high low' high' none h k inside = tt
Between-wider low high low' high' (some a) h k inside =
    (omega (arith, inside.0), omega (arith, inside.1))

pub MetaBetween-wider :
    (low high low' high' : ℕ) (o : StoredMeta)
    → low' ≤ low
    → high ≤ high'
    → MetaBetween low high o
    → MetaBetween low' high' o
MetaBetween-wider low high low' high' o h k (first, second, third) = (
  Between-wider low high low' high' o.annotations h k first,
  Between-wider low high low' high' o.owner_references h k second,
  Between-wider low high low' high' o.deletion_timestamp h k third,
)

pub AllBetween-wider :
    (low high low' high' : ℕ) (svcs : List StoredService)
    → low' ≤ low
    → high ≤ high'
    → AllBetween low high svcs
    → AllBetween low' high' svcs
AllBetween-wider low high low' high' [] h k inside = tt
AllBetween-wider low high low' high' (svc ∷ svcs) h k ((first, second), later) = (
  (
    MetaBetween-wider low high low' high' svc.metadata h k first,
    Between-wider low high low' high' svc.status.conditions h k second,
  ),
  AllBetween-wider low high low' high' svcs h k later,
)
