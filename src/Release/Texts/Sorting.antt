-- ===== src/Release/Texts/Sorting.antt =====
-- `sort.Strings` of pkg/releaseinfo/releaseinfo.go: the result is in order and has the texts that
-- were given, so it does not depend on their order.
use mathlib.Core.List.{
  Mem, Perm, Pairwise, Pairwise-singleton, mem-cons_self, eq-or-mem_of_mem-cons,
}
use mathlib.Core.List.Perm
use mathlib.Core.List.Pairwise
use mathlib.Core.Path.{ap₂, subst}
use mathlib.Core.Logic.Or
use hypershift_lite.Prelude.{◌≡◌, sym, List, [], ◌∷◌, inl, inr, Bool-cases}
use hypershift_lite.Api.{Text}
use hypershift_lite.Release.Texts.{text_lt, insert_sorted, sort_texts}
use hypershift_lite.Release.Texts.Order.{◌≼◌, ≼_trans, ≼_antisymm, text_lt_irrefl, text_lt_asymm}

abbrev pub IsOrdered : List Text → Type 0
IsOrdered = Pairwise ◌≼◌

≼_prop : (s t : Text) → IsProp (s ≼ t)
≼_prop s t = hlevel

insert_sorted-perm : (k : Text) (ts : List Text) → Perm (insert_sorted k ts) (k ∷ ts)
unfolding insert_sorted
insert_sorted-perm k [] = Perm.rfl
insert_sorted-perm k (j ∷ js) = elim (Bool-cases (text_lt j k)) [
  | inl before ↦ rw (before) (Perm.trans (Perm.cons j (insert_sorted-perm k js)) (Perm.swap k j js))
  | inr behind ↦ rw (behind) Perm.rfl
]

-- What a text must not be behind of, for a head and for the rest.
least_cons :
    (k j : Text) (js : List Text)
    → k ≼ j
    → ((t : Text) → Mem t js → k ≼ t)
    → (t : Text) → Mem t (j ∷ js)
    → k ≼ t
least_cons k j js first later t m =
    Or.elim (≼_prop k t) (eq-or-mem_of_mem-cons m) (λ e. subst (λ u. k ≼ u) (sym e) first) (later t)

-- A text that is not behind the head of an ordered list is not behind any of it.
head_least :
    (k j : Text) (js : List Text)
    → k ≼ j
    → ((t : Text) → Mem t js → j ≼ t)
    → (t : Text) → Mem t (j ∷ js)
    → k ≼ t
head_least k j js first later = least_cons k j js first (λ t m. ≼_trans k j t first (later t m))

insert_sorted-IsOrdered :
    (k : Text) (ts : List Text) → IsOrdered ts → IsOrdered (insert_sorted k ts)
unfolding insert_sorted
insert_sorted-IsOrdered k [] h = Pairwise-singleton _ k
insert_sorted-IsOrdered k (j ∷ js) (Pairwise.cons least rest) = elim (Bool-cases (text_lt j k)) [
  | inl before ↦ rw (before) (
      Pairwise.cons
        (λ t m.
          least_cons j k js (text_lt_asymm j k before) least t
            ((Perm.mem_iff (insert_sorted-perm k js)).0 m))
        (insert_sorted-IsOrdered k js rest))
  | inr behind ↦
      rw (behind) (Pairwise.cons (head_least k j js behind least) (Pairwise.cons least rest))
]

-- The sorted texts are in order.
pub sort_texts-IsOrdered : (ts : List Text) → IsOrdered (sort_texts ts)
unfolding sort_texts
sort_texts-IsOrdered [] = Pairwise.nil
sort_texts-IsOrdered (k ∷ ks) = insert_sorted-IsOrdered k _ (sort_texts-IsOrdered ks)

pub sort_texts-perm : (ts : List Text) → Perm (sort_texts ts) ts
unfolding sort_texts
sort_texts-perm [] = Perm.rfl
sort_texts-perm (k ∷ ks) =
    Perm.trans (insert_sorted-perm k (sort_texts ks)) (Perm.cons k (sort_texts-perm ks))

head_of_perm :
    (j k : Text) (js ks : List Text) → IsOrdered (j ∷ js) → Perm (k ∷ ks) (j ∷ js) → j ≼ k
head_of_perm j k js ks (Pairwise.cons least _) p =
    head_least j j js (text_lt_irrefl j) least k ((Perm.mem_iff p).0 mem-cons_self)

-- Two ordered lists of the same texts are one list.
pub ordered_unique : (ss ts : List Text) → IsOrdered ss → IsOrdered ts → Perm ss ts → ss ≡ ts
ordered_unique [] ts hs ht p = Perm.nil-eq p
ordered_unique (j ∷ js) [] hs ht p = Perm.eq-nil p
ordered_unique (j ∷ js) (k ∷ ks) hs ht p =
    let same =
      ≼_antisymm j k (head_of_perm j k js ks hs (Perm.symm p)) (head_of_perm k j ks js ht p) in
    let below = Perm.cons_inv (Perm.trans p (Perm.symm (Perm.cons' same Perm.rfl))) in
    ap₂ ◌∷◌ same (ordered_unique js ks (Pairwise.of_cons hs) (Pairwise.of_cons ht) below)

pub sort_texts-of_perm : (ss ts : List Text) → Perm ss ts → sort_texts ss ≡ sort_texts ts
sort_texts-of_perm ss ts p =
    ordered_unique _ _ (sort_texts-IsOrdered ss) (sort_texts-IsOrdered ts)
      (Perm.trans (sort_texts-perm ss) (Perm.trans p (Perm.symm (sort_texts-perm ts))))
