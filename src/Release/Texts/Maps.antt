-- ===== src/Release/Texts/Maps.antt =====
-- Go maps with texts for keys, as pkg/releaseinfo/releaseinfo.go uses them: laws of a look-up after a
-- write, and of the keys.
use mathlib.Core.List.{
  Mem, Pairwise, Nodup, mem-cons_self, mem-cons_of_mem, eq-or-mem_of_mem-cons,
  perm_ext_iff_of_Nodup, Pairwise-singleton, not-mem-nil, Mem-prop,
}
use mathlib.Core.Logic.Or
use mathlib.Core.Path.{subst}
use mathlib.Core.HLevel.{⊥_prop}
use hypershift_lite.Prelude.{
  ◌≡◌, ◌≢◌, refl, sym, ◌∙◌, ap, false, List, [], ◌∷◌, none, some, arith, inl, inr,
}
use hypershift_lite.Prelude.{Bool-cases, Option-cases, if◌then◌else◌}
use hypershift_lite.Api.{Text}
use hypershift_lite.Release.Texts.{text_eq, find, put, keys, sort_texts}
use hypershift_lite.Release.Texts.Order.{text_eq_refl, text_eq_sound, text_eq_iff}
use hypershift_lite.Release.Texts.Sorting.{sort_texts-of_perm}

pub text_eq_ne : (s t : Text) → s ≢ t → text_eq s t ≡ false
text_eq_ne s t h = elim (Bool-cases (text_eq s t)) [
  | inl e ↦ absurd (h (text_eq_sound s t e))
  | inr e ↦ e
]

pub text_eq-false : (s t : Text) → text_eq s t ≡ false → s ≢ t
text_eq-false s t h e = cc (rw (e, text_eq_refl) at h)

mem_later : (j k : Text) (ks : List Text) → Mem j (k ∷ ks) → text_eq k j ≡ false → Mem j ks
mem_later j k ks n other =
    Or.elim Mem-prop (eq-or-mem_of_mem-cons n) (λ e. absurd (text_eq-false k j other (sym e)))
      (λ r. r)

module _ {ℓ} {V : Type ℓ} where
  -- No key twice.
  abbrev pub IsMap : List (Text × V) → Type 0
  IsMap m = Nodup (keys m)

  pub find-put :
      (j k : Text) (v : V) (m : List (Text × V))
      → find k (put j v m) ≡ (if text_eq j k then some v else find k m)
  unfolding find put
  find-put j k v [] = refl
  find-put j k v ((i, w) ∷ m) =
      ground (arith, find-put j k v m, text_eq_iff i j, text_eq_iff i k, text_eq_iff j k)

  pub key_of_find : (k : Text) (v : V) (m : List (Text × V)) → find k m ≡ some v → Mem k (keys m)
  unfolding find
  key_of_find k v [] h = cc
  key_of_find k v ((j, w) ∷ m) h = elim (Bool-cases (text_eq j k)) [
    | inl same ↦ subst (λ i. Mem i (j ∷ keys m)) (text_eq_sound j k same) mem-cons_self
    | inr other ↦ mem-cons_of_mem j (key_of_find k v m (rw (find, other) at h))
  ]

  pub no_key_of_find : (k : Text) (m : List (Text × V)) → find k m ≡ none → ¬ Mem k (keys m)
  unfolding find
  no_key_of_find k [] h n = absurd (not-mem-nil n)
  no_key_of_find k ((j, w) ∷ m) h n = elim (Bool-cases (text_eq j k)) [
    | inl same ↦ cc (rw (find, same) at h)
    | inr other ↦
        Or.elim ⊥_prop (eq-or-mem_of_mem-cons n) (λ e. cc (rw (e, text_eq_refl) at other))
          (no_key_of_find k m (rw (find, other) at h))
  ]

  pub find_of_key :
      (k : Text) (m : List (Text × V)) → Mem k (keys m) → (v : V) × (find k m ≡ some v)
  find_of_key k m n = elim (Option-cases (find k m)) [
    | inl missing ↦ absurd (no_key_of_find k m missing n)
    | inr hit ↦ hit
  ]

  keys-put :
      (i k : Text) (v : V) (m : List (Text × V)) → Mem i (keys (put k v m)) → i ≢ k → Mem i (keys m)
  keys-put i k v m n other =
      let (w, e) = find_of_key i (put k v m) n in
      key_of_find i w m (rw (find-put k i v m, text_eq_ne k i (λ h. other (sym h))) at e)

  pub put-IsMap : (k : Text) (v : V) (m : List (Text × V)) → IsMap m → IsMap (put k v m)
  unfolding put
  put-IsMap k v [] h = Pairwise-singleton _ k
  put-IsMap k v ((j, w) ∷ m) (Pairwise.cons fresh rest) = elim (Bool-cases (text_eq j k)) [
    | inl same ↦
        rw (same)
          (subst (λ i. IsMap ((i, v) ∷ m)) (text_eq_sound j k same) (Pairwise.cons fresh rest))
    | inr other ↦ rw (other) (
        Pairwise.cons
          (λ i n e. fresh i (keys-put i k v m n (λ h. text_eq-false j k other (e ∙ h))) e)
          (put-IsMap k v m rest))
  ]

  -- Two lists stand for one map.
  abbrev pub SameMap : List (Text × V) → List (Text × V) → Type ℓ
  SameMap m n = (k : Text) → find k m ≡ find k n

  keys-of_SameMap :
      (m n : List (Text × V)) → SameMap m n → (k : Text) → Mem k (keys m) → Mem k (keys n)
  keys-of_SameMap m n same k here =
      let (v, e) = find_of_key k m here in key_of_find k v n (sym (same k) ∙ e)

  -- The keys in order do not depend on the list that stands for the map.
  pub sort_texts-keys :
      (m n : List (Text × V))
      → IsMap m
      → IsMap n
      → SameMap m n
      → sort_texts (keys m) ≡ sort_texts (keys n)
  sort_texts-keys m n hm hn same = sort_texts-of_perm (keys m) (keys n) (
      (perm_ext_iff_of_Nodup hm hn).1
        (λ k. (keys-of_SameMap m n same k, keys-of_SameMap n m (λ i. sym (same i)) k)))

  -- What holds of every entry, still holds after a write of one of which it holds.
  pub put-each :
      (P : Text → V → Type 0) (k : Text) (v : V) (m : List (Text × V))
      → P k v
      → ((j : Text) (w : V) → find j m ≡ some w → P j w)
      → (j : Text) (w : V) → find j (put k v m) ≡ some w
      → P j w
  put-each P k v m new old j w h = elim (Bool-cases (text_eq k j)) [
    | inl here ↦
        let written : some v ≡ some w = rw (find-put, here) at h in
        let value : v ≡ w = cc in
        subst (λ i. P i w) (text_eq_sound k j here) (subst (P k) value new)
    | inr other ↦ old j w (rw (find-put, other) at h)
  ]

  -- An empty map has no entry.
  pub empty-each : (P : Type 0) (j : Text) (w : V) → find j [] ≡ some w → P
  unfolding find
  empty-each P j w h = cc

  -- Writes of one value for each of some keys.
  abbrev pub put_keys : (Text → V) → List (Text × V) → List Text → List (Text × V)
  put_keys f m [] = m
  put_keys f m (k ∷ ks) = put_keys f (put k (f k) m) ks

  put_keys-kept :
      (f : Text → V) (m : List (Text × V)) (ks : List Text) (j : Text)
      → find j m ≡ some (f j)
      → find j (put_keys f m ks) ≡ some (f j)
  put_keys-kept f m [] j h = h
  put_keys-kept f m (k ∷ ks) j h =
      put_keys-kept f (put k (f k) m) ks j (elim (Bool-cases (text_eq k j)) [
        | inl here ↦ rw (find-put, here) (ap (λ i. some (f i)) (text_eq_sound k j here))
        | inr other ↦ rw (find-put, other) h
      ])

  pub find-put_keys :
      (f : Text → V) (m : List (Text × V)) (ks : List Text) (j : Text)
      → Mem j ks
      → find j (put_keys f m ks) ≡ some (f j)
  find-put_keys f m [] j n = absurd (not-mem-nil n)
  find-put_keys f m (k ∷ ks) j n = elim (Bool-cases (text_eq k j)) [
    | inl here ↦
        put_keys-kept f (put k (f k) m) ks j
          (rw (find-put, here) (ap (λ i. some (f i)) (text_eq_sound k j here)))
    | inr other ↦ find-put_keys f (put k (f k) m) ks j (mem_later j k ks n other)
  ]

  pub find-put_keys_other :
      (f : Text → V) (m : List (Text × V)) (ks : List Text) (j : Text)
      → ¬ Mem j ks
      → find j (put_keys f m ks) ≡ find j m
  find-put_keys_other f m [] j n = refl
  find-put_keys_other f m (k ∷ ks) j n =
      find-put_keys_other f (put k (f k) m) ks j (λ later. n (mem-cons_of_mem k later))
      ∙ rw (find-put, text_eq_ne k j (λ e. n (subst (λ i. Mem i (k ∷ ks)) e mem-cons_self))) refl
