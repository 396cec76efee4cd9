-- ===== src/Release/Texts/Laws.antt =====
-- The functions of Go's `strings` that pkg/releaseinfo/releaseinfo.go parses labels by: what they do
-- to texts that were joined, and what their results look like.
use mathlib.Core.List.{reverse, reverse-append, append-nil, reverse-cons, reverse-reverse}
use hypershift_lite.Prelude.{
  ℕ, ◌≡◌, refl, ap, ◌∙◌, Bool, true, false, not, List, [], ◌∷◌, ◌++◌, some, nat_eq, all, arith, inl,
  inr, Bool-cases, Option-cases, if◌then◌else◌,
}
use hypershift_lite.Api.{Text}
use hypershift_lite.Release.Texts.{is_space, trim_left, trim_space, split_from, split, split_pair}

-- The separator is not in the text.
abbrev pub Lacks : ℕ → Text → Type 0
Lacks separator s = all (λ c. not (nat_eq c separator)) s ≡ true

abbrev pub AllLack : ℕ → List Text → Type 0
AllLack separator [] = Unit {0}
AllLack separator (t ∷ ts) = Lacks separator t × AllLack separator ts

-- Texts one behind another, each but the first one of a label with a separator before it.
abbrev pub joined : ℕ → Bool → List Text → Text
joined separator first [] = []
joined separator first (t ∷ ts) =
    (if first then [] else separator ∷ []) ++ (t ++ joined separator false ts)

pub nat_eq_sound : (a b : ℕ) → nat_eq a b ≡ true → a ≡ b
nat_eq_sound a b h = ground arith

module _ (separator : ℕ) where
  split_from-Lacks : (s : Text) → Lacks separator s → split_from separator s ≡ (s, [])
  unfolding split_from
  split_from-Lacks [] h = refl
  split_from-Lacks (c ∷ s) h = ground (arith, split_from-Lacks s)

  split_from-append :
      (s t : Text)
      → Lacks separator s
      → split_from separator (s ++ separator ∷ t) ≡ (s, split separator t)
  unfolding split_from split
  split_from-append [] t h = ground arith
  split_from-append (c ∷ s) t h = ground (arith, split_from-append s t)

  separated_tail :
      (ts : List Text)
      → AllLack separator ts
      → (t : Text) → Lacks separator t
      → split separator (t ++ joined separator false ts) ≡ t ∷ ts
  unfolding split
  separated_tail [] hs t h = rw (append-nil, split_from-Lacks t h) refl
  separated_tail (u ∷ us) (hu, hus) t h =
      rw (split_from-append t (u ++ joined separator false us) h)
        (ap (λ rest. t ∷ rest) (separated_tail us hus u hu))

  -- Texts without the separator are split again after they were joined.
  pub split-joined :
      (t : Text) (ts : List Text)
      → AllLack separator (t ∷ ts)
      → split separator (joined separator true (t ∷ ts)) ≡ t ∷ ts
  split-joined t ts (h, hs) = separated_tail ts hs t h

  pub split_pair-append :
      (s t : Text) → Lacks separator s → split_pair separator (s ++ separator ∷ t) ≡ some (s, t)
  unfolding split_pair
  split_pair-append [] t h = ground arith
  split_pair-append (c ∷ s) t h = ground (arith, split_pair-append s t)

  pub split_pair_sound :
      (s before behind : Text)
      → split_pair separator s ≡ some (before, behind)
      → s ≡ before ++ separator ∷ behind
  unfolding split_pair
  split_pair_sound [] before behind h = cc
  split_pair_sound (c ∷ s) before behind h = elim (Bool-cases (nat_eq c separator)) [
    | inl here ↦
        let found : some ([], s) ≡ some (before, behind) = rw (split_pair, here) at h in
        let start : c ≡ separator = nat_eq_sound c separator here in cc
    | inr later ↦ elim (Option-cases (split_pair separator s)) [
      | inl missing ↦ cc (rw (split_pair, later, missing) at h)
      | inr ((a, b), e) ↦
          let found : some (c ∷ a, b) ≡ some (before, behind) = rw (split_pair, later, e) at h in
          let parts = split_pair_sound s a b e in cc
    ]
  ]

-- Whether there is no white space at the start, and none at the end.
abbrev pub starts_tight : Text → Bool
starts_tight [] = true
starts_tight (c ∷ s) = not (is_space c)

abbrev pub ends_tight : Text → Bool
ends_tight s = starts_tight (reverse s)

trim_left-tight : (s : Text) → starts_tight s ≡ true → trim_left s ≡ s
unfolding trim_left
trim_left-tight [] h = refl
trim_left-tight (c ∷ s) h = ground arith

starts_tight-trim_left : (s : Text) → starts_tight (trim_left s) ≡ true
unfolding trim_left
starts_tight-trim_left [] = refl
starts_tight-trim_left (c ∷ s) = ground (arith, starts_tight-trim_left s)

-- A text without white space around it is left as it is.
pub trim_space-tight : (s : Text) → starts_tight s ≡ true → ends_tight s ≡ true → trim_space s ≡ s
unfolding trim_space
trim_space-tight s h k =
    rw (trim_left-tight s h, trim_left-tight (reverse s) k, reverse-reverse) refl

pub ends_tight-trim_space : (s : Text) → ends_tight (trim_space s) ≡ true
unfolding trim_space
ends_tight-trim_space s = rw (reverse-reverse) (starts_tight-trim_left (reverse (trim_left s)))

starts_tight-append :
    (s : Text) (c : ℕ) (t : Text) → starts_tight ((s ++ c ∷ []) ++ t) ≡ starts_tight (s ++ c ∷ [])
starts_tight-append [] c t = refl
starts_tight-append (d ∷ s) c t = refl

pub ends_tight-append : (s : Text) (c : ℕ) (t : Text) → ends_tight (s ++ c ∷ t) ≡ ends_tight (c ∷ t)
ends_tight-append s c t =
    rw (reverse-append, reverse-cons) (starts_tight-append (reverse t) c (reverse s))

pub ends_tight-cons : (c : ℕ) (t : Text) → is_space c ≡ false → ends_tight (c ∷ t) ≡ ends_tight t
ends_tight-cons c [] h = rw (h) refl
ends_tight-cons c (d ∷ t) h = ends_tight-append (c ∷ []) d t

abbrev pub AllTight : List Text → Type 0
AllTight [] = Unit {0}
AllTight (t ∷ ts) = (ends_tight t ≡ true) × AllTight ts

joined_later-tight :
    (separator : ℕ) (t : Text) (ts : List Text)
    → is_space separator ≡ false
    → AllTight (t ∷ ts)
    → ends_tight (t ++ joined separator false ts) ≡ true
joined_later-tight separator t [] h (tight, _) = rw (append-nil) tight
joined_later-tight separator t (u ∷ us) h (_, tight) =
    ends_tight-append t separator (u ++ joined separator false us)
    ∙ (ends_tight-cons separator (u ++ joined separator false us) h
        ∙ joined_later-tight separator u us h tight)

pub joined-tight :
    (separator : ℕ) (t : Text) (ts : List Text)
    → is_space separator ≡ false
    → AllTight (t ∷ ts)
    → ends_tight (joined separator true (t ∷ ts)) ≡ true
joined-tight separator t ts h tight = joined_later-tight separator t ts h tight

pub Lacks-append :
    (separator : ℕ) (s t : Text) → Lacks separator s → Lacks separator t → Lacks separator (s ++ t)
Lacks-append separator [] t h k = k
Lacks-append separator (c ∷ s) t h k = ground (arith, Lacks-append separator s t)
