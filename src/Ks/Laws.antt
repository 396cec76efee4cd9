-- ===== src/Ks/Laws.antt =====
-- Setting and getting conditions.
use hypershift_lite.Prelude.{ℕ, String, ◌≡◌, ◌∙◌, refl, [], ◌∷◌, ◌++◌, Option, none, some}
use hypershift_lite.Prelude.{◌==◌, if◌then◌else◌, arith, eq_iff, eq_refl, inl, inr, Option-cases}
use hypershift_lite.Prelude.{ap, nat_eq}
use hypershift_lite.Api.{ConditionStatus, KubernetesServiceCondition}
use hypershift_lite.Ks.{Conditions, get_condition_by_type, write_condition, updated_condition}
use hypershift_lite.Ks.{same_status, set_condition_by_type}

-- No two conditions have one type.
abbrev pub NodupTypes : Conditions → Type 0
NodupTypes [] = Unit {0}
NodupTypes (c ∷ cs) = (get_condition_by_type cs c.type ≡ none) × NodupTypes cs

type-get :
    (cs : Conditions) (t : String) (v : KubernetesServiceCondition)
    → get_condition_by_type cs t ≡ some v
    → v.type ≡ t
unfolding get_condition_by_type
type-get [] t v h = cc
type-get (w ∷ cs) t v h = ground (arith, type-get cs t v, eq_iff w.type t)

module _ (t : String) (c : KubernetesServiceCondition) (typed : c.type ≡ t) where
  get-append :
      (cs : Conditions) (u : String)
      → get_condition_by_type cs t ≡ none
      → get_condition_by_type (cs ++ c ∷ []) u
        ≡ (if t == u then some c else get_condition_by_type cs u)
  unfolding get_condition_by_type
  get-append [] u h = rw typed
  get-append (v ∷ cs) u h =
      ground (arith, get-append cs u, eq_iff v.type u, eq_iff t u, eq_iff v.type t)

  get-write :
      (cs : Conditions) (v : KubernetesServiceCondition) (u : String)
      → get_condition_by_type cs t ≡ some v
      → get_condition_by_type (write_condition cs t c) u
        ≡ (if t == u then some c else get_condition_by_type cs u)
  unfolding get_condition_by_type write_condition
  get-write [] v u h = cc
  get-write (w ∷ cs) v u h =
      ground
        (arith, get-write cs v u, eq_iff w.type u, eq_iff t u, eq_iff w.type t, eq_iff c.type u)

  append-NodupTypes :
      (cs : Conditions)
      → get_condition_by_type cs t ≡ none
      → NodupTypes cs
      → NodupTypes (cs ++ c ∷ [])
  unfolding get_condition_by_type
  append-NodupTypes [] h u = (refl, tt)
  append-NodupTypes (v ∷ cs) h u =
      ground (arith, append-NodupTypes cs, get-append cs v.type, eq_iff v.type t, eq_iff t v.type)

  write-NodupTypes :
      (cs : Conditions) (v : KubernetesServiceCondition)
      → get_condition_by_type cs t ≡ some v
      → NodupTypes cs
      → NodupTypes (write_condition cs t c)
  unfolding get_condition_by_type write_condition
  write-NodupTypes [] v h u = tt
  write-NodupTypes (w ∷ cs) v h u =
      ground (arith, write-NodupTypes cs v, get-write cs v w.type, eq_iff w.type t, eq_iff t w.type)

  write-write :
      (cs : Conditions) (d : KubernetesServiceCondition)
      → write_condition (write_condition cs t c) t d ≡ write_condition cs t d
  unfolding write_condition
  write-write [] d = refl
  write-write (w ∷ cs) d = ground (arith, write-write cs d, eq_iff w.type t, eq_iff c.type t)

  write-append :
      (cs : Conditions) (d : KubernetesServiceCondition)
      → get_condition_by_type cs t ≡ none
      → write_condition (cs ++ c ∷ []) t d ≡ cs ++ d ∷ []
  unfolding write_condition get_condition_by_type
  write-append [] d h = ground (arith, eq_iff c.type t)
  write-append (w ∷ cs) d h = ground (arith, write-append cs d)

-- Statuses by number.
abbrev pub status_code : ConditionStatus → ℕ
status_code ConditionStatus.true_status = 0
status_code ConditionStatus.false_status = 1
status_code ConditionStatus.unknown = 2

same_status_code :
    (a b : ConditionStatus) → same_status a b ≡ nat_eq (status_code a) (status_code b)
unfolding same_status
same_status_code ConditionStatus.true_status ConditionStatus.true_status = refl
same_status_code ConditionStatus.true_status ConditionStatus.false_status = refl
same_status_code ConditionStatus.true_status ConditionStatus.unknown = refl
same_status_code ConditionStatus.false_status ConditionStatus.true_status = refl
same_status_code ConditionStatus.false_status ConditionStatus.false_status = refl
same_status_code ConditionStatus.false_status ConditionStatus.unknown = refl
same_status_code ConditionStatus.unknown ConditionStatus.true_status = refl
same_status_code ConditionStatus.unknown ConditionStatus.false_status = refl
same_status_code ConditionStatus.unknown ConditionStatus.unknown = refl

module _ (now : ℕ) (t : String) (status : ConditionStatus) (reason message : String) where
  set_new :
      (cs : Conditions)
      → get_condition_by_type cs t ≡ none
      → set_condition_by_type now t status reason message cs
        ≡ cs ++ updated_condition now t status reason message none ∷ []
  unfolding set_condition_by_type
  set_new cs e = rw (e, set_condition_by_type)

  set_existing :
      (cs : Conditions) (v : KubernetesServiceCondition)
      → get_condition_by_type cs t ≡ some v
      → set_condition_by_type now t status reason message cs
        ≡ write_condition cs t (updated_condition now t status reason message (some v))
  unfolding set_condition_by_type
  set_existing cs v e = rw (e, set_condition_by_type)

  type-updated :
      (cs : Conditions) (v : KubernetesServiceCondition)
      → get_condition_by_type cs t ≡ some v
      → (updated_condition now t status reason message (some v)).type ≡ t
  unfolding updated_condition
  type-updated cs v e = type-get cs t v e

  type-updated_none : (updated_condition now t status reason message none).type ≡ t
  unfolding updated_condition
  type-updated_none = refl

  pub get-set_updated :
      (cs : Conditions) (u : String)
      → get_condition_by_type (set_condition_by_type now t status reason message cs) u ≡ (
          if t == u
          then some (updated_condition now t status reason message (get_condition_by_type cs t))
          else get_condition_by_type cs u)
  get-set_updated cs u = elim (Option-cases (get_condition_by_type cs t)) [
    | inl e ↦ rw (set_new cs e, e) (get-append t _ type-updated_none cs u e)
    | inr (v, e) ↦ rw (set_existing cs v e, e) (get-write t _ (type-updated cs v e) cs v u e)
  ]

  -- The values of the call, with the time at which the status became what it is.
  abbrev pub transition_time : Option KubernetesServiceCondition → ℕ
  transition_time none = now
  transition_time (some old) =
      if nat_eq (status_code old.status) (status_code status) then old.last_transition_time else now

  abbrev pub set_to : Option KubernetesServiceCondition → KubernetesServiceCondition
  set_to old = record {
    type = t;
    status = status;
    last_transition_time = transition_time old;
    reason = reason;
    message = message;
  }

  updated-set_to :
      (cs : Conditions) (o : Option KubernetesServiceCondition)
      → get_condition_by_type cs t ≡ o
      → updated_condition now t status reason message o ≡ set_to o
  unfolding updated_condition
  updated-set_to cs none e = refl
  updated-set_to cs (some v) e =
      rw (type-get cs t v e, same_status_code v.status status, updated_condition) refl

  -- After SetConditionByType the first condition of the type that was set has the status, the reason
  -- and the message of the call. Its time is that of the call if there was no such condition or its
  -- status was another one, and the old time otherwise. The first condition of any other type is as
  -- before.
  pub get-set :
      (cs : Conditions) (u : String)
      → get_condition_by_type (set_condition_by_type now t status reason message cs) u ≡ (
          if t == u then some (set_to (get_condition_by_type cs t)) else get_condition_by_type cs u)
  get-set cs u =
      get-set_updated cs u
      ∙ ap (λ c. if t == u then some c else get_condition_by_type cs u)
          (updated-set_to cs (get_condition_by_type cs t) refl)

  -- SetConditionByType keeps the conditions free of duplicate types.
  pub set-NodupTypes :
      (cs : Conditions)
      → NodupTypes cs
      → NodupTypes (set_condition_by_type now t status reason message cs)
  set-NodupTypes cs u = elim (Option-cases (get_condition_by_type cs t)) [
    | inl e ↦ rw (set_new cs e) (append-NodupTypes t _ type-updated_none cs e u)
    | inr (v, e) ↦ rw (set_existing cs v e) (write-NodupTypes t _ (type-updated cs v e) cs v e u)
  ]

  updated-updated :
      (later : ℕ) (o : Option KubernetesServiceCondition)
      → updated_condition later t status reason message
          (some (updated_condition now t status reason message o))
        ≡ updated_condition now t status reason message o
  unfolding updated_condition same_status
  updated-updated later none = ground arith
  updated-updated later (some v) = ground arith

module _ (now later : ℕ) (t : String) (status : ConditionStatus) (reason message : String) where
  rewrite_same :
      (cs : Conditions) (o : Option KubernetesServiceCondition)
      → get_condition_by_type cs t ≡ o
      → set_condition_by_type later t status reason message
          (set_condition_by_type now t status reason message cs)
        ≡ write_condition
            (set_condition_by_type now t status reason message cs)
            t
            (updated_condition now t status reason message o)
  rewrite_same cs o e =
      set_existing later t status reason message
        (set_condition_by_type now t status reason message cs)
        (updated_condition now t status reason message o)
        (rw (get-set_updated now t status reason message cs t, eq_refl, e))
      ∙ rw (updated-updated now t status reason message later o)

  -- A repeated SetConditionByType with the same values, at any later time, changes nothing: the transition time
  -- too stays that of the first call.
  pub set-set :
      (cs : Conditions)
      → set_condition_by_type later t status reason message
          (set_condition_by_type now t status reason message cs)
        ≡ set_condition_by_type now t status reason message cs
  set-set cs = elim (Option-cases (get_condition_by_type cs t)) [
    | inl e ↦
        rewrite_same cs none e
        ∙ rw (set_new now t status reason message cs e)
            (write-append t _ (type-updated_none now t status reason message) cs _ e)
    | inr (v, e) ↦
        rewrite_same cs (some v) e
        ∙ rw (set_existing now t status reason message cs v e)
            (write-write t _ (type-updated now t status reason message cs v e) cs _)
  ]
