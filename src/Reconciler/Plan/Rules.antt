-- ===== src/Reconciler/Plan/Rules.antt =====
-- Rules for each way in which the components are written, from what they do to the plan they follow.
use mathlib.Core.List.{append_assoc, append-nil}
use hypershift_lite.Prelude.{◌≡◌, refl, sym, ap, ◌∙◌, List, [], ◌∷◌, ◌++◌}
use hypershift_lite.Prelude.Result.{Error, Result, ok, err}
use hypershift_lite.Prelude.Action.{Action, pure, raise, continue, ◌>>=◌}
use hypershift_lite.Client.{Client}
use hypershift_lite.Reconciler.World.{World}
use hypershift_lite.Reconciler.Recorded.{recorded}
use hypershift_lite.Reconciler.Plan.{Write, writes, logged, Begun, Ended, Completes, Follows}
use hypershift_lite.Reconciler.Phases.Keeps.{Keeps}

logged-append : (p q before : List Write) → logged (p ++ q) before ≡ logged q (logged p before)
logged-append [] q before = refl
logged-append (w ∷ p) q before = logged-append p q (w ∷ before)

pub Begun-none : (plan before : List Write) → Begun plan before before
Begun-none plan before = record { made = []; left = plan; split = refl; done = refl }

-- A plan that is begun is the beginning of a longer one.
pub Begun-longer :
    (p q before later : List Write) → Begun p before later → Begun (p ++ q) before later
Begun-longer p q before later b = record {
  made = b.made;
  left = b.left ++ q;
  split = ap (λ ws. ws ++ q) b.split ∙ append_assoc b.made b.left q;
  done = b.done;
}

-- What comes after a whole plan.
Begun-after :
    (p q before between later : List Write)
    → between ≡ logged p before
    → Begun q between later
    → Begun (p ++ q) before later
Begun-after p q before between later h b = record {
  made = p ++ b.made;
  left = b.left;
  split = ap (λ ws. p ++ ws) b.split ∙ sym (append_assoc p b.made b.left);
  done = b.done ∙ (ap (logged b.made) h ∙ sym (logged-append p b.made before));
}

Begun-of_Ended :
    {A : Type 0} (p before later : List Write) (r : Result A)
    → Ended p r before later
    → Begun p before later
Begun-of_Ended p before later (ok a) h = record {
  made = p;
  left = [];
  split = sym (append-nil p);
  done = h;
}
Begun-of_Ended p before later (err e) h = h

Ended-after :
    {A : Type 0} (p q before between later : List Write) (r : Result A)
    → between ≡ logged p before
    → Ended q r between later
    → Ended (p ++ q) r before later
Ended-after p q before between later (ok a) h e =
    e ∙ (ap (logged q) h ∙ sym (logged-append p q before))
Ended-after p q before between later (err x) h e = Begun-after p q before between later h e

module _ {Env : Type 0} (k : Client Env) {A B : Type 0} (p q : List Write) where
  Completes-continue :
      (r : Result A) (f : A → Action (World (recorded k)) B) (w : World (recorded k))
      (before : List Write)
      → Ended p r before (writes w.api.1)
      → ((a : A) → r ≡ ok a → Completes k q (f a))
      → Ended (p ++ q) (continue r f w).0 before (writes (continue r f w).1.api.1)
  Completes-continue (ok a) f w before h next =
      Ended-after p q before (writes w.api.1) _ (f a w).0 h ((next a refl).at w)
  Completes-continue (err e) f w before h next = Begun-longer p q before (writes w.api.1) h

  -- One action after another. The second may use what the first can return.
  pub Completes-bind_of :
      (Q : A → Type 0) (m : Action (World (recorded k)) A) (f : A → Action (World (recorded k)) B)
      → Completes k p m
      → ((w : World (recorded k)) (a : A) → (m w).0 ≡ ok a → Q a)
      → ((a : A) → Q a → Completes k q (f a))
      → Completes k (p ++ q) (m >>= f)
  unfolding ◌>>=◌
  Completes-bind_of Q m f first made next = record {
    at = λ w.
        Completes-continue (m w).0 f (m w).1 (writes w.api.1) (first.at w)
          (λ a e. next a (made w a e));
  }

  Follows-continue :
      (r : Result A) (f : A → Action (World (recorded k)) B) (w : World (recorded k))
      (before : List Write)
      → Ended p r before (writes w.api.1)
      → ((a : A) → Follows k q (f a))
      → Begun (p ++ q) before (writes (continue r f w).1.api.1)
  Follows-continue (ok a) f w before h next =
      Begun-after p q before (writes w.api.1) _ h ((next a).at w)
  Follows-continue (err e) f w before h next = Begun-longer p q before (writes w.api.1) h

  pub Follows-bind :
      (m : Action (World (recorded k)) A) (f : A → Action (World (recorded k)) B)
      → Completes k p m
      → ((a : A) → Follows k q (f a))
      → Follows k (p ++ q) (m >>= f)
  unfolding ◌>>=◌
  Follows-bind m f first next = record {
    at = λ w. Follows-continue (m w).0 f (m w).1 (writes w.api.1) (first.at w) next;
  }

module _ {Env : Type 0} (k : Client Env) {A : Type 0} where
  pub Follows-of_Completes :
      (p q : List Write) (m : Action (World (recorded k)) A)
      → Completes k p m
      → Follows k (p ++ q) m
  Follows-of_Completes p q m h = record {
    at = λ w.
        Begun-longer p q (writes w.api.1) _ (Begun-of_Ended p (writes w.api.1) _ (m w).0 (h.at w));
  }

  pub Follows-pure : (p : List Write) (a : A) → Follows k p (pure a)
  unfolding pure
  Follows-pure p a = record { at = λ w. Begun-none p (writes w.api.1) }

  pub Follows-raise : (p : List Write) (e : Error) → Follows k {A = A} p (raise e)
  unfolding raise
  Follows-raise p e = record { at = λ w. Begun-none p (writes w.api.1) }

  pub Completes-pure : (a : A) → Completes k [] (pure a)
  unfolding pure
  Completes-pure a = record { at = λ w. refl }

  -- An action without writes.
  pub Completes-none :
      (m : Action (World (recorded k)) A)
      → ((ws : List Write) → Keeps k (λ r. writes r ≡ ws) m)
      → Completes k [] m
  Completes-none m keep = record {
    at = λ w. none_written (m w).0 (writes w.api.1) _ ((keep (writes w.api.1)).at w refl);
  }
    where
      none_written :
          (r : Result A) (before later : List Write) → later ≡ before → Ended [] r before later
      none_written (ok a) before later h = h
      none_written (err e) before later h = record { made = []; left = []; split = refl; done = h }
