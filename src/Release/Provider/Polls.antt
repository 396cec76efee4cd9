-- ===== src/Release/Provider/Polls.antt =====
-- The wait for the look-up pod: how many polls it takes, and what it returns.
use hypershift_lite.Prelude.{ℕ, zero, suc, ◌<◌, ◌≤◌, String, ◌≡◌, ◌≢◌, refl, none, arith}
use hypershift_lite.Prelude.Result.{Error, Result, ok, err, message}
use hypershift_lite.Api.{Pod, PodPhase}
use hypershift_lite.Client.{Client}
use hypershift_lite.Release.Provider.{poll_until, terminal, finished, timed_out}

-- From a state of the server, so many polls find the pod and find it neither succeeded nor failed,
-- and the next one ends the wait with a result, in a last state: nothing if the pod succeeded, an
-- error if it failed, and the error of the poll if there was one.
pub data Answers {Env : Type 0} (k : Client Env) (ns name : String)
    : k.State → ℕ → Result (Unit {0}) → k.State → Type 0 where
  succeeded :
      {s : k.State} (pod : Pod)
      → (k.get_pod ns name s).0 ≡ ok pod
      → pod.phase ≡ PodPhase.succeeded
      → Answers k ns name s 0 (ok tt) (k.get_pod ns name s).1
  failed :
      {s : k.State} (pod : Pod)
      → (k.get_pod ns name s).0 ≡ ok pod
      → pod.phase ≡ PodPhase.failed
      → Answers k ns name s 0 (err (message "image lookup pod failed")) (k.get_pod ns name s).1
  unread :
      {s : k.State} {e : Error}
      → (k.get_pod ns name s).0 ≡ err e
      → Answers k ns name s 0 (err e) (k.get_pod ns name s).1
  later :
      {s t : k.State} {n : ℕ} {r : Result (Unit {0})} (pod : Pod)
      → (k.get_pod ns name s).0 ≡ ok pod
      → pod.phase ≢ PodPhase.succeeded
      → pod.phase ≢ PodPhase.failed
      → Answers k ns name (k.get_pod ns name s).1 n r t
      → Answers k ns name s (suc n) r t

unfinished :
    (phase : PodPhase)
    → phase ≢ PodPhase.succeeded
    → phase ≢ PodPhase.failed
    → terminal phase ≡ none
unfinished PodPhase.succeeded h k = absurd (h refl)
unfinished PodPhase.failed h k = absurd (k refl)
unfinished _ h k = refl

module _ {Env : Type 0} (k : Client Env) (ns name : String) where
  -- If the polls after some number of them end the wait, by the phase of the pod or by an error, then
  -- a wait whose context lets as many polls follow the first one returns this result, and one
  -- with fewer times out.
  pub poll_until-Answers :
      (polls n : ℕ) {s t : k.State} {r : Result (Unit {0})}
      → Answers k ns name s n r t
      → (n ≤ polls → poll_until k polls ns name s ≡ (finished r, t))
        × (polls < n → (poll_until k polls ns name s).0 ≡ timed_out)
  unfolding poll_until
  poll_until-Answers zero n (succeeded pod e up) =
      (λ more. rw (poll_until, e, up) refl, λ few. absurd (omega (arith, few)))
  poll_until-Answers zero n (failed pod e down) =
      (λ more. rw (poll_until, e, down) refl, λ few. absurd (omega (arith, few)))
  poll_until-Answers zero n (unread e) =
      (λ more. rw (poll_until, e) refl, λ few. absurd (omega (arith, few)))
  poll_until-Answers zero n (later pod e up down rest) = (
    λ more. absurd (omega (arith, more)),
    λ few. rw (poll_until, e, unfinished pod.phase up down) refl,
  )
  poll_until-Answers (suc polls) n (succeeded pod e up) =
      (λ more. rw (poll_until, e, up) refl, λ few. absurd (omega (arith, few)))
  poll_until-Answers (suc polls) n (failed pod e down) =
      (λ more. rw (poll_until, e, down) refl, λ few. absurd (omega (arith, few)))
  poll_until-Answers (suc polls) n (unread e) =
      (λ more. rw (poll_until, e) refl, λ few. absurd (omega (arith, few)))
  poll_until-Answers (suc polls) n (later pod e up down rest) =
      let (enough, short) = poll_until-Answers polls _ rest in
      (
        λ more. rw (poll_until, e, unfinished pod.phase up down) (enough (omega (arith, more))),
        λ few. rw (poll_until, e, unfinished pod.phase up down) (short (omega (arith, few))),
      )
