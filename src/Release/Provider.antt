-- ===== src/Release/Provider.antt =====
-- `PodProvider.Lookup` of pkg/releaseinfo/pod_provider.go.
pub mod Cleanup
pub mod Polls
use hypershift_lite.Prelude.{
  ℕ, zero, suc, String, ◌<>◌, List, [], ◌∷◌, Option, none, Bool, true, false,
}
use hypershift_lite.Prelude.Result.{Error, Result, ok, err, message, wrap}
use hypershift_lite.Api.{Pod, PodPhase, RestartPolicy, Platform, ImageStream, named, container}
use hypershift_lite.Api.{pod_spec}
use hypershift_lite.Prelude.Action.{Action}
use hypershift_lite.Client.{Client}
use hypershift_lite.Release.Images.{ReleaseImage}

unfoldable pub lookup_pod : String → String → Pod
lookup_pod image pull_secret_name = record {
  metadata = record (named "" "") { generate_name = "image-lookup" };
  spec = record pod_spec {
    restart_policy = RestartPolicy.never;
    image_pull_secrets = pull_secret_name ∷ [];
    containers =
        record (container "lookup" image) {
          command = "/usr/bin/cat" ∷ "/release-manifests/image-references" ∷ [];
        }
        ∷ [];
  };
  phase = PodPhase.pending;
  terminated = [];
}

-- The condition of the poll: `none` asks for another poll.
abbrev pub terminal : PodPhase → Option (Result (Unit {0}))
terminal PodPhase.succeeded = Option.some (ok tt)
terminal PodPhase.failed = Option.some (err (message "image lookup pod failed"))
terminal _ = none

abbrev pub poll_answer : Result Pod → Option (Result (Unit {0}))
poll_answer (err e) = Option.some (err e)
poll_answer (ok pod) = terminal pod.phase

-- How a wait ends: by its condition, or as its context is done.
pub data Waited : Type 0 where
  finished : Result (Unit {0}) → Waited
  timed_out : Waited

abbrev pub waited_result : Waited → Result (Unit {0})
waited_result (finished r) = r
waited_result timed_out = err (message "timed out waiting for the condition")

abbrev pub is_timed_out : Waited → Bool
is_timed_out (finished _) = false
is_timed_out timed_out = true

module _ {Env : Type 0} (k : Client Env) where
  open k use {State}

  -- wait.PollImmediateUntil: a first poll, and then at most so many as come before the context is
  -- done.
  unfoldable pub poll_until : ℕ → String → String → State → Waited × State
  poll_until zero ns name s =
      let (answer, s') = k.get_pod ns name s in
      elim (poll_answer answer) [
        | Option.some result ↦ (finished result, s')
        | none ↦ (timed_out, s')
      ]
  poll_until (suc polls) ns name s =
      let (answer, s') = k.get_pod ns name s in
      elim (poll_answer answer) [
        | Option.some result ↦ (finished result, s')
        | none ↦ poll_until polls ns name s'
      ]

  module _ (p : Platform) where
    -- The logs of the pod, read as an image stream. The last error's text goes on with the raw logs,
    -- which are left out here.
    unfoldable pub read_image_stream : String → String → Action State ReleaseImage
    read_image_stream ns name s =
        let (logs, s') = k.pod_logs ns name s in
        elim logs [
          | err e ↦ (err (wrap ("failed to read image lookup pod \"" <> name <> "\" logs") e), s')
          | ok bytes ↦ elim (p.parse_image_stream bytes) [
            | err e ↦ (
              err (
                  wrap
                    ("couldn't read image lookup pod \"" <> name
                      <> "\" logs as a serialized ImageStream")
                    e),
              s',
            )
            | ok image_stream ↦ (ok image_stream, s')
          ]
        ]

    -- The reading, after the wait.
    unfoldable pub await_image_stream : Waited → String → String → Action State ReleaseImage
    unfolding read_image_stream
    await_image_stream waited ns name s = elim (waited_result waited) [
      | err e ↦ (err (wrap ("failed waiting for image lookup pod \"" <> name <> "\"") e), s)
      | ok _ ↦ read_image_stream ns name s
    ]

    -- The deletion is deferred: it runs whatever the result, and its error is dropped. Its context is
    -- that of the wait, which is done after a time-out.
    unfoldable pub lookup : ℕ → String → String → String → Action State ReleaseImage
    unfolding poll_until await_image_stream lookup_pod
    lookup polls ns image pull_secret_name s =
        let (created, s₁) = k.create_pod ns (lookup_pod image pull_secret_name) s in
        elim created [
          | err e ↦ (err (wrap "failed to create image lookup pod" e), s₁)
          | ok pod ↦
              let (waited, s₂) = poll_until polls ns pod.metadata.name s₁ in
              let (result, s₃) = await_image_stream waited ns pod.metadata.name s₂ in
              let (deleted, s₄) = k.delete_pod (is_timed_out waited) ns pod.metadata.name s₃ in
              (result, s₄)
        ]
