-- ===== src/Lib.antt =====
-- A model of hypershift-lite, the controller that runs the control plane of a Kubernetes cluster as
-- pods: from a KubernetesService resource it makes an etcd cluster, an API server and a controller
-- manager, and reports in the conditions of the resource how far they are.
--
-- Parts and files
--   Api         the Kubernetes objects, with the fields that the code uses, and
--               pkg/api/v1alpha1/kubeservice.go. Api/Copies is zz_generated.deepcopy.go, on a store
--               in which slices share arrays. Api/Externals is the parameter `Platform`: the pure
--               functions of the Go and third-party libraries.
--   Client      the parameter `Client`: the controller-runtime client and the pod interface. Each
--               call takes a state and gives an answer and the next state; any call may change it.
--   Certs       pkg/certs/util.go. The parameter `Crypto` is what it uses of the standard library.
--   Ks          pkg/controllers/kubeservice/ks: conditions.
--   Pki         pkg/controllers/kubeservice/pki: the root CA and what signed secrets share.
--   Etcd        pkg/controllers/kubeservice/etcd: Manifests, Secrets and Operator (manifests.go and
--               reconcile.go), Status (status.go).
--   Kas         pkg/controllers/kubeservice/kas: Manifests (manifests.go, service.go, auditcfg.go),
--               Secrets and Ips (certs.go), Kubeconfig, Config, Volumes and Deployment
--               (deployment.go), Status.
--   Kcm         pkg/controllers/kubeservice/kcm: Manifests (manifests.go, certs.go, config.go),
--               Deployment, Status.
--   Release     pkg/releaseinfo: Images (ReleaseImage and static_provider.go), Provider
--               (pod_provider.go), Texts, Labels and Versions (releaseinfo.go).
--   Reconciler  pkg/controllers/kubeservice/reconciler.go: OwnerRefs, World (the client's state
--               with the cache of release images, and the calls that every method makes),
--               Components (reconcileEtcd, reconcileKubeAPIServer, reconcileKubeControllerManager),
--               Phases (Reconcile) and Setup (SetupWithManager). Recorded is a client that records
--               its calls.
--   Command     cmd/hypershift-lite/main.go: it sets the reconciler up and starts its manager.
--   Tests       a server to run the controllers on, and the theorems at concrete arguments.
--
-- How the code is read
--   A function that changes the object that it is given returns the changed one, or an error and no
--   object: CreateOrUpdate drops the object of a failed call. A method of the reconciler is an
--   `Action`: it takes the world and gives a result and the next world, beside an error too. A run
--   of Reconcile is one such action; what happens between two runs, and what other writers do in
--   one, is part of the client's state. A Go panic is an error that nothing handles. A nil map is
--   `none`. Names keep the words of the source: ReconcileRootCA is reconcile_root_ca.
--
-- Bounds
--   Numbers are natural numbers. A byte wraps at 256 and a port is taken to 32 bits, as in the
--   source. Times and durations are nanoseconds. The wait for a look-up pod has as fuel the number
--   of polls between the first one and the end of its context, at which the source ends with a
--   time-out too. Every other loop is structural. The texts of pkg/releaseinfo that are taken apart
--   are lists of ASCII codes.
--
-- Not modelled
--   pkg/api/scheme.go registers types with a library; the client builder of
--   cmd/hypershift-lite/main.go is never used; logging has no effect on a result; thirdparty/etcd
--   and vendor are other projects. The cryptography, the serializations, the parsing of CIDRs,
--   semantic versions and group versions, the server and the controller manager are parameters.
pub mod Prelude
pub mod Api
pub mod Certs
pub mod Client
pub mod Ks
pub mod Pki
pub mod Etcd
pub mod Kas
pub mod Kcm
pub mod Release
pub mod Reconciler
pub mod Command
pub mod Tests
