-- ===== src/Reconciler.antt =====
-- pkg/controllers/kubeservice/reconciler.go: the reconciler of KubernetesService resources.
pub mod OwnerRefs
pub mod World
pub mod Recorded
pub mod Components
pub mod Phases
pub mod Plan
pub mod Certificates
pub mod Mounts
pub mod Setup
