-- ===== src/Kcm.antt =====
-- pkg/controllers/kubeservice/kcm: the Kubernetes controller manager.
pub mod Manifests
pub mod Deployment
pub mod Status
