-- ===== src/Kas.antt =====
-- pkg/controllers/kubeservice/kas: the Kubernetes API server.
pub mod Manifests
pub mod Secrets
pub mod Kubeconfig
pub mod Ips
pub mod Volumes
pub mod Config
pub mod Deployment
pub mod Status
