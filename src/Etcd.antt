-- ===== src/Etcd.antt =====
-- pkg/controllers/kubeservice/etcd: the etcd operator, its cluster and its certificates.
pub mod Manifests
pub mod Secrets
pub mod Operator
pub mod Status
