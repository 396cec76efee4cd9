-- ===== src/Api.antt =====
-- The data that the controllers read and write: the Kubernetes, OpenShift and etcd-operator API
-- types, each with the fields that the code uses, the project's own API type
-- (pkg/api/v1alpha1/kubeservice.go), and the functions of the standard and third-party libraries
-- that the code calls.
pub mod Meta
pub mod Objects
pub mod Pods
pub mod Etcd
pub mod Kube
pub mod Copies
pub mod Config
pub mod Images
pub mod Externals
pub use Meta.*
pub use Objects.*
pub use Pods.*
pub use Etcd.*
pub use Kube.*
pub use Config.*
pub use Images.*
pub use Externals.*
