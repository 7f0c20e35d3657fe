-- ===== src/Api.antt =====
-- The custom resources (api/v1alpha1) and the Kubernetes objects that the controllers handle.
mod Kube
mod Connector
mod Server
mod Client
mod Config
pub use Kube.*
pub use Connector.*
pub use Server.*
pub use Client.*
pub use Config.*
