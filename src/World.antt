-- ===== src/World.antt =====
-- What the controllers call and the repository does not hold: the API server behind
-- `client.Client`, the applier of clusteradm, the clock, the cryptography and encodings of the Go
-- library, and the gRPC interface of dex. All are parameters over a world of type `S`.
mod Templates
mod Cluster
mod Cryptography
mod Dex
mod Packages
mod Spec
mod Promises
pub mod Facts
pub mod Frames
pub mod Stable
pub mod Updates
pub mod Holds
pub mod Forms
pub mod Reliable
pub use Templates.*
pub use Cluster.*
pub use Cryptography.*
pub use Dex.*
pub use Packages.*
unfoldable pub use Spec.*
unfoldable pub use Promises.*
