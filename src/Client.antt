-- ===== src/Client.antt =====
-- The DexClient controller, controllers/dexclient_controller.go.
pub mod Credential
pub mod Oauth
pub mod Reconcile
pub mod Deletion
pub mod Outcomes
pub mod Marks
pub mod Frames
pub mod Preserved
pub mod Connections
pub mod Removal
pub mod Registration
pub mod Rotation
pub mod Handshake
pub mod Waiting
pub mod Orphans
pub mod Progress
