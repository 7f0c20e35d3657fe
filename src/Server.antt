-- ===== src/Server.antt =====
-- The DexServer controller, controllers/dexserver_controller.go, a module for each group of its
-- functions.
pub mod Mtls
pub mod Resources
pub mod ConfigMap
pub mod Deployment
pub mod Reconcile
pub mod Status
