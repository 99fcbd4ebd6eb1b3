-- ===== src/Controller.antt =====
-- controllers/resourcelimiter_controller.go: the controller, and the platform that it calls.
pub mod Exec
pub mod Platform
pub mod Reconcile
pub mod Deletion
pub mod Entry
pub mod Manager
pub mod Main
