-- ===== src/Webhook.antt =====
-- pkg/cmd/webhook.go: the admission webhooks. Logging is left out.
pub mod Admission
pub mod Patch
pub mod Mutate
pub mod Validate
pub mod Serve
