-- ===== src/Tests.antt =====
-- Runs on concrete data, and the theorems at concrete inputs.
mod Memory
mod ControllerRuns
mod ConversionRuns
mod WebhookRuns
mod DeletionRuns
mod ConversionServerRuns
mod RegistrationRuns
mod Watching
mod ManagerRuns
mod DeepCopyRuns
mod ServerRuns
mod MainRuns
