-- ===== src/Registration.antt =====
-- pkg/cmd/webhookconfig.go and pkg/cmd/main.go: the registration of the admission webhooks when
-- their server starts. Logging is left out.
pub mod Platform
pub mod Configure
pub mod Certificates
pub mod Start
pub mod Listen
pub mod Laws
pub mod Outcomes
pub mod Restart
pub mod SecondStart
