-- ===== src/ConversionServer.antt =====
-- pkg/conversion/conversion.go: the server of the conversion webhook. Logging is left out.
pub mod Json
pub mod Review
pub mod Media
pub mod Objects
pub mod Convert
pub mod Serve
pub mod Start
