-- ===== src/Tests.antt =====
-- Runs of the program's parts on small inputs.
pub mod Relay
pub mod Sessions
pub mod Crypto
pub mod Admission
pub mod Availability
pub mod Servers
pub mod Runs
pub mod Browser
pub mod Connections
pub mod Configs
pub mod LogFields
pub mod Listing
pub mod Metrics
