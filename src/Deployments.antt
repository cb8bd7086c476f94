-- ===== src/Deployments.antt =====
-- The records of deployments: scripts/deploy/utils.js.
pub mod State
pub mod Codec
pub mod Update
pub mod RoundTrip
pub mod Legacy
mod Tests
