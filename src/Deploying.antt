-- ===== src/Deploying.antt =====
-- The deployment scripts under scripts/deploy/, which record what they deploy in the network's file.
pub mod Api
pub mod Steps
pub mod Core
pub mod Producers
pub mod Cash
pub mod Ustn
pub mod Single
pub mod Crosschain
pub mod Answers
pub mod Keys
pub mod Returns
pub mod FirstStep
pub mod LaterSteps
pub mod LastStep
pub mod Pipeline
pub mod Missing
mod Tests
