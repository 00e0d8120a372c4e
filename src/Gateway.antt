-- ===== src/Gateway.antt =====
-- app/routes/gateway.py, with the tables of app/constants.py: how the upstream's answers are classified
-- (Classify), and what one account's attempt does with them (Attempt).
pub mod ChatStream
pub mod Classify
pub mod Attempt
pub mod Slots
pub mod Upstream
pub mod Affinity
mod Tests
