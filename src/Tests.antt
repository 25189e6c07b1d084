-- ===== src/Tests.antt =====
-- The theorems at concrete inputs.
mod Transfer
mod Sessions
mod Collaboration
mod Continuation
mod Continuations
mod Missions
mod Offers
mod Versions
mod Selection
mod Collabs
mod Managers
mod Connections
