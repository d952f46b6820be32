-- ===== src/Actuation.antt =====
-- The safety supervisor of edge/actuation/: the one owner of the pump relay.
pub mod Watchdog
pub mod Relay
pub mod DryRun
pub mod Supervisor
pub mod Latch
pub mod Report
pub mod Stops
pub mod Streak
mod Examples
