-- ===== src/Anomaly.antt =====
-- edge/anomaly: from frames to windows, flags and attributions.

pub mod Preprocess
pub mod Windows
pub mod Physics
pub mod Glitch
pub mod Attribution
pub mod Pipeline
pub mod Detector
pub mod FlagPolicy
pub mod Consistency
pub mod Evidence
pub mod Monitor
pub mod Warmup
mod Examples
