-- ===== src/Injection.antt =====
-- edge/injection: faults and attacks on a stream of frames, offline and live.
pub mod Transforms
pub mod Commands
pub mod Live
pub mod Equivalence
pub mod Offline
pub mod Submission
mod Examples
