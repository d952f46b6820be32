-- ===== src/Edge.antt =====
-- edge/acquisition/runtime.py: the loop that samples, injects, monitors and publishes.
pub mod Loop
pub mod Telemetry
pub mod Message
pub mod Wiring
pub mod Supervised
pub mod Judging
pub mod Emission
pub mod Live
pub mod Held
pub mod Fallen
pub mod Stopped
pub mod Recorded
mod Examples
mod WiringExamples
mod StoppedExamples
