-- ===== src/Backend.antt =====
-- backend/app/services: what the backend derives from the messages of the edge. Each service keeps
-- its state per device id; the state and the operations here are those of one device.

pub mod Condition
pub mod Rollup
pub mod Recorder
pub mod Faults
pub mod Episodes
pub mod StatusLedger
pub mod Redelivery
pub mod SensorHealth
pub mod SensorChain
pub mod Latency
pub mod Auth
pub mod Access
pub mod Sessions
mod Examples
mod ServiceExamples
