-- ===== src/Acquisition.antt =====
-- edge/acquisition: the ring buffer, the publisher that survives a lost broker, the sampler and
-- the board of dead sensors.

pub mod RingBuffer
pub mod Publisher
pub mod Resume
pub mod Retention
pub mod Delivery
pub mod Sampler
pub mod Hold
pub mod Board
pub mod Debounce
pub mod Replay
mod Examples
