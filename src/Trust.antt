-- ===== src/Trust.antt =====
-- edge/trust: the reputation of the channels.

pub mod Bands
pub mod Beta
pub mod Detection
pub mod Engine
pub mod Readings
pub mod Response
pub mod Reliability
mod Examples
