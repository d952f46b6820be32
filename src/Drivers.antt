-- ===== src/Drivers.antt =====
-- edge/drivers: from bytes on a bus to the readings of the sampler.

pub mod Sensor
pub mod Stuck
pub mod Ina219
pub mod Mcp3008
mod Examples
