-- ===== src/Rl.antt =====
-- edge/rl: the state that a policy reads, the baseline policy, the gate that every proposed
-- action passes, the reward, and the simulated episode in which a policy is tried.

pub mod State
pub mod Vector
pub mod Policy
pub mod Gate
pub mod Safety
pub mod Pipeline
pub mod Reward
pub mod Environment
pub mod Feeding
pub mod Freezing
mod Examples
mod EpisodeExamples
