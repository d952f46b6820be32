-- ===== src/Heal.antt =====
-- edge/pipeline/self_heal.py, uncertainty.py and cycle.py: substitution of isolated channels.
-- Times are numbers of milliseconds, scores and readings exact fractions. A method returns the
-- new state beside its result, and an exception is an `err`.
pub mod Orchestrator
pub mod Cycle
pub mod Validation
pub mod Expiry
pub mod Budget
pub mod Runtime
pub mod Serving
pub mod Reports
pub mod Limit
mod Examples
