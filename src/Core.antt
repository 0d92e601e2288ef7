-- ===== src/Core.antt =====
-- packages/core/src: the arithmetic that the keeper and the web app share with the program.
pub mod Failure
pub mod Money
pub mod Guard
pub mod Strategy
pub mod Defaults
pub mod TopUp
pub mod Stress
pub mod Freshness
