-- ===== src/Logger.antt =====
-- src/logger: logger.h and logger.cpp (`Factory`). `Steady` has what holds of a factory after any calls.
pub mod Factory
pub mod Steady
mod Tests
