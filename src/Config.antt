-- ===== src/Config.antt =====
-- backend/src/config: the configuration variables of the program, which an administrator may change.
-- Definitions and Variables are configDefinitions.ts, Timespan, Checks and Service config.service.ts.
pub mod Definitions
pub mod Variables
pub mod Timespan
pub mod Checks
pub mod Service
pub mod Order
pub mod Periods
pub mod Retention
pub mod Sync
mod Tests
