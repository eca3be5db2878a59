-- ===== src/Arroyo.antt =====
-- internal/arroyo: the client of the Arroyo API. A module for each of its operations.
pub mod Client
pub mod Wire
pub mod Restart
pub mod Tables
pub mod Pipelines
pub mod Jobs
