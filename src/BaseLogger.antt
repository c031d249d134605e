-- ===== src/BaseLogger.antt =====
-- src/base-logger.ts, its parts in child modules: the serialization of values.
pub mod Serialize
pub mod Objects
pub mod Event
pub mod Http
pub mod Realtime
pub mod Tests
pub mod Tracking
