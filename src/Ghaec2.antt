-- ===== src/Ghaec2.antt =====
-- The message queue scaler, ghaec2/.
pub mod Types
pub mod Config
pub mod Client
pub mod Tracker
pub mod Scaler
pub mod Process
