-- ===== src/Device.antt =====
-- The page of a device.
pub mod Graph
pub mod Panel
pub mod Monitor
pub mod Write
pub mod Charts
pub mod Screen
