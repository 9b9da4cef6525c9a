-- ===== src/Webhooks.antt =====
-- Package webhooks.
pub mod Config
pub mod Context
pub mod Batch
pub mod Queue
pub mod Delivery
pub mod Legacy
pub mod Firing
