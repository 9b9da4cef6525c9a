-- ===== src/Email.antt =====
-- Package email.
pub mod Send
pub mod Header
pub mod Queue
