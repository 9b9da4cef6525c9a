-- ===== src/Tests.antt =====
-- The theorems at concrete inputs: an instance with one user, whose clock stands still.
pub mod World
pub mod Tokens
pub mod Requests
pub mod Directives
pub mod Webhooks
pub mod Subscriptions
pub mod Mail
pub mod Data
pub mod Server
