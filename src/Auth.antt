-- ===== src/Auth.antt =====
-- Package auth.
pub mod Types
pub mod Grants
pub mod Bearer
pub mod Env
pub mod Lookup
pub mod Http
pub mod Cookie
pub mod Internal
pub mod Oauth2
pub mod Legacy
pub mod Webhook
pub mod Middleware
