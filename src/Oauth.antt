-- ===== src/Oauth.antt =====
-- internal/oauth: the login flow's state nonces.
pub mod StateCache
mod Tests
