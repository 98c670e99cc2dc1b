-- ===== src/Auth.antt =====
-- The OAuth 2.0 / OpenID Connect authorization server, app/auth.
pub mod Errors
pub mod Platform
pub mod AuthCode
pub mod RefreshToken
pub mod Client
pub mod User
pub mod Db
pub mod RefreshTokens
pub mod AuthCodes
pub mod Directory
pub mod Registration
pub mod Claims
pub mod Sessions
pub mod KeyRing
pub mod Service
pub mod Route
mod Tests
