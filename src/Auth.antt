-- ===== src/Auth.antt =====
-- Authentication: app/auth and app/api/v1/auth.py.
pub mod Jwt
pub mod Tokens
pub mod Deps
pub mod Nonce
pub mod Siwe
pub mod Endpoints
pub mod Tests
