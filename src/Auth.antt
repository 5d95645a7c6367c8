-- ===== src/Auth.antt =====
-- src/auth/auth.service.ts and src/guard: passwords, tokens, and who passes.
pub mod Model
pub mod Login
pub mod Tokens
pub mod Passwords
pub mod Guard
pub mod Tests
