-- ===== src/Identity.antt =====
-- src/modules/identity: passwords, tokens, sign-in and the guards.
pub mod Platform
pub mod Tokens
pub mod Families
pub mod Interleaving
pub mod Rotation
pub mod Issued
pub mod Auth
pub mod SignIn
pub mod Guards
pub mod Access
