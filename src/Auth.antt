-- ===== src/Auth.antt =====
-- crates/auth: who a request comes from, and the requests that log in.
pub mod Http
pub mod Username
pub mod Session
pub mod Login
pub mod Webauthn
pub mod Passkey
pub mod Cli
pub mod Profile
pub mod Gateway
