-- ===== src/Web.antt =====
-- apps/web/src: the web application's server and client code.
pub mod VaultMath
pub mod Capacity
pub mod VerifyVrf
pub mod GameStore
pub mod Points
pub mod Cron
pub mod Confirm
pub mod Session
pub mod RateLimit
