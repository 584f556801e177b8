-- ===== src/Sdk/Builders/Laws.antt =====
-- What the builders build: the arguments in the program's layout, and the signatures asked for.
pub mod Writes
pub mod Game
pub mod Vault
pub mod Lp
pub mod Vrf
pub mod Call
