-- ===== src/Sdk/Builders.antt =====
-- packages/sdk/src/instructions.ts and the builders of vrf.ts: the transaction instructions.
pub mod Instruction
pub mod Game
pub mod Vault
pub mod Lp
pub mod Vrf
pub mod Laws
