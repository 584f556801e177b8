-- ===== src/Shared.antt =====
-- packages/shared/src: constants and the multiplier.
pub mod Multiplier
