-- ===== src/Sdk.antt =====
-- packages/sdk/src: the client library of the on-chain program.
pub mod Buffer
pub mod Web3
pub mod Reader
pub mod Discriminator
pub mod Accounts
pub mod Vrf
pub mod Pdas
pub mod Builders
pub mod Events
pub mod RoundTrip
