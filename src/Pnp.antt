-- ===== src/Pnp.antt =====
-- The module pointpay/x/pnp: its constants, parameters, keeper and genesis.
pub mod Vault
pub mod Types
pub mod Keeper
pub mod Module
mod Tests
