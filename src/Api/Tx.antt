-- ===== src/Api/Tx.antt =====
-- The messages of pointpay/api/pointpay/pnp/tx.pulsar.go.
pub mod Msg
pub mod Response
