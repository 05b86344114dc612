-- ===== src/Api/Query.antt =====
-- The messages of pointpay/api/pointpay/pnp/query.pulsar.go.
pub mod Request
pub mod Response
