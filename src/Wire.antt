-- ===== src/Wire.antt =====
-- The protobuf wire format of the generated files pointpay/x/pnp/types/*.pb.go.
pub mod Error
pub mod Varint
pub mod Skip
pub mod Message
pub mod Buffer
pub mod Params
pub mod Embedded
pub mod Genesis
pub mod Tx
pub mod Query
mod Tests
