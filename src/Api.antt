-- ===== src/Api.antt =====
-- The messages of pointpay/api/pointpay/pnp and their fast paths: reflection by field name, and the
-- size, the encoding and the decoding of a message that keeps the fields it does not know.
pub mod Runtime
pub mod Value
pub mod Reflect
pub mod Frame
pub mod Text
pub mod Params
pub mod Pointer
pub mod Genesis
pub mod Tx
pub mod Query
pub mod ModuleConfig
mod Tests
