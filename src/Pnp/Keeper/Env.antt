-- ===== src/Pnp/Keeper/Env.antt =====
-- What the keeper takes from the Cosmos SDK.
use pointpay_chain.Prelude.{◌≡◌, ◌≢◌, Option, some}
use pointpay_chain.Prelude.Text.{Bytes}
use pointpay_chain.Wire.Error.{Pb}
use pointpay_chain.Wire.Params.{Params, no_params, marshal, unmarshal_params}

-- `codec.BinaryCodec` on `Params`: a proto codec calls the generated methods of the message,
-- `Unmarshal` on a message that it has reset.
pub record Codec : Type 0 where
  pub marshal : Params → Pb Bytes
  pub unmarshal : Bytes → Params → Pb Params
  pub marshal_delegates : (p : Params) → marshal p ≡ pointpay_chain.Wire.Params.marshal p
  pub unmarshal_delegates : (bz : Bytes) → unmarshal bz no_params ≡ unmarshal_params bz no_params

-- The module's key-value store, through `runtime.KVStoreAdapter`; `none` is a nil slice.
pub record KvStore : Type 1 where
  pub Store : Type 0
  pub get : Store → Bytes → Option Bytes
  pub set : Store → Bytes → Bytes → Store
  pub get-set_self : (s : Store) (k v : Bytes) → get (set s k v) k ≡ some v
  pub get-set_ne : (s : Store) (j k v : Bytes) → j ≢ k → get (set s k v) j ≡ get s j
