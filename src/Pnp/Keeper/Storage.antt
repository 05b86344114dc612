-- ===== src/Pnp/Keeper/Storage.antt =====
-- Parameters that are stored are read back, through the generated codec.
use pointpay_chain.Prelude.{◌≡◌, ◌≢◌, refl, ok}
use pointpay_chain.Prelude.Text.{Bytes}
use pointpay_chain.Wire.Params.{Params}
use pointpay_chain.Wire.Params.Encoding.{IsValid, encoding, marshal-encoding}
use pointpay_chain.Wire.Params.Decoding.{unmarshal_fresh}
use pointpay_chain.Pnp.Types.{params_key}
use pointpay_chain.Pnp.Keeper.Env.{Codec, KvStore}
use pointpay_chain.Pnp.Keeper.{get_params, set_params}

module _ (cdc : Codec) (kv : KvStore) where
  open kv use {Store, get, set}

  -- The store after a write of valid parameters.
  abbrev pub stored : Params → Store → Store
  stored p s = set s params_key (encoding p)

  -- A write of valid parameters succeeds, and puts their encoding under the key.
  pub set_params_lem :
      (p : Params) (s : Store) → IsValid p → set_params cdc kv p s ≡ (ok tt, stored p s)
  unfolding set_params
  set_params_lem p s u = rw (cdc.marshal_delegates p, marshal-encoding p u)

  -- What is read after such a write.
  pub get_params-stored :
      (p : Params) (s : Store) → IsValid p → get_params cdc kv (stored p s) ≡ (ok p, stored p s)
  unfolding get_params
  get_params-stored p s u =
      rw (kv.get-set_self s params_key (encoding p), cdc.unmarshal_delegates, unmarshal_fresh p u)

  -- Every other key of the store keeps its value.
  pub get-stored_ne :
      (p : Params) (s : Store) (key : Bytes) → key ≢ params_key → get (stored p s) key ≡ get s key
  get-stored_ne p s key h = kv.get-set_ne s key params_key (encoding p) h

  -- A read leaves the store alone.
  pub get_params-store : (s : Store) → (get_params cdc kv s).1 ≡ s
  unfolding get_params
  get_params-store s = refl
