-- ===== src/Pnp/Keeper.antt =====
-- The keeper of pointpay/x/pnp/keeper: parameters in a key-value store, the message and the query handler and
-- the supply invariant. The SDK's codec, store and bank are parameters.
pub mod Env
pub mod Storage
pub mod Updates
pub mod Immutable
pub mod Reads
use pointpay_chain.Prelude.{
  ℕ, Bool, not, ◌||◌, List, [], ◌∷◌, Option, none, some, Outcome, ok, err, panic, stuck, ◌==◌,
  if◌then◌else◌,
}
use pointpay_chain.Prelude.Text.{Bytes, bytes_eq}
use pointpay_chain.Prelude.Int.{ℤ, pos, ltb_ℤ}
use pointpay_chain.Wire.Error.{PbError, Pb}
use pointpay_chain.Wire.Params.{Params, no_params}
use pointpay_chain.Wire.Tx.{MsgUpdateParams, MsgUpdateParamsResponse, response}
use pointpay_chain.Wire.Query.{QueryParamsRequest, QueryParamsResponse}
use pointpay_chain.Pnp.Types.{
  AppError, invalid_authority, supply_immutable, invalid_request, codec_error, base_denom,
  default_max_supply, params_key,
}
use Env.{Codec, KvStore}

-- A call on the store: its result, and the store afterwards.
abbrev pub Action : Type 0 → Type 0 → Type 0
Action S A = S → Outcome AppError A × S

-- What follows a call: an error or a panic ends the whole.
abbrev pub go_on :
    {S A B : Type 0} → Outcome AppError A × S → (A → Action S B) → Outcome AppError B × S
go_on (ok a, s) f = f a s
go_on (err e, s) f = (err e, s)
go_on (panic, s) f = (panic, s)
go_on (stuck, s) f = (stuck, s)

infixl 5 ◌>>=◌ ◌>>◌
abbrev pub ◌>>=◌ : {S A B : Type 0} → Action S A → (A → Action S B) → Action S B
◌>>=◌ m f s = go_on (m s) f

abbrev pub ◌>>◌ : {S B : Type 0} → Action S (Unit {0}) → Action S B → Action S B
m >> k = m >>= λ _. k

abbrev pub pure : {S A : Type 0} → A → Action S A
pure a s = (ok a, s)

abbrev pub raise_if : {S : Type 0} → Bool → AppError → Action S (Unit {0})
raise_if b e s = (if b then err e else ok tt, s)

-- `MustUnmarshal` panics on an error of the codec.
abbrev pub must : {A : Type 0} → Pb A → Outcome AppError A
must (ok a) = ok a
must (err e) = panic
must panic = panic
must stuck = stuck

-- An error of the codec, passed on.
abbrev pub pass_on : {A : Type 0} → Pb A → Outcome AppError A
pass_on (ok a) = ok a
pass_on (err e) = err (codec_error e)
pass_on panic = panic
pass_on stuck = stuck

-- The keeper's own field; its codec, store service and bank are the section's parameters.
pub record Keeper : Type 0 where
  pub authority : Bytes

-- `NewKeeper`; `parsed` is what the SDK's `AccAddressFromBech32` made of the authority, and its
-- error makes the constructor panic.
unfoldable pub keeper_of : {Address : Type 0} → Option Address → Bytes → Outcome AppError Keeper
keeper_of none authority = panic
keeper_of (some _) authority = ok (record { authority = authority })

unfoldable pub new_keeper :
    {Address : Type 0} → (Bytes → Option Address) → Bytes → Outcome AppError Keeper
unfolding keeper_of
new_keeper acc_address_from_bech32 authority =
    keeper_of (acc_address_from_bech32 authority) authority

module _ (cdc : Codec) (kv : KvStore) where
  open kv use {Store, get, set}

  -- What `GetParams` makes of the stored bytes: without any, it returns the zero value.
  unfoldable pub decode_stored : Option Bytes → Outcome AppError Params
  decode_stored none = ok no_params
  decode_stored (some bz) = must (cdc.unmarshal bz no_params)

  unfoldable pub get_params : Action Store Params
  unfolding decode_stored
  get_params store = (decode_stored (get store params_key), store)

  unfoldable pub set_params : Params → Action Store (Unit {0})
  set_params params = do
    bz ← λ store. (pass_on (cdc.marshal params), store)
    λ store. (ok tt, set store params_key bz)

  unfoldable pub update_params : Keeper → MsgUpdateParams → Action Store MsgUpdateParamsResponse
  update_params k req = do
    raise_if (not (bytes_eq k.authority req.authority))
        (invalid_authority k.authority req.authority)
    cur ← get_params
    raise_if
        (not (req.params.max_supply == cur.max_supply)
          || not (req.params.max_supply == default_max_supply))
        supply_immutable
    set_params req.params
    pure response

  -- The query handler; `none` is a nil request.
  unfoldable pub query_params : Option QueryParamsRequest → Action Store QueryParamsResponse
  query_params none = λ store. (err invalid_request, store)
  query_params (some req) = do params ← get_params; pure (record { params = params })

  -- `SupplyInvariantFn`: whether the invariant is broken, with the values of its message.
  -- `get_supply` is the bank keeper's `GetSupply` of a denomination.
  unfoldable pub supply_invariant : (Bytes → ℤ) → Action Store (Params × ℤ × Bool)
  supply_invariant get_supply = do
    params ← get_params
    let supply = get_supply base_denom
    pure (params, supply, ltb_ℤ (pos params.max_supply) supply)
