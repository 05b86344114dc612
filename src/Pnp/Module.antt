-- ===== src/Pnp/Module.antt =====
-- The module of pointpay/x/pnp/module: the genesis of the store (genesis.go), the JSON entry points
-- and the choice of the authority (module.go), and the calls that a running chain makes.
pub mod Env
pub mod Authority
pub mod Chain
pub mod Simulation
use pointpay_chain.Prelude.{
  ℕ, Bool, List, [], Option, none, some, Outcome, ok, err, panic, stuck, if◌then◌else◌,
}
use pointpay_chain.Prelude.Text.{Bytes, codes, bytes_eq}
use pointpay_chain.Prelude.Int.{ℤ}
use pointpay_chain.Wire.Genesis.{GenesisState, no_genesis}
use pointpay_chain.Wire.Tx.{MsgUpdateParams}
use pointpay_chain.Wire.Query.{QueryParamsRequest}
use pointpay_chain.Pnp.Types.{AppError, bad_genesis, default_genesis, validate_genesis}
use pointpay_chain.Pnp.Keeper.Env.{Codec, KvStore}
use pointpay_chain.Pnp.Keeper.{
  Action, pure, ◌>>=◌, Keeper, new_keeper, get_params, set_params, update_params, query_params,
  supply_invariant,
}
use Env.{Addresses, JsonCodec}

-- `if err != nil { panic(err) }`
abbrev pub no_error : {A : Type 0} → Outcome AppError A → Outcome AppError A
no_error (ok a) = ok a
no_error (err e) = panic
no_error panic = panic
no_error stuck = stuck

-- `MustUnmarshalJSON` and `MustMarshalJSON` panic on an error.
abbrev pub present : {A : Type 0} → Option A → Outcome AppError A
present none = panic
present (some a) = ok a

-- `AppModuleBasic.ValidateGenesis`, after the JSON codec.
validate_read : Option GenesisState → Outcome AppError (Unit {0})
validate_read none = err bad_genesis
validate_read (some gs) = validate_genesis gs

unfoldable pub validate_genesis_json : JsonCodec → Bytes → Outcome AppError (Unit {0})
unfolding validate_read
validate_genesis_json json bz = validate_read (json.unmarshal_json bz no_genesis)

-- `AppModuleBasic.DefaultGenesis`
pub default_genesis_json : JsonCodec → Outcome AppError Bytes
default_genesis_json json = present (json.marshal_json default_genesis)

module _ (cdc : Codec) (kv : KvStore) where
  open kv use {Store}

  -- `InitGenesis`: no validation of the parameters.
  unfoldable pub init_genesis : GenesisState → Action Store (Unit {0})
  init_genesis gs store = let done = set_params cdc kv gs.params store in (no_error done.0, done.1)

  -- `ExportGenesis`: the default genesis with the stored parameters.
  unfoldable pub export_genesis : Action Store GenesisState
  export_genesis = do params ← get_params cdc kv; pure (record default_genesis { params = params })

  -- `AppModule.InitGenesis` and `AppModule.ExportGenesis`
  unfoldable pub init_genesis_json : JsonCodec → Bytes → Action Store (Unit {0})
  unfolding init_genesis
  init_genesis_json json bz = do
    gs ← λ store. (present (json.unmarshal_json bz no_genesis), store)
    init_genesis gs

  unfoldable pub export_genesis_json : JsonCodec → Action Store Bytes
  unfolding export_genesis
  export_genesis_json json = do
    gs ← export_genesis
    λ store. (present (json.marshal_json gs), store)

  -- One call on the running chain, with the store before and after it: a message, a query, a check of
  -- the invariant, an export, or the module's part of the beginning or the end of a block.
  pub data Step (k : Keeper) : Store → Store → Type 0 where
    message : {s : Store} (req : MsgUpdateParams) → Step k s ((update_params cdc kv k req s).1)
    query : {s : Store} (req : Option QueryParamsRequest) → Step k s ((query_params cdc kv req s).1)
    check :
        {s : Store} (get_supply : Bytes → ℤ) → Step k s ((supply_invariant cdc kv get_supply s).1)
    export : {s : Store} → Step k s ((export_genesis s).1)
    begin_block : {s : Store} → Step k s s
    end_block : {s : Store} → Step k s s

  pub data Run (k : Keeper) : Store → Store → Type 0 where
    start : {s : Store} → Run k s s
    next : {s t u : Store} → Run k s t → Step k t u → Run k s u

-- The authority that `ProvideModule` gives to `NewKeeper`; the configured text may be empty.
chosen_authority : (env : Addresses) → Bytes → env.Address
chosen_authority env configured =
    if bytes_eq configured []
    then env.new_module_address (codes "gov")
    else env.module_or_bech32 configured

pub provide_module : Addresses → Bytes → Outcome AppError Keeper
unfolding chosen_authority
provide_module env configured =
    new_keeper env.acc_address_from_bech32 (env.to_string (chosen_authority env configured))
