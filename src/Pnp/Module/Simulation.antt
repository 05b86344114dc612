-- ===== src/Pnp/Module/Simulation.antt =====
-- The default genesis: `GenerateGenesisState` of pointpay/x/pnp/module/simulation.go, and the life of a chain
-- that starts from the module's default genesis.
use mathlib.Core.Path.{subst}
use pointpay_chain.Prelude.{sym, ◌≡◌, refl, Option, some, Outcome, ok, ◌>>=◌, if◌then◌else◌, arith}
use pointpay_chain.Prelude.Text.{Bytes, codes, bytes_eq, bytes_eq_refl}
use pointpay_chain.Wire.Params.Encoding.{IsValid}
use pointpay_chain.Wire.Genesis.{no_genesis}
use pointpay_chain.Wire.Tx.{MsgUpdateParams, response}
use pointpay_chain.Wire.Query.{QueryParamsRequest}
use pointpay_chain.Pnp.Types.{AppError, default_params, default_genesis}
use pointpay_chain.Pnp.Types.Validation.{validate_genesis_iff}
use pointpay_chain.Pnp.Keeper.Env.{Codec, KvStore}
use pointpay_chain.Pnp.Keeper.{Keeper, query_params, update_params}
use pointpay_chain.Pnp.Keeper.Storage.{stored}
use pointpay_chain.Pnp.Keeper.Updates.{update_params_accepts}
use pointpay_chain.Pnp.Module.Env.{JsonCodec}
use pointpay_chain.Pnp.Module.{
  present, default_genesis_json, validate_read, init_genesis, validate_genesis_json,
  init_genesis_json, Run,
}
use pointpay_chain.Pnp.Module.Chain.{init_genesis_lem, genesis_params, query_params-genesis}

-- `simState.GenState[types.ModuleName] = simState.Cdc.MustMarshalJSON(&pnpGenesis)`; the texts of the
-- accounts, which nothing reads, are left out.
unfoldable pub generate_genesis_state :
    JsonCodec → (Bytes → Option Bytes) → Outcome AppError (Bytes → Option Bytes)
generate_genesis_state json gen_state = do
  bz ← present (json.marshal_json (record { params = default_params }))
  ok (λ name. if bytes_eq name (codes "pnp") then some bz else gen_state name)

default_IsValid : IsValid default_params
unfolding default_params
default_IsValid = omega arith

module _ (cdc : Codec) (kv : KvStore) (json : JsonCodec) (bz : Bytes) where
  open kv use {Store}

  boot :
      (k : Keeper) (s : Store) {t : Store}
      → Run cdc kv k (stored cdc kv default_params s) t
      → Run cdc kv k (init_genesis cdc kv default_genesis s).1 t
  unfolding default_genesis
  boot k s {t} run =
      subst (λ r. Run cdc kv k (r.1) t)
        (sym (init_genesis_lem cdc kv default_genesis s default_IsValid)) run

  -- If the JSON codec writes the default genesis, the module's default genesis and the simulated one are
  -- that text; the module's validation accepts it; and on a chain that starts from it on any store,
  -- after any calls, a query answers with the default parameters, and a message of the authority for
  -- them is accepted.
  pub default_genesis_json_lives :
      (k : Keeper) (s : Store) (gen_state : Bytes → Option Bytes)
      → json.marshal_json default_genesis ≡ some bz
      → (default_genesis_json json ≡ ok bz)
        × ((gen : Bytes → Option Bytes) × (generate_genesis_state json gen_state ≡ ok gen)
            × (gen (codes "pnp") ≡ some bz))
        × (validate_genesis_json json bz ≡ ok tt)
        × (init_genesis_json cdc kv json bz s ≡ (ok tt, stored cdc kv default_params s))
        × ((t : Store)
            → Run cdc kv k (stored cdc kv default_params s) t
            → ((req : QueryParamsRequest)
                → query_params cdc kv (some req) t ≡ (ok (record { params = default_params }), t))
              × ((req : MsgUpdateParams)
                  → req.authority ≡ k.authority
                  → req.params ≡ default_params
                  → update_params cdc kv k req t ≡ (ok response, stored cdc kv default_params t)))
  unfolding default_genesis_json validate_genesis_json validate_read init_genesis_json
      generate_genesis_state default_genesis
  default_genesis_json_lives k s gen_state written =
      let read = json.unmarshal-marshal_json default_genesis no_genesis bz written in
      let booted = init_genesis_lem cdc kv default_genesis s default_IsValid in
      (
        rw written refl,
        (
          λ name. if bytes_eq name (codes "pnp") then some bz else gen_state name,
          rw written refl,
          rw bytes_eq_refl refl,
        ),
        rw read ((validate_genesis_iff default_genesis).1 refl),
        rw read booted,
        λ t run. (
          λ req. query_params-genesis cdc kv k default_genesis req s default_IsValid (boot k s run),
          λ req same e.
              update_params_accepts cdc kv k req t same
                (genesis_params cdc kv k default_genesis s default_IsValid (boot k s run)) e,
        ),
      )
