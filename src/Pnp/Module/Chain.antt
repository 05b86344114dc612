-- ===== src/Pnp/Module/Chain.antt =====
-- The stored parameters over the life of a chain: from a genesis, through any calls, to an export.
use pointpay_chain.Prelude.{◌≡◌, ◌≢◌, inl, inr, refl, ap, ◌∙◌, some, Outcome, ok}
use pointpay_chain.Prelude.Text.{Bytes}
use pointpay_chain.Wire.Params.{Params}
use pointpay_chain.Wire.Params.Encoding.{IsValid}
use pointpay_chain.Wire.Genesis.{GenesisState, no_genesis}
use pointpay_chain.Wire.Tx.{MsgUpdateParams, response}
use pointpay_chain.Wire.Query.{QueryParamsRequest}
use pointpay_chain.Pnp.Types.{AppError, default_params}
use pointpay_chain.Pnp.Keeper.Env.{Codec, KvStore}
use pointpay_chain.Pnp.Keeper.{Keeper, get_params, query_params, update_params}
use pointpay_chain.Pnp.Keeper.Storage.{stored, set_params_lem, get_params-stored}
use pointpay_chain.Pnp.Keeper.Updates.{params_of, whole_read}
use pointpay_chain.Pnp.Keeper.Reads.{
  after_read, query_params-store, supply_invariant-store, query_params_lem,
}
use pointpay_chain.Pnp.Keeper.Immutable.{params_of-update_params, Effect, update_params-Effect}
use pointpay_chain.Pnp.Module.Env.{JsonCodec}
use pointpay_chain.Pnp.Module.{
  init_genesis, export_genesis, init_genesis_json, export_genesis_json, Step, message, query, check,
  export, begin_block, end_block, Run, start, next,
}

one_value : (r : Outcome AppError Params) (p q : Params) → r ≡ ok p → r ≡ ok q → p ≡ q
one_value r p q e f = cc

module _ (cdc : Codec) (kv : KvStore) where
  open kv use {Store}

  -- A genesis with any 64-bit maximal supply is stored as it is.
  pub init_genesis_lem :
      (gs : GenesisState) (s : Store)
      → IsValid gs.params
      → init_genesis cdc kv gs s ≡ (ok tt, stored cdc kv gs.params s)
  unfolding init_genesis
  init_genesis_lem gs s u = rw (set_params_lem cdc kv gs.params s u)

  -- An export gives a genesis with the parameters that the store holds.
  pub export_genesis_lem :
      (s : Store) (p : Params)
      → params_of cdc kv s ≡ ok p
      → export_genesis cdc kv s ≡ (ok (record { params = p }), s)
  unfolding export_genesis
  export_genesis_lem s p read = rw (whole_read cdc kv s (ok p) read)

  params_of-stored :
      (p : Params) (s : Store) → IsValid p → params_of cdc kv (stored cdc kv p s) ≡ ok p
  params_of-stored p s u = ap (λ r. r.0) (get_params-stored cdc kv p s u)

  -- A genesis with a 64-bit maximal supply is exported from the store as it was written.
  pub export_genesis-init_genesis :
      (gs : GenesisState) (s : Store)
      → IsValid gs.params
      → export_genesis cdc kv ((init_genesis cdc kv gs s).1) ≡ (ok gs, stored cdc kv gs.params s)
  export_genesis-init_genesis gs s u =
      rw (init_genesis_lem gs s u)
        (export_genesis_lem (stored cdc kv gs.params s) gs.params (params_of-stored gs.params s u))

  export_genesis-store : (s : Store) → (export_genesis cdc kv s).1 ≡ s
  unfolding export_genesis get_params
  export_genesis-store s = after_read cdc kv s (params_of cdc kv s) _ (λ p. refl)

  Step-params :
      (k : Keeper) {s t : Store} → Step cdc kv k s t → params_of cdc kv t ≡ params_of cdc kv s
  Step-params k (message {s} req) = params_of-update_params cdc kv k req s
  Step-params k (query {s} req) = ap (params_of cdc kv) (query_params-store cdc kv req s)
  Step-params k (check {s} get_supply) =
      ap (params_of cdc kv) (supply_invariant-store cdc kv get_supply s)
  Step-params k (export {s}) = ap (params_of cdc kv) (export_genesis-store s)
  Step-params k (begin_block) = refl
  Step-params k (end_block) = refl

  -- No sequence of messages, queries, invariant checks, exports and block boundaries changes the
  -- parameters that a read finds, whatever they were.
  pub Run-params :
      (k : Keeper) {s t : Store} → Run cdc kv k s t → params_of cdc kv t ≡ params_of cdc kv s
  Run-params k start = refl
  Run-params k (next r step) = Step-params k step ∙ Run-params k r

  pub genesis_params :
      (k : Keeper) (gs : GenesisState) (s : Store) {t : Store}
      → IsValid gs.params
      → Run cdc kv k ((init_genesis cdc kv gs s).1) t
      → params_of cdc kv t ≡ ok gs.params
  genesis_params k gs s u r =
      Run-params k r
      ∙ ap (λ x. params_of cdc kv (x.1)) (init_genesis_lem gs s u)
      ∙ params_of-stored gs.params s u

  -- After a genesis with any 64-bit maximal supply and any calls, a query answers with the parameters
  -- of the genesis.
  pub query_params-genesis :
      (k : Keeper) (gs : GenesisState) (req : QueryParamsRequest) (s : Store) {t : Store}
      → IsValid gs.params
      → Run cdc kv k ((init_genesis cdc kv gs s).1) t
      → query_params cdc kv (some req) t ≡ (ok (record { params = gs.params }), t)
  query_params-genesis k gs req s {t} u r =
      query_params_lem cdc kv req t gs.params (genesis_params k gs s u r)

  not_accepted :
      (k : Keeper) (req : MsgUpdateParams) (p : Params) (t : Store)
      → p ≢ default_params
      → params_of cdc kv t ≡ ok p
      → Effect cdc kv t (update_params cdc kv k req t)
      → (update_params cdc kv k req t).0 ≢ ok response
  not_accepted k req p t h read (inl (refused, same)) = refused
  not_accepted k req p t h read (inr (accepted, holds, written)) =
      absurd (h (one_value (params_of cdc kv t) p default_params read holds))

  -- On a chain whose genesis has other parameters than the default ones, no message is ever accepted.
  pub update_params-genesis :
      (k : Keeper) (gs : GenesisState) (req : MsgUpdateParams) (s : Store) {t : Store}
      → IsValid gs.params
      → gs.params ≢ default_params
      → Run cdc kv k ((init_genesis cdc kv gs s).1) t
      → (update_params cdc kv k req t).0 ≢ ok response
  update_params-genesis k gs req s {t} u h r =
      not_accepted k req gs.params t h (genesis_params k gs s u r)
        (update_params-Effect cdc kv k req t)

  -- If the JSON codec writes the genesis with the stored parameters, the module's export gives that
  -- text, and its import on any store puts the same parameters there.
  pub init_genesis_json-export_genesis_json :
      (json : JsonCodec) (s t : Store) (p : Params) (bz : Bytes)
      → IsValid p
      → params_of cdc kv t ≡ ok p
      → json.marshal_json (record { params = p }) ≡ some bz
      → (export_genesis_json cdc kv json t ≡ (ok bz, t))
        × (init_genesis_json cdc kv json bz s ≡ (ok tt, stored cdc kv p s))
  unfolding export_genesis_json init_genesis_json
  init_genesis_json-export_genesis_json json s t p bz u read written = (
    rw (export_genesis_lem t p read, written),
    rw (json.unmarshal-marshal_json (record { params = p }) no_genesis bz written)
        (init_genesis_lem (record { params = p }) s u),
  )
