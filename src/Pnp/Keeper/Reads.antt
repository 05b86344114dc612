-- ===== src/Pnp/Keeper/Reads.antt =====
-- The query and the supply invariant of a store whose parameters decode.
use pointpay_chain.Prelude.{
  ◌≡◌, refl, ◌↔◌, Bool, true, Option, some, none, Outcome, ok, err, panic, stuck, ltb→lt, lt→ltb,
}
use pointpay_chain.Prelude.Text.{Bytes}
use pointpay_chain.Prelude.Int.{ℤ, pos, ltb_ℤ, ◌<ℤ◌}
use pointpay_chain.Wire.Params.{Params}
use pointpay_chain.Wire.Query.{QueryParamsRequest}
use pointpay_chain.Pnp.Types.{AppError, base_denom}
use pointpay_chain.Pnp.Keeper.Env.{Codec, KvStore}
use pointpay_chain.Pnp.Keeper.{Action, pure, go_on, get_params, query_params, supply_invariant}
use pointpay_chain.Pnp.Keeper.Updates.{params_of, whole_read}

module _ (cdc : Codec) (kv : KvStore) where
  open kv use {Store}

  -- A call that only reads before `f` and leaves the store alone in `f`.
  pub after_read :
      {B : Type 0} (s : Store) (r : Outcome AppError Params) (f : Params → Action Store B)
      → ((p : Params) → (f p s).1 ≡ s)
      → (go_on (r, s) f).1 ≡ s
  after_read s (ok p) f h = h p
  after_read s (err e) f h = refl
  after_read s panic f h = refl
  after_read s stuck f h = refl

  -- A query leaves the store alone, also a nil one and one whose read fails.
  pub query_params-store :
      (req : Option QueryParamsRequest) (s : Store) → (query_params cdc kv req s).1 ≡ s
  unfolding query_params get_params
  query_params-store none s = refl
  query_params-store (some req) s =
      after_read s (params_of cdc kv s) (λ params. pure (record { params = params })) (λ p. refl)

  pub supply_invariant-store :
      (get_supply : Bytes → ℤ) (s : Store) → (supply_invariant cdc kv get_supply s).1 ≡ s
  unfolding supply_invariant get_params
  supply_invariant-store get_supply s = after_read s (params_of cdc kv s) _ (λ p. refl)

  -- A query answers with the parameters that the store holds, and changes nothing.
  pub query_params_lem :
      (req : QueryParamsRequest) (s : Store) (p : Params)
      → params_of cdc kv s ≡ ok p
      → query_params cdc kv (some req) s ≡ (ok (record { params = p }), s)
  unfolding query_params
  query_params_lem req s p read = rw (whole_read cdc kv s (ok p) read)

  -- The invariant reports the stored parameters and the supply of the base denomination.
  supply_invariant_run :
      (get_supply : Bytes → ℤ) (s : Store) (p : Params)
      → params_of cdc kv s ≡ ok p
      → supply_invariant cdc kv get_supply s
        ≡ (ok (p, get_supply base_denom, ltb_ℤ (pos p.max_supply) (get_supply base_denom)), s)
  unfolding supply_invariant
  supply_invariant_run get_supply s p read = rw (whole_read cdc kv s (ok p) read)

  exceeds : (a b : ℤ) → (ltb_ℤ a b ≡ true) ↔ (a <ℤ b)
  exceeds a b = (ltb→lt _ _, lt→ltb _ _)

  -- The invariant of a store whose parameters decode changes nothing, gives the parameters and the
  -- supply of upnp, and is reported broken exactly if that supply exceeds the stored maximum.
  pub supply_invariant_iff :
      (get_supply : Bytes → ℤ) (s : Store) (p : Params)
      → params_of cdc kv s ≡ ok p
      → (broken : Bool) × (supply_invariant cdc kv get_supply s
          ≡ (ok (p, get_supply base_denom, broken), s))
        × ((broken ≡ true) ↔ (pos p.max_supply <ℤ get_supply base_denom))
  supply_invariant_iff get_supply s p read = (
    ltb_ℤ (pos p.max_supply) (get_supply base_denom),
    supply_invariant_run get_supply s p read,
    exceeds (pos p.max_supply) (get_supply base_denom),
  )
