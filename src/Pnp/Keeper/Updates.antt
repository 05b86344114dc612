-- ===== src/Pnp/Keeper/Updates.antt =====
-- `UpdateParams` on every branch, and what it means for the maximal supply.
use pointpay_chain.Prelude.{
  ◌≡◌, ◌≢◌, ◌⊎◌, inl, inr, sym, ap, ◌∙◌, Bool, true, false, not, ◌||◌, Outcome, ok, err, panic,
  ◌==◌, if◌then◌else◌, Bool-cases, arith,
}
use pointpay_chain.Prelude.Text.{bytes_eq, bytes_eq→eq, bytes_eq_refl}
use pointpay_chain.Wire.Params.{Params}
use pointpay_chain.Wire.Tx.{MsgUpdateParams, response}
use pointpay_chain.Pnp.Types.{
  AppError, invalid_authority, supply_immutable, default_max_supply, default_params,
}
use pointpay_chain.Pnp.Keeper.Env.{Codec, KvStore}
use pointpay_chain.Pnp.Keeper.{Keeper, get_params, set_params, update_params, pure, ◌>>◌}
use pointpay_chain.Pnp.Keeper.Storage.{stored, set_params_lem}

module _ (cdc : Codec) (kv : KvStore) where
  open kv use {Store, get, set}

  -- The parameters that the store holds, or how reading them ends.
  abbrev pub params_of : Store → Outcome AppError Params
  params_of s = (get_params cdc kv s).0

  -- A message of another sender is refused, whatever it asks for, and the store is left alone.
  pub update_params-authority :
      (k : Keeper) (req : MsgUpdateParams) (s : Store)
      → req.authority ≢ k.authority
      → update_params cdc kv k req s ≡ (err (invalid_authority k.authority req.authority), s)
  unfolding update_params
  update_params-authority k req s h = elim (Bool-cases (bytes_eq k.authority req.authority)) [
    | inl same ↦ absurd (h (sym (bytes_eq→eq k.authority req.authority same)))
    | inr other ↦ rw other
  ]

  pub whole_read :
      (s : Store) (r : Outcome AppError Params) → params_of s ≡ r → get_params cdc kv s ≡ (r, s)
  unfolding get_params
  whole_read s r e = ap (λ (t : Outcome AppError Params). (t, s)) e

  -- `req.Params.MaxSupply != cur.MaxSupply || req.Params.MaxSupply != DefaultMaxSupply`
  abbrev pub changes_supply : MsgUpdateParams → Params → Bool
  changes_supply req cur =
      not (req.params.max_supply == cur.max_supply)
      || not (req.params.max_supply == default_max_supply)

  -- The authority's message, up to the test of the supply.
  pub after_reading :
      (k : Keeper) (req : MsgUpdateParams) (s : Store) (cur : Params) (b : Bool)
      → req.authority ≡ k.authority
      → params_of s ≡ ok cur
      → changes_supply req cur ≡ b
      → update_params cdc kv k req s ≡ (
          if b
          then (err supply_immutable, s)
          else (set_params cdc kv req.params >> pure response) s)
  unfolding update_params
  after_reading k req s cur true same read e =
      rw (← same, bytes_eq_refl req.authority, whole_read s (ok cur) read, e)
  after_reading k req s cur false same read e =
      rw (← same, bytes_eq_refl req.authority, whole_read s (ok cur) read, e)

  -- A message of the authority that asks for another supply than the stored one, or than the
  -- default one, is refused if the stored one can be read, and the store is left alone.
  pub update_params-immutable :
      (k : Keeper) (req : MsgUpdateParams) (s : Store) (cur : Params)
      → req.authority ≡ k.authority
      → params_of s ≡ ok cur
      → (req.params.max_supply ≢ cur.max_supply) ⊎ (req.params.max_supply ≢ default_max_supply)
      → update_params cdc kv k req s ≡ (err supply_immutable, s)
  update_params-immutable k req s cur same read h =
      after_reading k req s cur true same read (ground arith)

  -- A message of the authority for the default supply is accepted if that is the stored supply, and
  -- writes the parameters anew.
  pub update_params_accepts :
      (k : Keeper) (req : MsgUpdateParams) (s : Store)
      → req.authority ≡ k.authority
      → params_of s ≡ ok default_params
      → req.params ≡ default_params
      → update_params cdc kv k req s ≡ (ok response, stored cdc kv default_params s)
  unfolding default_params
  update_params_accepts k req s same read e =
      after_reading k req s default_params false same read (ground arith)
      ∙ rw (e, set_params_lem cdc kv default_params s (omega arith))

  -- If reading the stored parameters panics, so does the authority's message, and the store is left
  -- alone.
  pub update_params_panics :
      (k : Keeper) (req : MsgUpdateParams) (s : Store)
      → req.authority ≡ k.authority
      → params_of s ≡ panic
      → update_params cdc kv k req s ≡ (panic, s)
  unfolding update_params
  update_params_panics k req s same read =
      rw (← same, bytes_eq_refl req.authority, whole_read s panic read)
