-- ===== src/Pnp/Types/Validation.antt =====
-- What the validations accept.
use pointpay_chain.Prelude.{
  ◌≡◌, refl, ◌↔◌, ◌≢◌, ◌⊎◌, inl, inr, ◌==◌, Bool-cases, Option, none, some, ok, err, arith,
}
use pointpay_chain.Prelude.Text.{Bytes}
use pointpay_chain.Wire.Params.{Params}
use pointpay_chain.Wire.Genesis.{GenesisState}
use pointpay_chain.Wire.Tx.{MsgUpdateParams}
use pointpay_chain.Pnp.Types.{
  zero_supply, wrong_supply, default_params, default_genesis, validate_max_supply, validate_params,
  validate_genesis, validate_parsed, validate_basic,
}

-- The default parameters are the only valid ones.
pub validate_params_iff : (p : Params) → (validate_params p ≡ ok tt) ↔ (p ≡ default_params)
unfolding validate_params validate_max_supply default_params
validate_params_iff p = (λ e. ground arith, λ e. ground arith)

-- Of any others, a zero supply is refused with the first error and the rest with the second, which
-- names the supply.
pub validate_params_refuses :
    (p : Params)
    → p ≢ default_params
    → ((p.max_supply ≡ 0) × (validate_params p ≡ err zero_supply))
      ⊎ ((p.max_supply ≢ 0) × (validate_params p ≡ err (wrong_supply p.max_supply)))
unfolding validate_params validate_max_supply default_params
validate_params_refuses p h = elim (Bool-cases (p.max_supply == 0)) [
  | inl zero_max ↦ inl (ground arith)
  | inr positive ↦ inr (ground arith)
]

-- A genesis is valid exactly if it is the default one.
pub validate_genesis_iff :
    (gs : GenesisState) → (validate_genesis gs ≡ ok tt) ↔ (gs ≡ default_genesis)
unfolding validate_genesis default_genesis validate_params validate_max_supply
validate_genesis_iff gs = (λ e. ground arith, λ e. ground arith)

parsed_iff :
    {Address : Type 0} (parsed : Option Address) (p : Params)
    → (validate_parsed parsed p ≡ ok tt) ↔ ((parsed ≢ none) × (p ≡ default_params))
unfolding validate_parsed
parsed_iff none p = (λ e. cc, λ h. absurd (h.0 refl))
parsed_iff (some a) p =
    (λ e. (λ n. cc, (validate_params_iff p).0 e), λ h. (validate_params_iff p).1 h.1)

-- A message passes `ValidateBasic` exactly if its authority is an address and its parameters are the
-- default ones.
pub validate_basic_iff :
    {Address : Type 0} (parse : Bytes → Option Address) (m : MsgUpdateParams)
    → (validate_basic parse m ≡ ok tt) ↔ ((parse m.authority ≢ none) × (m.params ≡ default_params))
unfolding validate_basic
validate_basic_iff parse m = parsed_iff (parse m.authority) m.params
