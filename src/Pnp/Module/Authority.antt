-- ===== src/Pnp/Module/Authority.antt =====
-- The authority of the module for each configuration (`ProvideModule`).
use pointpay_chain.Prelude.{◌≡◌, ◌≢◌, refl, inl, inr, false, [], none, some, ok, Bool-cases}
use pointpay_chain.Prelude.Text.{Bytes, codes, bytes_eq, bytes_eq→eq}
use pointpay_chain.Pnp.Keeper.{keeper_of, new_keeper}
use pointpay_chain.Pnp.Module.{chosen_authority, provide_module}
use pointpay_chain.Pnp.Module.Env.{Addresses}

-- The module is provided, with the text of an address that parses.
provided :
    (env : Addresses) (configured : Bytes) (a : env.Address)
    → chosen_authority env configured ≡ a
    → env.acc_address_from_bech32 (env.to_string a) ≡ some a
    → provide_module env configured ≡ ok (record { authority = env.to_string a })
unfolding provide_module new_keeper keeper_of
provided env configured a e parses = rw (e, parses)

not_empty : (configured : Bytes) → configured ≢ [] → bytes_eq configured [] ≡ false
not_empty configured h = elim (Bool-cases (bytes_eq configured [])) [
  | inl empty ↦ absurd (h (bytes_eq→eq configured [] empty))
  | inr filled ↦ filled
]

-- Without a configured authority, the module is provided with the address of the module "gov".
pub provide_module_default :
    (env : Addresses)
    → provide_module env []
      ≡ ok (record { authority = env.to_string (env.new_module_address (codes "gov")) })
unfolding chosen_authority bytes_eq
provide_module_default env =
    provided env [] (env.new_module_address (codes "gov")) refl (env.parse_module (codes "gov"))

-- If the configured text is not empty and parses as an address, the module is provided with the text
-- of that address as its authority.
pub provide_module_address :
    (env : Addresses) (configured : Bytes) (a : env.Address)
    → configured ≢ []
    → env.acc_address_from_bech32 configured ≡ some a
    → provide_module env configured ≡ ok (record { authority = env.to_string a })
unfolding chosen_authority
provide_module_address env configured a h e =
    provided env configured a (rw (not_empty configured h) (env.from_bech32 configured a e))
      (env.parse_parsed configured a e)

-- If the configured text is not empty and does not parse, it names a module, and the module is
-- provided with the address of that one as its authority.
pub provide_module_name :
    (env : Addresses) (configured : Bytes)
    → configured ≢ []
    → env.acc_address_from_bech32 configured ≡ none
    → provide_module env configured
      ≡ ok (record { authority = env.to_string (env.new_module_address configured) })
unfolding chosen_authority
provide_module_name env configured h e =
    provided env configured (env.new_module_address configured)
      (rw (not_empty configured h) (env.from_name configured e)) (env.parse_module configured)
