-- ===== src/Pnp/Tests.antt =====
-- Runs of the module of pointpay/x/pnp on a codec that calls the generated methods, a store of
-- functions and small stand-ins for addresses and JSON, and the theorems at concrete inputs.
use mathlib.Core.Option.{some-injective}
use pointpay_chain.Prelude.{
  ℕ, ◌≡◌, ◌≢◌, refl, sym, ap, inl, inr, Bool, true, false, [], ◌∷◌, Option, none, some, ok, err,
  panic, if◌then◌else◌, arith, Bool-cases, ◌⊎◌, ◌<◌, ◌==◌, All, ◌↔◌,
}
use pointpay_chain.Prelude.Text.{Bytes, codes, bytes_eq, bytes_eq→eq, bytes_eq_refl}
use pointpay_chain.Prelude.Int.{pos, ◌<ℤ◌}
use pointpay_chain.Wire.Varint.{read_varint, varint_loop}
use pointpay_chain.Wire.Message.{unmarshal, unmarshal_loop}
use pointpay_chain.Wire.Params.{Params, marshal, unmarshal_params}
use pointpay_chain.Wire.Genesis.{GenesisState}
use pointpay_chain.Wire.Tx.{MsgUpdateParams, response}
use pointpay_chain.Wire.Query.{QueryParamsRequest, request}
use pointpay_chain.Pnp.Types.{
  invalid_authority, supply_immutable, default_params, default_max_supply, default_genesis,
  params_key, validate_params, validate_basic, validate_genesis, zero_supply, wrong_supply,
}
use pointpay_chain.Pnp.Types.Validation.{
  validate_params_iff, validate_params_refuses, validate_genesis_iff, validate_basic_iff,
}
use pointpay_chain.Pnp.Vault.{itoa}
use pointpay_chain.Pnp.Vault.Names.{
  itoa_decimal, itoa_panics, vault_module_account_injective, decimal_value, IsDigit, Leads,
}
use pointpay_chain.Pnp.Keeper.Env.{Codec, KvStore}
use pointpay_chain.Pnp.Keeper.{
  Keeper, decode_stored, get_params, update_params, query_params, supply_invariant,
}
use pointpay_chain.Pnp.Keeper.Storage.{stored, get_params-stored}
use pointpay_chain.Pnp.Keeper.Updates.{
  params_of, update_params-authority, update_params-immutable, update_params_accepts,
  update_params_panics,
}
use pointpay_chain.Pnp.Keeper.Immutable.{Effect, update_params-Effect}
use pointpay_chain.Pnp.Keeper.Reads.{supply_invariant_iff}
use pointpay_chain.Pnp.Module.Env.{Addresses, JsonCodec}
use pointpay_chain.Pnp.Module.{
  message, query, Run, start, next, init_genesis, export_genesis, init_genesis_json,
  export_genesis_json, provide_module, default_genesis_json, validate_genesis_json,
}
use pointpay_chain.Pnp.Module.Authority.{
  provide_module_default, provide_module_address, provide_module_name,
}
use pointpay_chain.Pnp.Module.Simulation.{generate_genesis_state, default_genesis_json_lives}
use pointpay_chain.Pnp.Module.Chain.{
  Run-params, query_params-genesis, update_params-genesis, export_genesis-init_genesis,
  init_genesis_json-export_genesis_json,
}

-- The proto codec.
abbrev proto : Codec
proto = record {
  marshal = marshal;
  unmarshal = unmarshal_params;
  marshal_delegates = λ p. refl;
  unmarshal_delegates = λ bz. refl;
}

other_key : (j k : Bytes) → j ≢ k → bytes_eq j k ≡ false
other_key j k h = elim (Bool-cases (bytes_eq j k)) [
  | inl same ↦ absurd (h (bytes_eq→eq j k same))
  | inr other ↦ other
]

-- A store that is a function of the key.
abbrev assign : (Bytes → Option Bytes) → Bytes → Bytes → Bytes → Option Bytes
assign s k v j = if bytes_eq j k then some v else s j

abbrev memory : KvStore
memory = record {
  Store = Bytes → Option Bytes;
  get = λ s k. s k;
  set = assign;
  get-set_self = λ s k v. rw (bytes_eq_refl k);
  get-set_ne = λ s j k v h. rw (other_key j k h);
}

abbrev empty : Bytes → Option Bytes
empty k = none

abbrev gov : Keeper
gov = record { authority = codes "gov" }

abbrev ask : Bytes → ℕ → MsgUpdateParams
ask sender supply = record { authority = sender; params = record { max_supply = supply } }

abbrev genesis_of : ℕ → GenesisState
genesis_of supply = record { params = record { max_supply = supply } }

abbrev seven : ℕ
seven = 7

abbrev year : ℕ
year = 2026

-- A text is an address if it begins with 'c'.
abbrev parse : Bytes → Option Bytes
parse [] = none
parse (c ∷ cs) = if c == b'c' then some cs else none

abbrev or_name : Bytes → Option Bytes → Bytes
or_name text none = text
or_name text (some a) = a

abbrev addresses : Addresses
addresses = record {
  Address = Bytes;
  to_string = λ a. b'c' ∷ a;
  acc_address_from_bech32 = parse;
  new_module_address = λ name. name;
  module_or_bech32 = λ text. or_name text (parse text);
  parse_module = λ name. refl;
  parse_parsed = λ text a h. refl;
  from_bech32 = λ text a h. ap (or_name text) h;
  from_name = λ text h. ap (or_name text) h;
}

-- A genesis is written as its supply.
abbrev read_supply : Bytes → Option GenesisState
read_supply [] = none
read_supply (n ∷ ns) = some (genesis_of n)

abbrev json : JsonCodec
json = record {
  marshal_json = λ g. some (g.params.max_supply ∷ []);
  unmarshal_json = λ bz start. read_supply bz;
  unmarshal-marshal_json = λ g old bz h. ap read_supply (sym (some-injective _ _ h));
}

-- A chain with the default genesis, one refused message and one query.
abbrev opened : Bytes → Option Bytes
opened = stored proto memory default_params empty

default_read : params_of proto memory opened ≡ ok default_params
unfolding default_params
default_read = ap (λ r. r.0) (get_params-stored proto memory default_params empty (omega arith))

other_read :
    params_of proto memory (stored proto memory (record { max_supply = 7 }) empty)
    ≡ ok (record { max_supply = 7 })
other_read =
    ap (λ r. r.0) (get_params-stored proto memory (record { max_supply = 7 }) empty (omega arith))

-- A refused message and a query.
abbrev later : (Bytes → Option Bytes) → Bytes → Option Bytes
later s =
    (query_params proto memory (some request)
      ((update_params proto memory gov (ask (codes "gov") 7) s).1)).1

two_calls : (s : Bytes → Option Bytes) → Run proto memory gov s (later s)
two_calls s = next (next start (message {s = s} (ask (codes "gov") 7))) (query (some request))

abbrev booted : Bytes → Option Bytes
booted = (init_genesis proto memory (genesis_of 7) empty).1

Run-params_example : params_of proto memory (later opened) ≡ params_of proto memory opened
Run-params_example = Run-params proto memory gov (two_calls opened)

query_params-genesis_example :
    query_params proto memory (some request) (later booted)
    ≡ (ok (record { params = record { max_supply = 7 } }), later booted)
query_params-genesis_example =
    query_params-genesis proto memory gov (genesis_of 7) request empty (omega arith)
      (two_calls booted)

not_default : (n : ℕ) → n < 8 → ◌≢◌ {A = Params} (record { max_supply = n }) default_params
unfolding default_params
not_default n h e = ground arith

update_params-genesis_example :
    (update_params proto memory gov (ask (codes "gov") 7) (later booted)).0 ≢ ok response
update_params-genesis_example =
    update_params-genesis proto memory gov (genesis_of 7) (ask (codes "gov") 7) empty (omega arith)
      (not_default 7 (omega arith)) (two_calls booted)

export_genesis-init_genesis_example :
    export_genesis proto memory booted
    ≡ (ok (genesis_of 7), stored proto memory (record { max_supply = 7 }) empty)
export_genesis-init_genesis_example =
    export_genesis-init_genesis proto memory (genesis_of 7) empty (omega arith)

init_genesis_json-export_genesis_json_example :
    (export_genesis_json proto memory json (stored proto memory (record { max_supply = 7 }) empty)
      ≡ (ok (7 ∷ []), stored proto memory (record { max_supply = 7 }) empty))
    × (init_genesis_json proto memory json (7 ∷ []) opened
        ≡ (ok tt, stored proto memory (record { max_supply = 7 }) opened))
init_genesis_json-export_genesis_json_example =
    init_genesis_json-export_genesis_json proto memory json opened
      (stored proto memory (record { max_supply = 7 }) empty) (record { max_supply = 7 }) (7 ∷ [])
      (omega arith) other_read refl

update_params-Effect_example :
    Effect proto memory opened (update_params proto memory gov (ask (codes "gov") 7) opened)
update_params-Effect_example = update_params-Effect proto memory gov (ask (codes "gov") 7) opened

update_params-authority_example :
    update_params proto memory gov (ask [] default_max_supply) opened
    ≡ (err (invalid_authority (codes "gov") []), opened)
update_params-authority_example =
    update_params-authority proto memory gov (ask [] default_max_supply) opened (λ e. cc)

update_params-immutable_example :
    update_params proto memory gov (ask (codes "gov") 7) opened ≡ (err supply_immutable, opened)
update_params-immutable_example =
    update_params-immutable proto memory gov (ask (codes "gov") 7) opened default_params refl
      default_read (inr (omega arith))

update_params_accepts_example :
    update_params proto memory gov (ask (codes "gov") default_max_supply) opened
    ≡ (ok response, stored proto memory default_params opened)
unfolding default_params
update_params_accepts_example =
    update_params_accepts proto memory gov (ask (codes "gov") default_max_supply) opened refl
      default_read refl

-- A byte that no field begins with.
abbrev damaged : Bytes → Option Bytes
damaged = assign empty params_key (0 ∷ [])

damaged_read : params_of proto memory damaged ≡ panic
unfolding get_params decode_stored bytes_eq unmarshal_params unmarshal unmarshal_loop read_varint
    varint_loop
damaged_read = refl

update_params_panics_example :
    update_params proto memory gov (ask (codes "gov") 7) damaged ≡ (panic, damaged)
update_params_panics_example =
    update_params_panics proto memory gov (ask (codes "gov") 7) damaged refl damaged_read

supply_invariant_iff_example :
    (broken : Bool) × (supply_invariant proto memory (λ d. pos 3) opened
      ≡ (ok (default_params, pos 3, broken), opened))
    × ((broken ≡ true) ↔ (pos default_params.max_supply <ℤ pos 3))
supply_invariant_iff_example =
    supply_invariant_iff proto memory (λ d. pos 3) opened default_params default_read

provide_module_address_example :
    provide_module addresses (codes "cab") ≡ ok (record { authority = codes "cab" })
provide_module_address_example =
    provide_module_address addresses (codes "cab") (codes "ab") (λ e. cc) refl

provide_module_name_example :
    provide_module addresses (codes "gov") ≡ ok (record { authority = codes "cgov" })
provide_module_name_example = provide_module_name addresses (codes "gov") (λ e. cc) refl

provide_module_default_example :
    provide_module addresses [] ≡ ok (record { authority = codes "cgov" })
provide_module_default_example = provide_module_default addresses

validate_params_iff_example :
    (validate_params (record { max_supply = 7 }) ≡ ok tt)
    ↔ (◌≡◌ {A = Params} (record { max_supply = 7 }) default_params)
validate_params_iff_example = validate_params_iff (record { max_supply = 7 })

validate_params_refuses_example :
    ((seven ≡ 0) × (validate_params (record { max_supply = 7 }) ≡ err zero_supply))
    ⊎ ((seven ≢ 0) × (validate_params (record { max_supply = 7 }) ≡ err (wrong_supply 7)))
validate_params_refuses_example =
    validate_params_refuses (record { max_supply = 7 }) (not_default 7 (omega arith))

validate_genesis_iff_example :
    (validate_genesis (genesis_of 7) ≡ ok tt) ↔ (genesis_of 7 ≡ default_genesis)
validate_genesis_iff_example = validate_genesis_iff (genesis_of 7)

validate_basic_iff_example :
    (validate_basic parse (ask (codes "cab") 7) ≡ ok tt)
    ↔ ((parse (codes "cab") ≢ none) × (◌≡◌ {A = Params} (record { max_supply = 7 }) default_params))
validate_basic_iff_example = validate_basic_iff parse (ask (codes "cab") 7)

itoa_decimal_example :
    (s : Bytes) × (itoa (pos 2026) ≡ ok s)
    × (decimal_value s ≡ year)
    × All IsDigit s
    × ((year ≡ 0) ⊎ Leads s)
itoa_decimal_example = itoa_decimal 2026 (omega arith)

itoa_panics_example : itoa (pos 10_000_000_000_000_000) ≡ panic
itoa_panics_example = itoa_panics 10_000_000_000_000_000 (omega arith)

vault_module_account_injective_example : year ≡ year
vault_module_account_injective_example = vault_module_account_injective year year (omega arith) refl

default_genesis_json_lives_example :
    (default_genesis_json json ≡ ok (default_max_supply ∷ []))
    × ((gen : Bytes → Option Bytes) × (generate_genesis_state json (λ _. none) ≡ ok gen)
        × (gen (codes "pnp") ≡ some (default_max_supply ∷ [])))
    × (validate_genesis_json json (default_max_supply ∷ []) ≡ ok tt)
    × (init_genesis_json proto memory json (default_max_supply ∷ []) empty
        ≡ (ok tt, stored proto memory default_params empty))
    × ((t : Bytes → Option Bytes)
        → Run proto memory gov (stored proto memory default_params empty) t
        → ((req : QueryParamsRequest)
            → query_params proto memory (some req) t ≡ (ok (record { params = default_params }), t))
          × ((req : MsgUpdateParams)
              → req.authority ≡ codes "gov"
              → req.params ≡ default_params
              → update_params proto memory gov req t
                ≡ (ok response, stored proto memory default_params t)))
unfolding default_genesis default_params
default_genesis_json_lives_example =
    default_genesis_json_lives proto memory json (default_max_supply ∷ []) gov empty (λ _. none)
      refl
