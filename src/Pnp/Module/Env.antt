-- ===== src/Pnp/Module/Env.antt =====
-- What the module takes from the Cosmos SDK besides the keeper's environment.
use pointpay_chain.Prelude.{◌≡◌, Option, none, some}
use pointpay_chain.Prelude.Text.{Bytes}
use pointpay_chain.Wire.Genesis.{GenesisState}

-- `sdk.AccAddress` and `authtypes`: `to_string` is `AccAddress.String`, and the module address of a
-- name has an address text that parses back to it.
pub record Addresses : Type 1 where
  pub Address : Type 0
  pub to_string : Address → Bytes
  pub acc_address_from_bech32 : Bytes → Option Address
  pub new_module_address : Bytes → Address
  pub module_or_bech32 : Bytes → Address
  pub parse_module :
      (name : Bytes)
      → acc_address_from_bech32 (to_string (new_module_address name))
        ≡ some (new_module_address name)
  pub parse_parsed :
      (text : Bytes) (a : Address)
      → acc_address_from_bech32 text ≡ some a
      → acc_address_from_bech32 (to_string a) ≡ some a
  pub from_bech32 :
      (text : Bytes) (a : Address)
      → acc_address_from_bech32 text ≡ some a
      → module_or_bech32 text ≡ a
  pub from_name :
      (text : Bytes)
      → acc_address_from_bech32 text ≡ none
      → module_or_bech32 text ≡ new_module_address text

-- `codec.JSONCodec` on a `GenesisState`; `none` is an error. What it writes, it reads back.
pub record JsonCodec : Type 0 where
  pub marshal_json : GenesisState → Option Bytes
  pub unmarshal_json : Bytes → GenesisState → Option GenesisState
  pub unmarshal-marshal_json :
      (g start : GenesisState) (bz : Bytes)
      → marshal_json g ≡ some bz
      → unmarshal_json bz start ≡ some g
