-- ===== src/Pnp/Types.antt =====
-- The constants, parameters and messages of pointpay/x/pnp/types (constants.go, params.go, genesis.go,
-- msg_update_params.go, errors.go).
pub mod Validation
use pointpay_chain.Prelude.{
  ℕ, ◌*◌, Bool, not, List, [], ◌∷◌, Option, none, some, Outcome, ok, err, ◌>>=◌, ◌>>◌, fail_if,
  ◌==◌, if◌then◌else◌,
}
use pointpay_chain.Prelude.Text.{Bytes, codes}
use pointpay_chain.Wire.Error.{PbError}
use pointpay_chain.Wire.Params.{Params}
use pointpay_chain.Wire.Genesis.{GenesisState}
use pointpay_chain.Wire.Tx.{MsgUpdateParams}

abbrev pub base_denom : Bytes
base_denom = codes "upnp"

abbrev pub max_supply_display : ℕ
max_supply_display = 10_000_000

abbrev pub default_max_supply : ℕ
default_max_supply = max_supply_display * 1_000_000

abbrev pub params_key : Bytes
params_key = codes "p_pnp"

-- The errors of the module; the texts of `Errorf` are left out, and their values kept.
pub data AppError : Type 0 where
  -- "invalid parameter type: %T"
  wrong_type : AppError
  -- "max supply must be > 0"
  zero_supply : AppError
  -- "max supply must equal %d upnp (10M PNP); got %d"
  wrong_supply : ℕ → AppError
  -- ErrInvalidSigner, "invalid authority; expected %s, got %s"
  invalid_authority : Bytes → Bytes → AppError
  -- ErrInvalidSigner, "max supply is immutable (want %d)"
  supply_immutable : AppError
  -- codes.InvalidArgument, "invalid request"
  invalid_request : AppError
  -- "invalid authority address"
  bad_address : AppError
  -- "failed to unmarshal %s genesis state"
  bad_genesis : AppError
  -- an error of the codec
  codec_error : PbError → AppError

-- A value behind `interface{}`: a uint64, or one of another type.
pub data AnyValue : Type 0 where
  uint64 : ℕ → AnyValue
  other : AnyValue

unfoldable pub new_params : ℕ → Params
new_params max_supply = record { max_supply = max_supply }

unfoldable pub default_params : Params
unfolding new_params
default_params = new_params default_max_supply

unfoldable pub default_genesis : GenesisState
unfolding default_params
default_genesis = record { params = default_params }

pub validate_max_supply : AnyValue → Outcome AppError (Unit {0})
validate_max_supply other = err wrong_type
validate_max_supply (uint64 max_supply) = do
  fail_if (max_supply == 0) zero_supply
  fail_if (not (max_supply == default_max_supply)) (wrong_supply max_supply)
  ok tt

-- `Params.Validate`
pub validate_params : Params → Outcome AppError (Unit {0})
validate_params p = validate_max_supply (uint64 p.max_supply)

-- `GenesisState.Validate`
pub validate_genesis : GenesisState → Outcome AppError (Unit {0})
validate_genesis gs = validate_params gs.params

-- `MsgUpdateParams.ValidateBasic`; `parsed` is what the SDK's `AccAddressFromBech32` made of the
-- authority, `none` for its error.
validate_parsed : {Address : Type 0} → Option Address → Params → Outcome AppError (Unit {0})
validate_parsed none params = err bad_address
validate_parsed (some _) params = validate_params params

pub validate_basic :
    {Address : Type 0} → (Bytes → Option Address) → MsgUpdateParams → Outcome AppError (Unit {0})
unfolding validate_parsed
validate_basic acc_address_from_bech32 m =
    validate_parsed (acc_address_from_bech32 m.authority) m.params
