-- ===== src/Api/Genesis.antt =====
-- `GenesisState` of pointpay/api/pointpay/pnp/genesis.pulsar.go: its accessors, its reflection and its fast paths.
pub mod Laws
pub mod Codec
use pointpay_chain.Prelude.{
  Bool, List, [], ◌∷◌, ◌++◌, Option, none, some, ℕ, ◌+◌, ◌==◌, if◌then◌else◌, ok, ◌>>=◌,
}
use pointpay_chain.Prelude.Text.{Bytes, codes}
use pointpay_chain.Wire.Error.{Pb, genesis_state_msg}
use pointpay_chain.Wire.Message.{Handler, Switch}
use pointpay_chain.Api.Runtime.{Runtime}
use pointpay_chain.Api.Value.{Values, Params}
use pointpay_chain.Api.Reflect.{
  Field, has_in, clear_in, get_in, set_in, mutable_in, new_field_in, range_in, which_oneof_of,
  receiver, is_valid_of,
}
use pointpay_chain.Api.Reflect.Fields.{params_field}
use pointpay_chain.Api.Frame.{size_of, marshal_of, keep_unknown, decode, unmarshal_of}
use pointpay_chain.Api.Pointer.{Options, pointer_size, write_pointer, pointer_field}

pub record GenesisState : Type 0 where
  pub params : Option Params
  pub unknown_fields : List ℕ

-- `new(GenesisState)`
abbrev pub new_message : GenesisState
new_message = record { params = none; unknown_fields = [] }

-- `GetParams`
unfoldable pub get_params : Option GenesisState → Option Params
get_params none = none
get_params (some x) = x.params

module _ (vs : Values) where
  unfoldable pub fields : List (Field vs.Value GenesisState)
  fields =
      params_field vs (codes "pointpay.pnp.GenesisState.params") (λ x. x.params)
        (λ p x. record x { params = p })
      ∷ []

  unfoldable pub range :
      {S : Type 0} → (Bytes → vs.Value → S → S × Bool) → Option GenesisState → S → Pb S
  range visit x s = range_in fields visit x s

  unfoldable pub has : Bytes → Option GenesisState → Pb Bool
  has fd x = has_in fields fd x

  unfoldable pub clear : Bytes → Option GenesisState → Pb GenesisState
  clear fd x = clear_in fields fd x

  unfoldable pub get : Bytes → Option GenesisState → Pb vs.Value
  get fd x = get_in fields fd x

  unfoldable pub set : Bytes → vs.Value → Option GenesisState → Pb GenesisState
  set fd v x = set_in fields fd v x

  unfoldable pub mutable : Bytes → Option GenesisState → Pb (GenesisState × vs.Value)
  mutable fd x = mutable_in fields fd x

  unfoldable pub new_field : Bytes → Pb vs.Value
  new_field fd = new_field_in fields fd

unfoldable pub which_oneof : Bytes → Option GenesisState → Pb Bytes
which_oneof d x = which_oneof_of d x

unfoldable pub get_unknown : Option GenesisState → Pb (List ℕ)
get_unknown x = do m ← receiver x; ok m.unknown_fields

unfoldable pub set_unknown : List ℕ → Option GenesisState → Pb GenesisState
set_unknown raw x = do m ← receiver x; ok (record m { unknown_fields = raw })

unfoldable pub is_valid : Option GenesisState → Bool
is_valid x = is_valid_of x

module _ (rt : Runtime) (options : Options rt) where
  unfoldable pub fields_size : GenesisState → ℕ
  fields_size x = pointer_size rt options x.params

  unfoldable pub size : Option GenesisState → ℕ
  size x = size_of fields_size (λ m. m.unknown_fields) x

  -- The part of `marshal` between the unknown fields and the append.
  unfoldable pub write_fields : GenesisState → List ℕ → ℕ → Pb (List ℕ × ℕ)
  write_fields x dAtA i = write_pointer rt options 0xa x.params dAtA i

  unfoldable pub marshal : (GenesisState → ℕ) → List ℕ → Option GenesisState → Pb (List ℕ)
  marshal options_size buf x = marshal_of write_fields (λ m. m.unknown_fields) options_size buf x

  -- `case 1`
  unfoldable pub params_case : Handler GenesisState
  params_case =
      pointer_field rt options genesis_state_msg 1 (λ m. m.params)
        (λ p m. record m { params = some p })

  unfoldable pub switch : Switch GenesisState
  switch number = if number == 1 then some params_case else none

  unfoldable pub decode_message : List ℕ → GenesisState → Pb GenesisState
  decode_message dAtA x =
      decode genesis_state_msg switch
        (keep_unknown rt.skip (λ m raw. record m { unknown_fields = m.unknown_fields ++ raw })
          options.discard_unknown)
        dAtA x

  unfoldable pub unmarshal : List ℕ → Option GenesisState → Pb (Option GenesisState)
  unmarshal dAtA x = unmarshal_of decode_message dAtA x
