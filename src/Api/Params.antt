-- ===== src/Api/Params.antt =====
-- `Params` of pointpay/api/pointpay/pnp/params.pulsar.go: its accessors, its reflection and its fast paths.
pub mod Laws
pub mod Codec
use pointpay_chain.Prelude.{
  ℕ, ◌+◌, ◌==◌, Bool, List, [], ◌∷◌, ◌++◌, Option, none, some, if◌then◌else◌, ok, ◌>>=◌, ◌>>◌,
}
use pointpay_chain.Prelude.Text.{Bytes, codes}
use pointpay_chain.Wire.Error.{Pb, runtime_pb, params_msg}
use pointpay_chain.Wire.Varint.{read_varint}
use pointpay_chain.Wire.Message.{Handler, Switch, expect_wire_type}
use pointpay_chain.Wire.Buffer.{write_varint_field}
use pointpay_chain.Api.Runtime.{Runtime}
use pointpay_chain.Api.Value.{Params, Values}
use pointpay_chain.Api.Reflect.{
  Field, has_in, clear_in, get_in, set_in, mutable_in, new_field_in, range_in, which_oneof_of,
  receiver, is_valid_of,
}
use pointpay_chain.Api.Reflect.Fields.{uint64_field}
use pointpay_chain.Api.Frame.{size_of, marshal_of, keep_unknown, decode, unmarshal_of}

-- `GetMaxSupply`
unfoldable pub get_max_supply : Option Params → ℕ
get_max_supply none = 0
get_max_supply (some x) = x.max_supply

module _ (vs : Values) where
  unfoldable pub fields : List (Field vs.Value Params)
  fields =
      uint64_field vs (codes "pointpay.pnp.Params.maxSupply") (λ x. x.max_supply)
        (λ n x. record x { max_supply = n })
      ∷ []

  unfoldable pub range : {S : Type 0} → (Bytes → vs.Value → S → S × Bool) → Option Params → S → Pb S
  range visit x s = range_in fields visit x s

  unfoldable pub has : Bytes → Option Params → Pb Bool
  has fd x = has_in fields fd x

  unfoldable pub clear : Bytes → Option Params → Pb Params
  clear fd x = clear_in fields fd x

  unfoldable pub get : Bytes → Option Params → Pb vs.Value
  get fd x = get_in fields fd x

  unfoldable pub set : Bytes → vs.Value → Option Params → Pb Params
  set fd v x = set_in fields fd v x

  unfoldable pub mutable : Bytes → Option Params → Pb (Params × vs.Value)
  mutable fd x = mutable_in fields fd x

  unfoldable pub new_field : Bytes → Pb vs.Value
  new_field fd = new_field_in fields fd

unfoldable pub which_oneof : Bytes → Option Params → Pb Bytes
which_oneof d x = which_oneof_of d x

unfoldable pub get_unknown : Option Params → Pb (List ℕ)
get_unknown x = do m ← receiver x; ok m.unknown_fields

unfoldable pub set_unknown : List ℕ → Option Params → Pb Params
set_unknown raw x = do m ← receiver x; ok (record m { unknown_fields = raw })

unfoldable pub is_valid : Option Params → Bool
is_valid x = is_valid_of x

module _ (rt : Runtime) where
  unfoldable pub fields_size : Params → ℕ
  fields_size x = if x.max_supply == 0 then 0 else 1 + rt.sov x.max_supply

  unfoldable pub size : Option Params → ℕ
  size x = size_of fields_size (λ m. m.unknown_fields) x

  -- The part of `marshal` under `if x.MaxSupply != 0`.
  unfoldable pub write_fields : Params → List ℕ → ℕ → Pb (List ℕ × ℕ)
  write_fields x dAtA i =
      if x.max_supply == 0
      then ok (dAtA, i)
      else write_varint_field rt.encode_varint dAtA i x.max_supply 0x8

  unfoldable pub marshal : (Params → ℕ) → List ℕ → Option Params → Pb (List ℕ)
  marshal options_size buf x = marshal_of write_fields (λ m. m.unknown_fields) options_size buf x

  -- `case 1`
  unfoldable pub max_supply_field : Handler Params
  max_supply_field wire_type l index bytes m = do
    expect_wire_type params_msg 1 0 wire_type
    (v, index', rest) ← read_varint runtime_pb index bytes
    ok (record m { max_supply = v }, index', rest)

  unfoldable pub switch : Switch Params
  switch number = if number == 1 then some max_supply_field else none

  unfoldable pub decode_params : Bool → List ℕ → Params → Pb Params
  decode_params discard dAtA x =
      decode params_msg switch
        (keep_unknown rt.skip (λ m raw. record m { unknown_fields = m.unknown_fields ++ raw })
          discard)
        dAtA x

  unfoldable pub unmarshal : Bool → List ℕ → Option Params → Pb (Option Params)
  unmarshal discard dAtA x = unmarshal_of (decode_params discard) dAtA x
